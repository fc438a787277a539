-- ===== src/AccessLog/Writer.antt =====
-- internal/accesslog/writer.go: the buffer between the requests and the repository, and the loop of
-- Run that empties it.
--
-- The loop is a function of the sequence of cases that its `select` takes, and a request that is
-- recorded is an event between two of them. The repository is the interface that the writer is
-- given: `write` answers its next state and whether it succeeded, `prune` its next state. The
-- number of rows that `prune` removes, and its error, are only logged.
pub mod Left
pub mod Accounts
pub mod Rows
pub mod Bounds
use ponz_proxy.Prelude.{
  ℕ, ◌+◌, ◌-◌, ◌%◌, ◌^◌, Bool, true, false, List, [], ◌∷◌, ◌++◌, map, ltb, leb, if◌then◌else◌,
  length,
}
use ponz_proxy.Prelude.Int.{ℤ, pos, pos_part, ltb_ℤ}
use ponz_proxy.AccessLog.Entry.{Entry, truncate}

abbrev pub buffer_size : ℕ
buffer_size = 4096

abbrev pub batch_size : ℕ
batch_size = 256

pub record Writer : Type 0 where
  pub entries : List Entry
  pub dropped : ℕ
  pub written : ℕ
  pub retention : ℕ
  pub max_rows : ℕ

-- Durations are nanoseconds, as in the source.
pub record Options : Type 0 where
  pub retention : ℤ
  pub max_rows : ℤ

unfoldable pub positive_or : ℤ → ℕ → ℕ
positive_or n d = if ltb_ℤ (pos 0) n then pos_part n else d

unfoldable pub new : Options → Writer
new o = record {
  entries = [];
  dropped = 0;
  written = 0;
  retention = positive_or o.retention 604_800_000_000_000;
  max_rows = positive_or o.max_rows 500_000;
}

unfoldable pub record_entry : Entry → Writer → Writer
record_entry e w =
    if ltb (length w.entries) buffer_size
    then record w { entries = w.entries ++ (truncate e ∷ []) }
    else record w { dropped = (w.dropped + 1) % 2 ^ 64 }

pub record Stats : Type 0 where
  pub written : ℕ
  pub dropped : ℕ
  pub pending : ℕ

unfoldable pub stats : Writer → Stats
stats w = record { written = w.written; dropped = w.dropped; pending = length w.entries }

-- The entries that a shutdown finds in the buffer, in turn.
unfoldable pub drain : List Entry → List Entry
drain [] = []
drain (e ∷ es) = e ∷ drain es

abbrev pub joined : List (List Entry) → List Entry
joined [] = []
joined (es ∷ ess) = es ++ joined ess

-- The writer, the batch that Run collects, and the state of the repository.
pub record State (R : Type 0) : Type 0 where
  pub writer : Writer
  pub batch : List Entry
  pub repo : R

pub data Event : Type 0 where
  recorded : Entry → Event
  received : Event
  flush_tick : Event
  prune_tick : ℕ → Event

unfoldable pub count_flush : Bool → ℕ → Writer → Writer
count_flush true n w = record w { written = (w.written + n) % 2 ^ 64 }
count_flush false n w = record w { dropped = (w.dropped + n) % 2 ^ 64 }

module _ {R : Type 0} where
  unfoldable pub received_entry : Entry → List Entry → State R → State R
  received_entry e es s = record s {
    writer = record s.writer { entries = es };
    batch = s.batch ++ (e ∷ []);
  }

  unfoldable pub drained : State R → State R
  drained s = record s {
    writer = record s.writer { entries = [] };
    batch = s.batch ++ drain s.writer.entries;
  }

module _ {R : Type 0} (write : List Entry → R → R × Bool) where
  -- Every caller empties its batch after the call.
  unfoldable pub flush : State R → State R
  flush s = elim s.batch [
    | [] ↦ s
    | e ∷ es ↦
        let (repo, ok) = write (e ∷ es) s.repo in
        record { writer = count_flush ok (length (e ∷ es)) s.writer; batch = []; repo = repo }
  ]

  unfoldable pub flush_full : State R → State R
  flush_full s = if leb batch_size (length s.batch) then flush s else s

  -- The entry that is received is the first of the buffer.
  unfoldable pub receive_next : List Entry → State R → State R
  receive_next [] s = s
  receive_next (e ∷ es) s = flush_full (received_entry e es s)

  unfoldable pub receive : State R → State R
  receive s = receive_next s.writer.entries s

module _ {R : Type 0} (write : List Entry → R → R × Bool) (prune : ℕ → ℕ → R → R) where
  unfoldable pub prune_rows : ℕ → State R → State R
  prune_rows now s = record s { repo = prune (now - s.writer.retention) s.writer.max_rows s.repo }

  unfoldable pub handle : Event → State R → State R
  handle (recorded e) s = record s { writer = record_entry e s.writer }
  handle received s = receive write s
  handle flush_tick s = flush write s
  handle (prune_tick now) s = prune_rows now s

  unfoldable pub handle_all : List Event → State R → State R
  handle_all [] s = s
  handle_all (e ∷ es) s = handle_all es (handle e s)

  -- Requests that finish one after the other.
  unfoldable pub record_all : List Entry → State R → State R
  record_all es s = handle_all (map recorded es) s

  -- The loop of `drain`, by what the buffer holds. It ends once it finds the buffer empty; the
  -- requests of each list are recorded before it looks again, and those of the lists that are left
  -- once it has ended.
  unfoldable pub drain_next : List Entry → List (List Entry) → State R → State R
  drain_next [] during s = record_all (joined during) s
  drain_next (e ∷ es) [] s = drained s
  drain_next (e ∷ es) (more ∷ during) s =
      let t = record_all more (received_entry e es s) in drain_next t.writer.entries during t

  -- The servers go on finishing requests after the signal: some while `drain` runs, and the `late`
  -- ones between its end and that of Run.
  unfoldable pub shutdown : List (List Entry) → List Entry → State R → State R
  shutdown during late s = flush write (record_all late (drain_next s.writer.entries during s))

  -- From the start of Run, at a time, to its end.
  unfoldable pub run : ℕ → List Event → List (List Entry) → List Entry → Writer → R → State R
  run now es during late w r =
      shutdown during late
        (handle_all es (prune_rows now (record { writer = w; batch = []; repo = r })))
