-- ===== src/AccessLog/Tests.antt =====
-- internal/accesslog: a run in which one batch is written and the next is refused.
use ponz_proxy.Prelude.{
  ℕ, ◌+◌, ◌%◌, ◌^◌, ◌≡◌, refl, Bool, true, false, List, [], ◌∷◌, ◌++◌, map, length, arith,
}
use mathlib.Core.List.{Sublist}
use mathlib.Core.List.Sublist as Sublist
use ponz_proxy.Prelude.Int.{pos, negsuc}
use ponz_proxy.Prelude.Text.{codes}
use ponz_proxy.AccessLog.Entry.{Entry, clamp, cut_at, is_utf8_start, truncate}
use ponz_proxy.AccessLog.Writer.{
  Options, Event, recorded, received, flush_tick, prune_tick, positive_or, new, record_entry,
  count_flush, drain, flush, received_entry, drained, flush_full, receive_next, receive, prune_rows,
  handle, handle_all, shutdown, run, drain_next, record_all, State,
}
use ponz_proxy.AccessLog.Writer.Accounts.{requests, run-accounts}
use ponz_proxy.AccessLog.Writer.Rows.{Keeps, entries_of, run-Sublist}

abbrev request : ℕ → Entry
request n = record {
  id = n;
  timestamp = 1;
  host_id = 1;
  method = codes "GET";
  path = codes "/";
  status = 200;
  duration_ms = 3;
  bytes_out = 9;
  client_ip = codes "1.2.3.4";
  upstream = [];
  user_agent = [];
  error = [];
}

-- A repository with room for two rows more, and one that forgets its oldest.
abbrev write : List Entry → List Entry → List Entry × Bool
write b [] = (b, true)
write b (e ∷ []) = (e ∷ b, true)
write b (e ∷ e' ∷ es) = (e ∷ e' ∷ es, false)

abbrev prune : ℕ → ℕ → List Entry → List Entry
prune before max [] = []
prune before max (e ∷ es) = es

write-appends : (b r : List Entry) → (write b r).1 ≡ true → (write b r).0 ≡ r ++ b
write-appends b [] e = refl
write-appends b (x ∷ []) e = refl
write-appends b (x ∷ y ∷ r) e = ground (arith, e)

write-refuses : (b r : List Entry) → (write b r).1 ≡ false → (write b r).0 ≡ r
write-refuses b [] e = ground (arith, e)
write-refuses b (x ∷ []) e = ground (arith, e)
write-refuses b (x ∷ y ∷ r) e = refl

prune-Sublist : (before max : ℕ) (r : List Entry) → Sublist (prune before max r) r
prune-Sublist before max [] = Sublist.refl []
prune-Sublist before max (e ∷ es) = Sublist.cons e (Sublist.refl es)

abbrev rows : List Entry → List Entry
rows r = r

keeps : Keeps rows write prune
keeps = record {
  appends = λ b r e. write-appends b r e;
  refuses = λ b r e. write-refuses b r e;
  prunes = λ before max r. prune-Sublist before max r;
}

abbrev options : Options
options = record { retention = negsuc 0; max_rows = pos 0 }

abbrev events : List Event
events =
    recorded (request 1)
    ∷ received
    ∷ recorded (request 2)
    ∷ received
    ∷ flush_tick
    ∷ recorded (request 3)
    ∷ prune_tick 1_000_000_000_000_000
    ∷ recorded (request 4)
    ∷ []

-- A request that finishes while the buffer is drained, and one after that.
abbrev ended : State (List Entry)
ended =
    run write prune 900_000_000_000_000 events ((request 5 ∷ []) ∷ []) (request 6 ∷ [])
      (new options) []

run-accounts_example :
    ((ended.writer.written + ended.writer.dropped + length ended.writer.entries) % 2 ^ 64
      ≡ (length (requests events) + 2) % 2 ^ 64)
    × (ended.batch ≡ [])
    × Sublist ended.writer.entries (map truncate (request 5 ∷ request 6 ∷ []))
run-accounts_example =
    run-accounts write prune 900_000_000_000_000 events ((request 5 ∷ []) ∷ []) (request 6 ∷ [])
      options []

run-Sublist_example :
    Sublist (rows ended.repo) (
      rows []
      ++ entries_of events
      ++ map truncate (request 5 ∷ [])
      ++ map truncate (request 6 ∷ []))
run-Sublist_example =
    run-Sublist keeps 900_000_000_000_000 events ((request 5 ∷ []) ∷ []) (request 6 ∷ []) options []

program : Unit {0}
unfolding run shutdown drained drain_next record_all handle_all handle prune_rows receive
    receive_next received_entry flush_full flush count_flush record_entry drain new positive_or
    truncate clamp
program = tt

-- The first row is pruned, and the next four requests are written.
ids : map (λ (e : Entry). e.id) ended.repo ≡ 2 ∷ 3 ∷ 4 ∷ 5 ∷ []
unfolding program
ids = refl

-- The last request is neither written nor counted as dropped.
lost :
    (map (λ (e : Entry). e.id) ended.writer.entries ≡ 6 ∷ [])
    × (ended.writer.written + ended.writer.dropped ≡ 5)
unfolding program
lost = (refl, refl)

-- A character of two bytes is not cut in half.
cut_between : clamp (0x61 ∷ 0xC3 ∷ 0xA9 ∷ []) 2 ≡ 0x61 ∷ 0xE2 ∷ 0x80 ∷ 0xA6 ∷ []
unfolding clamp cut_at is_utf8_start
cut_between = refl
