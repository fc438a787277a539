-- ===== src/AccessLog/Writer/Accounts.antt =====
-- internal/accesslog/writer.go: what the counters of the writer add up to.
use ponz_proxy.Prelude.{
  ℕ, ◌+◌, ◌%◌, ◌^◌, ◌≡◌, refl, ◌∙◌, ap, Bool, true, false, List, [], ◌∷◌, ◌++◌, map, arith, length,
  length-append, List-cases, ◌⊎◌, inl, inr, Bool-cases, leb, ltb,
}
use mathlib.Core.List.{Sublist}
use mathlib.Core.List.Sublist as Sublist
use ponz_proxy.AccessLog.Entry.{Entry, truncate}
use ponz_proxy.AccessLog.Writer.{
  Writer, State, Event, recorded, received, flush_tick, prune_tick, batch_size, buffer_size,
  record_entry, drain, count_flush, flush, prune_rows, received_entry, drained, flush_full,
  receive_next, receive, handle, handle_all, shutdown, run, Options, new, joined, record_all,
  drain_next,
}
use ponz_proxy.AccessLog.Writer.Left.{map-append, record_all-entries, drain_next-entries}

-- The requests among some events.
abbrev pub requests : List Event → List Entry
requests [] = []
requests (recorded e ∷ es) = e ∷ requests es
requests (received ∷ es) = requests es
requests (flush_tick ∷ es) = requests es
requests (prune_tick now ∷ es) = requests es

-- What is written, dropped, waiting to be written or waiting to be received.
abbrev pub accounted : {R : Type 0} → State R → ℕ
accounted s = s.writer.written + s.writer.dropped + length s.batch + length s.writer.entries

pub drain_lem : (es : List Entry) → drain es ≡ es
unfolding drain
drain_lem [] = refl
drain_lem (e ∷ es) = rw (drain_lem es) refl

count_flush-accounted :
    (b : Bool) (n : ℕ) (w : Writer)
    → ((count_flush b n w).written + (count_flush b n w).dropped) % 2 ^ 64
      ≡ (w.written + w.dropped + n) % 2 ^ 64
unfolding count_flush
count_flush-accounted true n w = omega arith
count_flush-accounted false n w = omega arith

count_flush-entries : (b : Bool) (n : ℕ) (w : Writer) → (count_flush b n w).entries ≡ w.entries
unfolding count_flush
count_flush-entries true n w = refl
count_flush-entries false n w = refl

record_entry-accounted :
    (e : Entry) (w : Writer)
    → ((record_entry e w).written + (record_entry e w).dropped + length (record_entry e w).entries)
        % 2 ^ 64
      ≡ (w.written + w.dropped + length w.entries + 1) % 2 ^ 64
unfolding record_entry
record_entry-accounted e w = elim (Bool-cases (ltb (length w.entries) buffer_size)) [
  | inl f ↦ rw f (omega (arith, length-append w.entries (truncate e ∷ [])))
  | inr f ↦ rw f (omega arith)
]

module _ {R : Type 0} where
  received_entry-accounted :
      (e : Entry) (es : List Entry) (s : State R)
      → s.writer.entries ≡ e ∷ es
      → accounted (received_entry e es s) ≡ accounted s
  unfolding received_entry
  received_entry-accounted e es s h = omega (arith, length-append s.batch (e ∷ []), ap length h)

  drained-accounted : (s : State R) → accounted (drained s) ≡ accounted s
  unfolding drained
  drained-accounted s =
      rw (drain_lem s.writer.entries) (omega (arith, length-append s.batch s.writer.entries))

module _ {R : Type 0} (write : List Entry → R → R × Bool) where
  pub flush-batch : (s : State R) → (flush write s).batch ≡ []
  unfolding flush
  flush-batch s = elim (List-cases s.batch) [ inl e ↦ rw e refl | inr (x, xs, e) ↦ rw e refl ]

  pub flush-entries : (s : State R) → (flush write s).writer.entries ≡ s.writer.entries
  unfolding flush
  flush-entries s = elim (List-cases s.batch) [
    | inl e ↦ rw e refl
    | inr (x, xs, e) ↦ rw (e, count_flush-entries) refl
  ]

  flush-counters :
      (s : State R)
      → ((flush write s).writer.written + (flush write s).writer.dropped) % 2 ^ 64
        ≡ (s.writer.written + s.writer.dropped + length s.batch) % 2 ^ 64
  unfolding flush
  flush-counters s = elim (List-cases s.batch) [
    | inl e ↦ rw e (omega arith)
    | inr (x, xs, e) ↦
        rw (e, count_flush-accounted (write (x ∷ xs) s.repo).1 (length (x ∷ xs)) s.writer) refl
  ]

  flush-accounted : (s : State R) → accounted (flush write s) % 2 ^ 64 ≡ accounted s % 2 ^ 64
  flush-accounted s =
      omega (arith, flush-counters s, ap length (flush-batch s), ap length (flush-entries s))

  flush_full-accounted :
      (s : State R) → accounted (flush_full write s) % 2 ^ 64 ≡ accounted s % 2 ^ 64
  unfolding flush_full
  flush_full-accounted s = elim (Bool-cases (leb batch_size (length s.batch))) [
    | inl f ↦ rw f (flush-accounted s)
    | inr f ↦ rw f refl
  ]

  pub receive-cases :
      (s : State R)
      → (receive write s ≡ s)
        ⊎ ((e : Entry) × (es : List Entry) × (s.writer.entries ≡ e ∷ es)
            × (receive write s ≡ flush_full write (received_entry e es s)))
  unfolding receive receive_next
  receive-cases s = elim (List-cases s.writer.entries) [
    | inl h ↦ inl (ap (λ xs. receive_next write xs s) h)
    | inr (e, es, h) ↦ inr (e, es, h, ap (λ xs. receive_next write xs s) h)
  ]

  receive-accounted : (s : State R) → accounted (receive write s) % 2 ^ 64 ≡ accounted s % 2 ^ 64
  receive-accounted s = elim (receive-cases s) [
    | inl p ↦ ap (λ t. accounted t % 2 ^ 64) p
    | inr (e, es, h, p) ↦
        ap (λ t. accounted t % 2 ^ 64) p
        ∙ flush_full-accounted (received_entry e es s)
        ∙ ap (λ n. n % 2 ^ 64) (received_entry-accounted e es s h)
  ]

pub requests-recorded : (es : List Entry) → requests (map recorded es) ≡ es
requests-recorded [] = refl
requests-recorded (e ∷ es) = rw (requests-recorded es) refl

module _ {R : Type 0} (write : List Entry → R → R × Bool) (prune : ℕ → ℕ → R → R) where
  handle-accounted :
      (e : Event) (s : State R)
      → accounted (handle write prune e s) % 2 ^ 64
        ≡ (accounted s + length (requests (e ∷ []))) % 2 ^ 64
  unfolding handle prune_rows
  handle-accounted (recorded e) s = omega (arith, record_entry-accounted e s.writer)
  handle-accounted received s = omega (arith, receive-accounted write s)
  handle-accounted flush_tick s = omega (arith, flush-accounted write s)
  handle-accounted (prune_tick now) s = omega arith

  requests-cons :
      (e : Event) (es : List Event)
      → length (requests (e ∷ es)) ≡ length (requests (e ∷ [])) + length (requests es)
  requests-cons (recorded e) es = omega arith
  requests-cons received es = omega arith
  requests-cons flush_tick es = omega arith
  requests-cons (prune_tick now) es = omega arith

  pub handle_all-accounted :
      (es : List Event) (s : State R)
      → accounted (handle_all write prune es s) % 2 ^ 64
        ≡ (accounted s + length (requests es)) % 2 ^ 64
  unfolding handle_all
  handle_all-accounted [] s = omega arith
  handle_all-accounted (e ∷ es) s = omega (
    arith,
    handle_all-accounted es (handle write prune e s),
    handle-accounted e s,
    requests-cons e es,
  )

  record_all-accounted :
      (es : List Entry) (s : State R)
      → accounted (record_all write prune es s) % 2 ^ 64 ≡ (accounted s + length es) % 2 ^ 64
  unfolding record_all
  record_all-accounted es s =
      handle_all-accounted (map recorded es) s
      ∙ ap (λ xs. (accounted s + length xs) % 2 ^ 64) (requests-recorded es)

  drain_next-accounted :
      (q : List Entry) (during : List (List Entry)) (s : State R)
      → s.writer.entries ≡ q
      → accounted (drain_next write prune q during s) % 2 ^ 64
        ≡ (accounted s + length (joined during)) % 2 ^ 64
  unfolding drain_next
  drain_next-accounted [] during s h = record_all-accounted (joined during) s
  drain_next-accounted (e ∷ es) [] s h = omega (arith, drained-accounted s)
  drain_next-accounted (e ∷ es) (more ∷ during) s h =
      let t = record_all write prune more (received_entry e es s) in
      omega (
        arith,
        drain_next-accounted t.writer.entries during t refl,
        record_all-accounted more (received_entry e es s),
        received_entry-accounted e es s h,
        length-append more (joined during),
      )

  -- When Run ends, whatever the repository answered and in whichever order the cases of the loop
  -- were taken, each request that was recorded is counted as written, counted as dropped (as 64-bit
  -- counters), or still in the buffer, and the batch is empty. Only requests that were recorded
  -- while the buffer was drained at the shutdown, or after that, can be left in the buffer.
  pub run-accounts :
      (now : ℕ) (es : List Event) (during : List (List Entry)) (late : List Entry) (o : Options)
      (r : R)
      → let s = run write prune now es during late (new o) r in
        ((s.writer.written + s.writer.dropped + length s.writer.entries) % 2 ^ 64
          ≡ (length (requests es) + length (joined during ++ late)) % 2 ^ 64)
        × (s.batch ≡ [])
        × Sublist s.writer.entries (map truncate (joined during ++ late))
  unfolding run shutdown prune_rows new
  run-accounts now es during late o r =
      let start = prune_rows write prune now (record { writer = new o; batch = []; repo = r }) in
      let last = handle_all write prune es start in
      let drained' = drain_next write prune last.writer.entries during last in
      let final = record_all write prune late drained' in
      (
        omega (
          arith,
          flush-accounted write final,
          ap length (flush-batch write final),
          record_all-accounted late drained',
          drain_next-accounted last.writer.entries during last refl,
          handle_all-accounted es start,
          length-append (joined during) late,
        ),
        flush-batch write final,
        rw (flush-entries write final, map-append (joined during) late)
            (Sublist.trans (record_all-entries write prune late drained') (
              Sublist.append (drain_next-entries write prune last.writer.entries during last refl)
                (Sublist.refl (map truncate late)))),
      )
