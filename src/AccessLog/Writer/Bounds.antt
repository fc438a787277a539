-- ===== src/AccessLog/Writer/Bounds.antt =====
-- internal/accesslog/writer.go: how much the writer ever holds in memory.
use ponz_proxy.Prelude.{
  ℕ, ◌<◌, ◌≤◌, sym, subst, ap, inl, inr, Bool, List, [], ◌∷◌, arith, length, length-append,
  Bool-cases, leb, ltb,
}
use ponz_proxy.AccessLog.Entry.{Entry, truncate}
use ponz_proxy.AccessLog.Writer.{
  Writer, State, Event, recorded, received, flush_tick, prune_tick, batch_size, buffer_size,
  record_entry, flush, prune_rows, received_entry, flush_full, receive, handle, handle_all,
}
use ponz_proxy.AccessLog.Writer.Accounts.{receive-cases, flush-batch, flush-entries}

-- The buffer has its size at most, and the batch is smaller than one that is written.
abbrev pub Within : {R : Type 0} → State R → Type 0
Within s = (length s.writer.entries ≤ buffer_size) × (length s.batch < batch_size)

record_entry-length :
    (e : Entry) (w : Writer)
    → length w.entries ≤ buffer_size
    → length (record_entry e w).entries ≤ buffer_size
unfolding record_entry
record_entry-length e w h = elim (Bool-cases (ltb (length w.entries) buffer_size)) [
  | inl f ↦ rw f (ground (arith, f, length-append w.entries (truncate e ∷ [])))
  | inr f ↦ rw f h
]

module _ {R : Type 0} (write : List Entry → R → R × Bool) (prune : ℕ → ℕ → R → R) where
  flush-Within : (s : State R) → length s.writer.entries ≤ buffer_size → Within (flush write s)
  flush-Within s h = (
    omega (arith, ap length (flush-entries write s)),
    omega (arith, ap length (flush-batch write s)),
  )

  flush_full-Within :
      (s : State R) → length s.writer.entries ≤ buffer_size → Within (flush_full write s)
  unfolding flush_full
  flush_full-Within s h = elim (Bool-cases (leb batch_size (length s.batch))) [
    | inl f ↦ rw f (flush-Within s h)
    | inr f ↦ rw f (h, ground (arith, f))
  ]

  receive-Within : (s : State R) → Within s → Within (receive write s)
  unfolding received_entry
  receive-Within s (h, b) = elim (receive-cases write s) [
    | inl p ↦ subst Within (sym p) (h, b)
    | inr (e, es, q, p) ↦
        subst Within (sym p)
          (flush_full-Within (received_entry e es s) (omega (arith, ap length q)))
  ]

  handle-Within : (e : Event) (s : State R) → Within s → Within (handle write prune e s)
  unfolding handle prune_rows
  handle-Within (recorded e) s (h, b) = (record_entry-length e s.writer h, b)
  handle-Within received s h = receive-Within s h
  handle-Within flush_tick s (h, b) = flush-Within s h
  handle-Within (prune_tick now) s h = h

  pub handle_all-Within :
      (es : List Event) (s : State R) → Within s → Within (handle_all write prune es s)
  unfolding handle_all
  handle_all-Within [] s h = h
  handle_all-Within (e ∷ es) s h =
      handle_all-Within es (handle write prune e s) (handle-Within e s h)
