-- ===== src/AccessLog/Writer/Rows.antt =====
-- internal/accesslog/writer.go: the order in which entries reach the repository.
use ponz_proxy.Prelude.{
  append_assoc, append-nil, ℕ, ◌-◌, ◌≡◌, refl, ◌∙◌, sym, ap, subst, Bool, true, false, List, [],
  ◌∷◌, ◌++◌, map, length, List-cases, inl, inr, Bool-cases, leb,
}
use mathlib.Core.List.{Sublist, sublist-append_left}
use mathlib.Core.List.Sublist as Sublist
use ponz_proxy.AccessLog.Entry.{Entry, truncate}
use ponz_proxy.AccessLog.Writer.{
  State, Event, recorded, received, flush_tick, prune_tick, batch_size, drain, flush, prune_rows,
  received_entry, drained, flush_full, receive, handle, handle_all, shutdown, run, joined,
  record_all, drain_next, Options, new,
}
use ponz_proxy.AccessLog.Writer.Left.{map-append, record_entry-Sublist}
use ponz_proxy.AccessLog.Writer.Accounts.{
  requests-recorded, requests, drain_lem, receive-cases, flush-batch, flush-entries,
}

-- What is recorded of the requests among some events.
abbrev pub entries_of : List Event → List Entry
entries_of es = map truncate (requests es)

append_last : (xs ys zs ts : List Entry) → xs ++ (ys ++ (zs ++ ts)) ≡ (xs ++ (ys ++ zs)) ++ ts
append_last xs ys zs ts =
    ap (λ l. xs ++ l) (sym (append_assoc ys zs ts)) ∙ sym (append_assoc xs (ys ++ zs) ts)

entries_of-cons :
    (e : Event) (es : List Event) → entries_of (e ∷ es) ≡ entries_of (e ∷ []) ++ entries_of es
entries_of-cons (recorded e) es = refl
entries_of-cons received es = refl
entries_of-cons flush_tick es = refl
entries_of-cons (prune_tick now) es = refl

-- What the writer is promised: a batch is added as a whole, after the rows that are there, or not at
-- all, and pruning only removes rows.
pub record Keeps {R : Type 0} (rows : R → List Entry) (write : List Entry → R → R × Bool)
    (prune : ℕ → ℕ → R → R) : Type 0 where
  pub appends : (b : List Entry) (r : R) → (write b r).1 ≡ true → rows (write b r).0 ≡ rows r ++ b
  pub refuses : (b : List Entry) (r : R) → (write b r).1 ≡ false → rows (write b r).0 ≡ rows r
  pub prunes : (before max : ℕ) (r : R) → Sublist (rows (prune before max r)) (rows r)

module _ {R : Type 0} (rows : R → List Entry) where
  -- The rows of the repository, followed by what is on the way to it.
  abbrev pub held : State R → List Entry
  held s = rows s.repo ++ (s.batch ++ s.writer.entries)

  received_entry-held :
      (e : Entry) (es : List Entry) (s : State R)
      → s.writer.entries ≡ e ∷ es
      → held (received_entry e es s) ≡ held s
  unfolding received_entry
  received_entry-held e es s h =
      ap (λ xs. rows s.repo ++ xs)
        (append_assoc s.batch (e ∷ []) es ∙ ap (λ xs. s.batch ++ xs) (sym h))

  drained-held : (s : State R) → held (drained s) ≡ held s
  unfolding drained
  drained-held s =
      ap (λ xs. rows s.repo ++ xs)
        (append-nil (s.batch ++ drain s.writer.entries)
          ∙ ap (λ xs. s.batch ++ xs) (drain_lem s.writer.entries))

module _ {R : Type 0} {rows : R → List Entry} {write : List Entry → R → R × Bool}
    {prune : ℕ → ℕ → R → R} (k : Keeps rows write prune) where
  write-Sublist : (b : List Entry) (r : R) → Sublist (rows (write b r).0) (rows r ++ b)
  write-Sublist b r = elim (Bool-cases (write b r).1) [
    | inl e ↦ rw (k.appends b r e) (Sublist.refl (rows r ++ b))
    | inr e ↦ rw (k.refuses b r e) (sublist-append_left (rows r) b)
  ]

  flush-rows : (s : State R) → Sublist (rows (flush write s).repo) (rows s.repo ++ s.batch)
  unfolding flush
  flush-rows s = elim (List-cases s.batch) [
    | inl e ↦ rw e (rw (append-nil (rows s.repo)) (Sublist.refl (rows s.repo)))
    | inr (x, xs, e) ↦ rw e (write-Sublist (x ∷ xs) s.repo)
  ]

  flush-held : (s : State R) → Sublist (held rows (flush write s)) (held rows s)
  flush-held s =
      rw (flush-batch write s, flush-entries write s)
        (rw⁻¹ (append_assoc (rows s.repo) s.batch s.writer.entries)
          (Sublist.append (flush-rows s) (Sublist.refl s.writer.entries)))

  flush_full-held : (s : State R) → Sublist (held rows (flush_full write s)) (held rows s)
  unfolding flush_full
  flush_full-held s = elim (Bool-cases (leb batch_size (length s.batch))) [
    | inl f ↦ rw f (flush-held s)
    | inr f ↦ rw f (Sublist.refl (held rows s))
  ]

  receive-held : (s : State R) → Sublist (held rows (receive write s)) (held rows s)
  receive-held s = elim (receive-cases write s) [
    | inl p ↦ subst (λ t. Sublist (held rows t) (held rows s)) (sym p) (Sublist.refl (held rows s))
    | inr (e, es, h, p) ↦
        subst (λ t. Sublist (held rows t) (held rows s)) (sym p)
          (subst (λ l. Sublist (held rows (flush_full write (received_entry e es s))) l)
            (received_entry-held rows e es s h) (flush_full-held (received_entry e es s)))
  ]

  handle-held :
      (e : Event) (s : State R)
      → Sublist (held rows (handle write prune e s)) (held rows s ++ entries_of (e ∷ []))
  unfolding handle prune_rows
  handle-held (recorded e) s =
      subst (Sublist (held rows (handle write prune (recorded e) s)))
        (append_last (rows s.repo) s.batch s.writer.entries (truncate e ∷ []))
        (Sublist.append (Sublist.refl (rows s.repo))
          (Sublist.append (Sublist.refl s.batch) (record_entry-Sublist e s.writer)))
  handle-held received s = rw (append-nil (held rows s)) (receive-held s)
  handle-held flush_tick s = rw (append-nil (held rows s)) (flush-held s)
  handle-held (prune_tick now) s = rw (append-nil (held rows s)) (
      Sublist.append (k.prunes (now - s.writer.retention) s.writer.max_rows s.repo)
        (Sublist.refl (s.batch ++ s.writer.entries)))

  handle_all-held :
      (es : List Event) (s : State R)
      → Sublist (held rows (handle_all write prune es s)) (held rows s ++ entries_of es)
  unfolding handle_all
  handle_all-held [] s = rw (append-nil (held rows s)) (Sublist.refl (held rows s))
  handle_all-held (e ∷ es) s = rw (entries_of-cons e es) (
      rw⁻¹ (append_assoc (held rows s) (entries_of (e ∷ [])) (entries_of es)) (
        Sublist.trans (handle_all-held es (handle write prune e s))
          (Sublist.append (handle-held e s) (Sublist.refl (entries_of es)))))

  record_all-held :
      (es : List Entry) (s : State R)
      → Sublist (held rows (record_all write prune es s)) (held rows s ++ map truncate es)
  unfolding record_all
  record_all-held es s =
      subst
        (λ l.
          Sublist (held rows (handle_all write prune (map recorded es) s))
            (held rows s ++ map truncate l))
        (requests-recorded es) (handle_all-held (map recorded es) s)

  drain_next-held :
      (q : List Entry) (during : List (List Entry)) (s : State R)
      → s.writer.entries ≡ q
      → Sublist
          (held rows (drain_next write prune q during s))
          (held rows s ++ map truncate (joined during))
  unfolding drain_next
  drain_next-held [] during s h = record_all-held (joined during) s
  drain_next-held (e ∷ es) [] s h =
      rw (drained-held rows s, append-nil (held rows s)) (Sublist.refl (held rows s))
  drain_next-held (e ∷ es) (more ∷ during) s h =
      let t = record_all write prune more (received_entry e es s) in
      rw (map-append more (joined during)) (
        rw⁻¹ (append_assoc (held rows s) (map truncate more) (map truncate (joined during))) (
          Sublist.trans (drain_next-held t.writer.entries during t refl) (
            Sublist.append
              (subst (λ l. Sublist (held rows t) (l ++ map truncate more))
                (received_entry-held rows e es s h) (record_all-held more (received_entry e es s)))
              (Sublist.refl (map truncate (joined during))))))

  -- From the start of Run to its end, a repository that adds a batch as a whole or not at all gets
  -- no row but those of the recorded requests, each at most once, in the order in which they were
  -- recorded and with their texts clamped, after the rows that it had.
  pub run-Sublist :
      (now : ℕ) (es : List Event) (during : List (List Entry)) (late : List Entry) (o : Options)
      (r : R)
      → Sublist
          (rows (run write prune now es during late (new o) r).repo)
          (rows r ++ entries_of es ++ map truncate (joined during) ++ map truncate late)
  unfolding run shutdown prune_rows new
  run-Sublist now es during late o r =
      let first : R = prune (now - (new o).retention) (new o).max_rows r in
      let ready : State R = record { writer = new o; batch = []; repo = first } in
      let last : State R = handle_all write prune es ready in
      let drained' : State R = drain_next write prune last.writer.entries during last in
      let final : State R = record_all write prune late drained' in
      let begun : Sublist (held rows ready) (rows r) =
        rw (append-nil (rows first)) (k.prunes (now - (new o).retention) (new o).max_rows r) in
      let looped =
        Sublist.trans (handle_all-held es ready)
          (Sublist.append begun (Sublist.refl (entries_of es))) in
      let emptied =
        Sublist.trans (drain_next-held last.writer.entries during last refl)
          (Sublist.append looped (Sublist.refl (map truncate (joined during)))) in
      let ended =
        Sublist.trans (record_all-held late drained')
          (Sublist.append emptied (Sublist.refl (map truncate late))) in
      Sublist.trans (sublist-append_left (rows (flush write final).repo) _)
        (Sublist.trans (flush-held final) ended)
