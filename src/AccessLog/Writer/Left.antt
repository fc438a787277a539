-- ===== src/AccessLog/Writer/Left.antt =====
-- internal/accesslog/writer.go: what is in the buffer once Run has ended.
use ponz_proxy.Prelude.{
  ◌≡◌, refl, ap, subst, inl, inr, List, [], ◌∷◌, ◌++◌, map, Bool, length, ltb, Bool-cases,
  append_assoc, append-nil,
}
use mathlib.Core.List.{Sublist, sublist-append_left, sublist-append_right}
use mathlib.Core.List.Sublist as Sublist
use ponz_proxy.AccessLog.Entry.{Entry, truncate}
use ponz_proxy.AccessLog.Writer.{
  Writer, State, buffer_size, joined, record_entry, received_entry, drained, handle, handle_all,
  record_all, drain_next,
}
use ponz_proxy.Prelude.{ℕ}

pub map-append : (xs ys : List Entry) → map truncate (xs ++ ys) ≡ map truncate xs ++ map truncate ys
map-append [] ys = refl
map-append (x ∷ xs) ys = ap (λ l. truncate x ∷ l) (map-append xs ys)

pub record_entry-Sublist :
    (e : Entry) (w : Writer) → Sublist (record_entry e w).entries (w.entries ++ (truncate e ∷ []))
unfolding record_entry
record_entry-Sublist e w = elim (Bool-cases (ltb (length w.entries) buffer_size)) [
  | inl f ↦ rw f (Sublist.refl (w.entries ++ (truncate e ∷ [])))
  | inr f ↦ rw f (sublist-append_left w.entries (truncate e ∷ []))
]

module _ {R : Type 0} (write : List Entry → R → R × Bool) (prune : ℕ → ℕ → R → R) where
  pub record_all-entries :
      (es : List Entry) (s : State R)
      → Sublist (record_all write prune es s).writer.entries (s.writer.entries ++ map truncate es)
  unfolding record_all handle_all handle
  record_all-entries [] s = rw (append-nil s.writer.entries) (Sublist.refl s.writer.entries)
  record_all-entries (e ∷ es) s =
      rw⁻¹ (append_assoc s.writer.entries (truncate e ∷ []) (map truncate es)) (
        Sublist.trans (record_all-entries es (record s { writer = record_entry e s.writer }))
          (Sublist.append (record_entry-Sublist e s.writer) (Sublist.refl (map truncate es))))

  -- The loop of `drain` leaves nothing that was recorded before it.
  pub drain_next-entries :
      (q : List Entry) (during : List (List Entry)) (s : State R)
      → s.writer.entries ≡ q
      → Sublist (drain_next write prune q during s).writer.entries (map truncate (joined during))
  unfolding drain_next drained
  drain_next-entries [] during s h =
      subst
        (λ l.
          Sublist (record_all write prune (joined during) s).writer.entries
            (l ++ map truncate (joined during)))
        h (record_all-entries (joined during) s)
  drain_next-entries (e ∷ es) [] s h = Sublist.refl []
  drain_next-entries (e ∷ es) (more ∷ during) s h =
      let t = record_all write prune more (received_entry e es s) in
      rw (map-append more (joined during)) (
        Sublist.trans (drain_next-entries t.writer.entries during t refl)
          (sublist-append_right (map truncate more) (map truncate (joined during))))
