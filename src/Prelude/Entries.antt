-- ===== src/Prelude/Entries.antt =====
-- The loop in which the source cleans the entries of a list, leaves out empty ones and those that it
-- has seen, and keeps the others in order.
use ponz_proxy.Prelude.{
  ◌≡◌, ◌≢◌, refl, ap, Bool, true, false, ◌||◌, List, [], ◌∷◌, arith, ◌==◌, if◌then◌else◌, length,
}
use ponz_proxy.Prelude.Text.{Text, text_eq}

unfoldable pub member : Text → List Text → Bool
member x [] = false
member x (y ∷ ys) = text_eq x y || member x ys

module _ (clean : Text → Text) where
  unfoldable pub cleaned : List Text → List Text → List Text
  cleaned seen [] = []
  cleaned seen (p ∷ ps) =
      let q = clean p in
      let kept = q ∷ cleaned (q ∷ seen) ps in
      let dropped = cleaned seen ps in if (length q == 0) || member q seen then dropped else kept

  -- Every entry is one that the cleaning may leave, and none is empty, seen before or repeated.
  abbrev pub Settled : (Text → Type 0) → List Text → List Text → Type 0
  Settled P seen [] = Unit {0}
  Settled P seen (p ∷ ps) = P p × (p ≢ []) × (member p seen ≡ false) × Settled P (p ∷ seen) ps

  pub cleaned-Settled :
      (P : Text → Type 0) (seen ps : List Text)
      → ((p : Text) → P (clean p))
      → Settled P seen (cleaned seen ps)
  unfolding cleaned
  cleaned-Settled P seen [] all = tt
  cleaned-Settled P seen (p ∷ ps) all =
      either ((length (clean p) == 0) || member (clean p) seen) _ _ (cleaned-Settled P seen ps all)
        (λ f. (
          all p,
          (λ e. ground (arith, f, ap length e)),
          ground (arith, f),
          cleaned-Settled P (clean p ∷ seen) ps all,
        ))
    where
      either :
          (b : Bool) (xs ys : List Text)
          → Settled P seen xs
          → (b ≡ false → Settled P seen ys)
          → Settled P seen (if b then xs else ys)
      either true xs ys dropped kept = dropped
      either false xs ys dropped kept = kept refl

  nonempty-length : (p : Text) → p ≢ [] → (length p == 0) ≡ false
  nonempty-length [] n = absurd (n refl)
  nonempty-length (c ∷ p) n = ground arith

  pub cleaned_same :
      (seen ps : List Text) → Settled (λ p. clean p ≡ p) seen ps → cleaned seen ps ≡ ps
  unfolding cleaned
  cleaned_same seen [] s = refl
  cleaned_same seen (p ∷ ps) (fixed, n, unseen, s) =
      rw (fixed, nonempty-length p n, unseen, cleaned_same (p ∷ seen) ps s) refl
