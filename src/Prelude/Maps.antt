-- ===== src/Prelude/Maps.antt =====
-- A Go map with string keys, as an association list whose keys are distinct, in the order in
-- which a range loop happens to visit it.
use ponz_proxy.Prelude.{
  Option-cases, inl, inr, suc, ◌≤◌, ◌≡◌, refl, Bool, not, Option, none, some, List, [], ◌∷◌, arith,
  if◌then◌else◌, length,
}
use ponz_proxy.Prelude.Text.{Text, text_eq, text_eq_iff}

module _ {ℓ} {V : Type ℓ} where
  unfoldable pub lookup : Text → List (Text × V) → Option V
  lookup k [] = none
  lookup k ((j, v) ∷ m) = if text_eq j k then some v else lookup k m

  unfoldable pub insert : Text → V → List (Text × V) → List (Text × V)
  insert k v [] = (k, v) ∷ []
  insert k v ((j, w) ∷ m) = if text_eq j k then (k, v) ∷ m else (j, w) ∷ insert k v m

  -- A range loop that deletes the entries which `p` does not keep.
  unfoldable pub keep : (Text → V → Bool) → List (Text × V) → List (Text × V)
  keep p [] = []
  keep p ((k, v) ∷ m) = if p k v then (k, v) ∷ keep p m else keep p m

  abbrev pub delete : Text → List (Text × V) → List (Text × V)
  delete k m = keep (λ j v. not (text_eq k j)) m

  pub lookup-insert :
      (k j : Text) (v : V) (m : List (Text × V))
      → lookup j (insert k v m) ≡ (if text_eq k j then some v else lookup j m)
  unfolding lookup insert
  lookup-insert k j v [] = refl
  lookup-insert k j v ((i, w) ∷ m) =
      ground (arith, text_eq_iff k j, text_eq_iff i k, text_eq_iff i j, lookup-insert k j v m)

  pub length-insert_le :
      (k : Text) (v : V) (m : List (Text × V)) → length (insert k v m) ≤ suc (length m)
  unfolding insert
  length-insert_le k v [] = ground arith
  length-insert_le k v ((i, w) ∷ m) = ground (arith, length-insert_le k v m)

module _ {ℓ} {V : Type ℓ} where
  abbrev pub Distinct : List (Text × V) → Type ℓ
  Distinct [] = Unit {ℓ}
  Distinct ((k, v) ∷ m) = (lookup k m ≡ none) × Distinct m

  abbrev kept : (Text → V → Bool) → Text → Option V → Option V
  kept p j none = none
  kept p j (some v) = if p j v then some v else none

  lookup-keep_none :
      (p : Text → V → Bool) (j : Text) (m : List (Text × V))
      → lookup j m ≡ none
      → lookup j (keep p m) ≡ none
  unfolding lookup keep
  lookup-keep_none p j [] h = refl
  lookup-keep_none p j ((k, v) ∷ m) h = ground (arith, lookup-keep_none p j m, h)

  pub lookup-keep :
      (p : Text → V → Bool) (j : Text) (m : List (Text × V))
      → Distinct m
      → lookup j (keep p m) ≡ kept p j (lookup j m)
  unfolding lookup keep
  lookup-keep p j [] d = refl
  lookup-keep p j ((k, v) ∷ m) (n, d) =
      grind (arith, text_eq_iff k j, lookup-keep p j m d, lookup-keep_none p k m n, n)

  pub keep-Distinct : (p : Text → V → Bool) (m : List (Text × V)) → Distinct m → Distinct (keep p m)
  unfolding keep
  keep-Distinct p [] d = d
  keep-Distinct p ((k, v) ∷ m) (n, d) =
      ground (arith, keep-Distinct p m d, lookup-keep_none p k m n)

  pub insert-Distinct :
      (k : Text) (v : V) (m : List (Text × V)) → Distinct m → Distinct (insert k v m)
  unfolding insert lookup
  insert-Distinct k v [] d = (refl, d)
  insert-Distinct k v ((j, w) ∷ m) (n, d) =
      grind
        (arith, text_eq_iff j k, text_eq_iff k j, lookup-insert k j v m, insert-Distinct k v m d, n)

  pub lookup-delete :
      (k j : Text) (m : List (Text × V))
      → Distinct m
      → lookup j (delete k m) ≡ (if text_eq k j then none else lookup j m)
  lookup-delete k j m d = elim (Option-cases (lookup j m)) [
    | inl e ↦ grind (arith, lookup-keep (λ i v. not (text_eq k i)) j m d, e)
    | inr (v, e) ↦ grind (arith, lookup-keep (λ i v. not (text_eq k i)) j m d, e)
  ]
