-- ===== src/Prelude/Strings/Trim.antt =====
-- `strings.TrimSpace` and `strings.ToLower`, done twice and in either order.
use ponz_proxy.Prelude.{
  ℕ, ◌≡◌, refl, ap, ◌∙◌, inl, inr, false, [], ◌∷◌, arith, Bool-cases, List-cases,
}
use ponz_proxy.Prelude.Text.{Text}
use ponz_proxy.Prelude.Strings.{is_space, trim_left, trim_right, trim_space, lower, to_lower}

is_space-lower : (c : ℕ) → is_space (lower c) ≡ is_space c
unfolding is_space lower
is_space-lower c = ground arith

lower-lower : (c : ℕ) → lower (lower c) ≡ lower c
unfolding lower
lower-lower c = ground arith

pub to_lower_twice : (s : Text) → to_lower (to_lower s) ≡ to_lower s
to_lower_twice [] = refl
to_lower_twice (c ∷ s) = ground (arith, lower-lower c, to_lower_twice s)

trim_left-to_lower : (s : Text) → trim_left (to_lower s) ≡ to_lower (trim_left s)
unfolding trim_left
trim_left-to_lower [] = refl
trim_left-to_lower (c ∷ s) = ground (arith, is_space-lower c, trim_left-to_lower s)

trim_right-to_lower : (s : Text) → trim_right (to_lower s) ≡ to_lower (trim_right s)
unfolding trim_right
trim_right-to_lower [] = refl
trim_right-to_lower (c ∷ s) = elim (List-cases (trim_right s)) [
  | inl e ↦ ground (arith, is_space-lower c, trim_right-to_lower s, e)
  | inr (d, t, e) ↦ ground (arith, is_space-lower c, trim_right-to_lower s, e)
]

pub trim_space-to_lower : (s : Text) → trim_space (to_lower s) ≡ to_lower (trim_space s)
unfolding trim_space
trim_space-to_lower s = ap trim_right (trim_left-to_lower s) ∙ trim_right-to_lower (trim_left s)

trim_right_twice : (s : Text) → trim_right (trim_right s) ≡ trim_right s
unfolding trim_right
trim_right_twice [] = refl
trim_right_twice (c ∷ s) = elim (List-cases (trim_right s)) [
  | inl e ↦ ground (arith, trim_right_twice s, e)
  | inr (d, t, e) ↦ ground (arith, trim_right_twice s, e)
]

-- Nothing is to be trimmed in front.
abbrev Solid : Text → Type 0
Solid [] = Unit {0}
Solid (c ∷ s) = is_space c ≡ false

trim_left-Solid : (s : Text) → Solid (trim_left s)
unfolding trim_left
trim_left-Solid [] = tt
trim_left-Solid (c ∷ s) = elim (Bool-cases (is_space c)) [
  | inl e ↦ ground (arith, e, trim_left-Solid s)
  | inr e ↦ ground (arith, e)
]

trim_right-Solid : (s : Text) → Solid s → Solid (trim_right s)
unfolding trim_right
trim_right-Solid [] h = tt
trim_right-Solid (c ∷ s) h = elim (List-cases (trim_right s)) [
  | inl e ↦ ground (arith, e, h)
  | inr (d, t, e) ↦ ground (arith, e, h)
]

Solid-trim_left : (s : Text) → Solid s → trim_left s ≡ s
unfolding trim_left
Solid-trim_left [] h = refl
Solid-trim_left (c ∷ s) h = ground (arith, h)

pub trim_space_twice : (s : Text) → trim_space (trim_space s) ≡ trim_space s
unfolding trim_space
trim_space_twice s =
    ap trim_right (
      Solid-trim_left (trim_right (trim_left s))
        (trim_right-Solid (trim_left s) (trim_left-Solid s)))
    ∙ trim_right_twice (trim_left s)
