-- ===== src/Prelude/Strings.antt =====
-- What the code uses of Go's package strings, on bytes. Letters and spaces are those of ASCII.
pub mod Trim
use ponz_proxy.Prelude.{
  ℕ, ◌+◌, ◌≡◌, ◌≢◌, ◌↔◌, Bool, true, false, ◌&&◌, ◌||◌, Option, none, some, [], ◌∷◌, ◌++◌, map,
  arith, leb, ◌==◌, if◌then◌else◌,
}
use ponz_proxy.Prelude.Text.{Text}

-- What follows a prefix: `strings.CutPrefix`.
unfoldable pub cut_prefix : Text → Text → Option Text
cut_prefix s [] = some s
cut_prefix [] (p ∷ ps) = none
cut_prefix (c ∷ s) (p ∷ ps) = if c == p then cut_prefix s ps else none

unfoldable pub has_prefix : Text → Text → Bool
has_prefix s p = elim (cut_prefix s p) [ none ↦ false | some _ ↦ true ]

unfoldable pub trim_prefix : Text → Text → Text
trim_prefix s p = elim (cut_prefix s p) [ none ↦ s | some rest ↦ rest ]

-- The text around the first byte `c`: `strings.Cut` and `strings.IndexByte`.
unfoldable pub cut : Text → ℕ → Option (Text × Text)
cut [] c = none
cut (d ∷ s) c =
    let rest = cut s c in
    if d == c
    then some ([], s)
    else elim rest [ none ↦ none | some (before, after) ↦ some (d ∷ before, after) ]

-- The text around the last byte `c`: `strings.LastIndexByte`.
unfoldable pub cut_last : Text → ℕ → Option (Text × Text)
cut_last [] c = none
cut_last (d ∷ s) c = elim (cut_last s c) [
  | some (before, after) ↦ some (d ∷ before, after)
  | none ↦ if d == c then some ([], s) else none
]

-- One byte `c` at the end is dropped: `strings.TrimSuffix`.
unfoldable pub trim_last : Text → ℕ → Text
trim_last [] c = []
trim_last (d ∷ []) c = if d == c then [] else d ∷ []
trim_last (d ∷ e ∷ s) c = d ∷ trim_last (e ∷ s) c

unfoldable pub is_space : ℕ → Bool
is_space c = (c == 32) || (leb 9 c && leb c 13)

unfoldable pub trim_left : Text → Text
trim_left [] = []
trim_left (c ∷ s) = let rest = trim_left s in if is_space c then rest else c ∷ s

unfoldable pub trim_right : Text → Text
trim_right [] = []
trim_right (c ∷ s) = elim (trim_right s) [
  | [] ↦ if is_space c then [] else c ∷ []
  | d ∷ t ↦ c ∷ d ∷ t
]

unfoldable pub trim_space : Text → Text
trim_space s = trim_right (trim_left s)

unfoldable pub lower : ℕ → ℕ
lower c = if leb 65 c && leb c 90 then c + 32 else c

abbrev pub to_lower : Text → Text
to_lower s = map lower s

unfoldable pub is_digit : ℕ → Bool
is_digit c = leb 48 c && leb c 57

pub cut_prefix_iff : (s p rest : Text) → (cut_prefix s p ≡ some rest) ↔ (s ≡ p ++ rest)
unfolding cut_prefix
cut_prefix_iff s [] rest = ground arith
cut_prefix_iff [] (p ∷ ps) rest = ground arith
cut_prefix_iff (c ∷ s) (p ∷ ps) rest = ground (arith, cut_prefix_iff s ps rest)

-- The first cut: the parts with the byte between them, which the first part does not contain.
abbrev pub Lacks : ℕ → Text → Type 0
Lacks c [] = Unit {0}
Lacks c (d ∷ s) = (d ≢ c) × Lacks c s

pub cut_lem :
    (s : Text) (c : ℕ) (before after : Text)
    → cut s c ≡ some (before, after)
    → (s ≡ before ++ c ∷ after) × Lacks c before
unfolding cut
cut_lem [] c before after e = ground (arith, e)
cut_lem (d ∷ s) c [] after e = ground (arith, e)
cut_lem (d ∷ s) c (b ∷ before) after e = ground (arith, e, cut_lem s c before after)
