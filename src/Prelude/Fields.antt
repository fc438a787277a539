-- ===== src/Prelude/Fields.antt =====
-- What the code uses of Go's packages strings and strconv to read the values of header fields.
pub mod Decimal
use ponz_proxy.Prelude.{
  zero, ◌/◌, ◌%◌, ℕ, suc, ◌+◌, ◌-◌, ◌*◌, ◌^◌, Bool, true, false, ◌&&◌, ◌||◌, Option, none, some,
  List, [], ◌∷◌, leb, ltb, ◌==◌, if◌then◌else◌, length, drop,
}
use ponz_proxy.Prelude.Int.{ℤ, pos, sub_ℕ}
use ponz_proxy.Prelude.Text.{Text, text_eq}
use ponz_proxy.Prelude.Strings.{to_lower, is_digit, lower}

-- `strings.EqualFold`, on ASCII.
unfoldable pub equal_fold : Text → Text → Bool
equal_fold s t = text_eq (to_lower s) (to_lower t)

-- Does the text begin with `p`, the letters' case aside?
unfoldable pub has_fold_prefix : Text → Text → Bool
has_fold_prefix s [] = true
has_fold_prefix [] (d ∷ p) = false
has_fold_prefix (c ∷ s) (d ∷ p) = (lower c == lower d) && has_fold_prefix s p

-- `strings.Split` at one byte: there is always a first part.
abbrev onto_first : ℕ → List Text → List Text
onto_first c [] = (c ∷ []) ∷ []
onto_first c (p ∷ ps) = (c ∷ p) ∷ ps

unfoldable pub split : Text → ℕ → List Text
split [] c = [] ∷ []
split (d ∷ s) c = let rest = split s c in if d == c then [] ∷ rest else onto_first d rest

-- `strings.Trim` of one byte.
unfoldable pub trim_start : ℕ → Text → Text
trim_start c [] = []
trim_start c (d ∷ s) = let rest = trim_start c s in if d == c then rest else d ∷ s

unfoldable pub trim_end : ℕ → Text → Text
trim_end c [] = []
trim_end c (d ∷ s) = elim (trim_end c s) [ [] ↦ if d == c then [] else d ∷ [] | e ∷ t ↦ d ∷ e ∷ t ]

abbrev pub trim : ℕ → Text → Text
trim c s = trim_end c (trim_start c s)

unfoldable pub read_digits : ℕ → Text → Option ℕ
read_digits n [] = some n
read_digits n (c ∷ s) =
    let rest = read_digits (n * 10 + (c - 48)) s in if is_digit c then rest else none

abbrev pub unsigned : Text → Option ℕ
unsigned [] = none
unsigned (c ∷ s) = read_digits 0 (c ∷ s)

abbrev pub max_int64 : ℕ
max_int64 = 2 ^ 63 - 1

-- `strconv.ParseInt` with base 10 and 64 bits, and `strconv.Atoi`.
unfoldable pub parse_int : Text → Option ℤ
parse_int [] = none
parse_int (c ∷ s) =
    if c == 45
    then elim (unsigned s) [
      | none ↦ none
      | some n ↦ if leb n (2 ^ 63) then some (sub_ℕ 0 n) else none
    ]
    else elim (unsigned (if c == 43 then s else c ∷ s)) [
      | none ↦ none
      | some n ↦ if leb n max_int64 then some (pos n) else none
    ]

-- `strconv.Itoa` of a number that is not negative, digit by digit from the last. The number itself
-- is fuel enough.
unfoldable pub digits : ℕ → ℕ → Text → Text
digits zero n acc = acc
digits (suc fuel) n acc =
    let first = (48 + n % 10) ∷ acc in
    elim (n / 10) [ zero ↦ first | suc m ↦ digits fuel (suc m) first ]

unfoldable pub itoa : ℕ → Text
itoa n = digits (suc n) n []
