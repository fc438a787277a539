-- ===== src/Domain/Names/Plain.antt =====
-- internal/domain/host.go: a name that validation accepts is in its normal form.
use ponz_proxy.Prelude.{
  ℕ, suc, ◌≡◌, refl, ap, ◌∙◌, inl, inr, Bool, true, false, not, ◌&&◌, ◌||◌, none, List, [], ◌∷◌,
  arith, ◌==◌, length, Bool-cases, Option-cases, List-cases,
}
use ponz_proxy.Prelude.Text.{Text, codes, text_eq, text_eq_iff}
use ponz_proxy.Prelude.Strings.{
  is_digit, is_space, lower, to_lower, trim_left, trim_right, trim_space, trim_last, cut_prefix,
  cut_last,
}
use ponz_proxy.Prelude.Fields.{split}
use ponz_proxy.Domain.Names.{
  is_label_byte, all_label_bytes, validate_label, validate_labels, validate_domain,
  normalize_domain,
}

-- A byte of a name, dots aside.
abbrev pub is_plain : ℕ → Bool
is_plain c = is_label_byte c || (c == 42)

abbrev all_plain : Text → Bool
all_plain [] = true
all_plain (c ∷ s) = is_plain c && all_plain s

abbrev all_good : List Text → Bool
all_good [] = true
all_good (l ∷ ls) = not (length l == 0) && all_plain l && all_good ls

-- Of a text that may begin within a label.
abbrev tail_good : List Text → Bool
tail_good [] = true
tail_good (l ∷ ls) = all_plain l && all_good ls

label_plain : (l : Text) → all_label_bytes l ≡ true → all_plain l ≡ true
unfolding all_label_bytes
label_plain [] h = refl
label_plain (c ∷ s) h = ground (arith, h, label_plain s)

label_good : (l : Text) → validate_label l ≡ none → ((length l == 0) ≡ false) × (all_plain l ≡ true)
unfolding validate_label
label_good [] h = ground (arith, h)
label_good (c ∷ s) h = ground (arith, h, label_plain (c ∷ s))

star_good :
    (l : Text) → text_eq l (codes "*") ≡ true → ((length l == 0) ≡ false) × (all_plain l ≡ true)
star_good l e = grind (arith, text_eq_iff l (codes "*"), e)

labels_good : (i n : ℕ) (ls : List Text) → validate_labels i n ls ≡ none → all_good ls ≡ true
unfolding validate_labels
labels_good i n [] h = refl
labels_good i n (l ∷ ls) h = elim (Bool-cases (text_eq l (codes "*"))) [
  | inl e ↦ ground (arith, h, e, star_good l e, labels_good (suc i) n ls)
  | inr e ↦ elim (Option-cases (validate_label l)) [
    | inl f ↦ ground (arith, h, e, f, label_good l f, labels_good (suc i) n ls)
    | inr (bad, f) ↦ ground (arith, h, e, f)
  ]
]

good_tail : (ls : List Text) → all_good ls ≡ true → tail_good ls ≡ true
good_tail [] h = refl
good_tail (l ∷ ls) h = ground (arith, h)

domain_good : (d : Text) → validate_domain d ≡ none → tail_good (split d 46) ≡ true
unfolding validate_domain
domain_good d h =
    good_tail (split d 46) (labels_good 0 (length (split d 46)) (split d 46) (ground (arith, h)))

-- Every byte of a name is a dot, a star or one of a label.
abbrev pub all_named : Text → Bool
all_named [] = true
all_named (c ∷ s) = (is_plain c || (c == 46)) && all_named s

tail_cons :
    (c : ℕ) (s : Text)
    → tail_good (split (c ∷ s) 46) ≡ true
    → ((is_plain c || (c == 46)) ≡ true) × (tail_good (split s 46) ≡ true)
unfolding split
tail_cons c s h = elim (Bool-cases (c == 46)) [
  | inl dot ↦ ground (arith, h, dot, good_tail (split s 46))
  | inr other ↦ elim (List-cases (split s 46)) [
    | inl e ↦ ground (arith, h, other, e)
    | inr (l, ls, e) ↦ ground (arith, h, other, e)
  ]
]

named : (d : Text) → tail_good (split d 46) ≡ true → all_named d ≡ true
named [] h = refl
named (c ∷ s) h = let (a, b) = tail_cons c s h in ground (arith, a, named s b)

lone_byte : (c : ℕ) → tail_good (split (c ∷ []) 46) ≡ true → (c == 46) ≡ false
unfolding split
lone_byte c h = ground (arith, h)

-- Such a name does not end in a dot.
no_last_dot : (d : Text) → tail_good (split d 46) ≡ true → trim_last d 46 ≡ d
unfolding trim_last
no_last_dot [] h = refl
no_last_dot (c ∷ []) h = ground (arith, lone_byte c h)
no_last_dot (c ∷ e ∷ s) h = ap (λ z. c ∷ z) (no_last_dot (e ∷ s) (tail_cons c (e ∷ s) h).1)

byte_named :
    (c : ℕ)
    → (is_plain c || (c == 46)) ≡ true
    → (is_space c ≡ false) × (lower c ≡ c) × ((c == 58) ≡ false) × ((c == 91) ≡ false)
unfolding is_space lower is_label_byte is_digit
byte_named c h = ground (arith, h)

pub to_lower_named : (d : Text) → all_named d ≡ true → to_lower d ≡ d
to_lower_named [] h = refl
to_lower_named (c ∷ s) h = ground (arith, h, byte_named c, to_lower_named s)

trim_left_named : (d : Text) → all_named d ≡ true → trim_left d ≡ d
unfolding trim_left
trim_left_named [] h = refl
trim_left_named (c ∷ s) h = ground (arith, h, byte_named c)

trim_right_named : (d : Text) → all_named d ≡ true → trim_right d ≡ d
unfolding trim_right
trim_right_named [] h = refl
trim_right_named (c ∷ s) h = elim (List-cases s) [
  | inl e ↦ ground (arith, h, byte_named c, trim_right_named s, e)
  | inr (d, t, e) ↦ ground (arith, h, byte_named c, trim_right_named s, e)
]

pub cut_last_named : (d : Text) → all_named d ≡ true → cut_last d 58 ≡ none
unfolding cut_last
cut_last_named [] h = refl
cut_last_named (c ∷ s) h = ground (arith, h, byte_named c, cut_last_named s)

pub no_bracket : (d : Text) → all_named d ≡ true → cut_prefix d (codes "[") ≡ none
unfolding cut_prefix
no_bracket [] h = refl
no_bracket (c ∷ s) h = ground (arith, h, byte_named c)

abbrev pub Named : Text → Type 0
Named d = (all_named d ≡ true) × (trim_last d 46 ≡ d)

pub validate_domain-Named : (d : Text) → validate_domain d ≡ none → Named d
validate_domain-Named d h = let good = domain_good d h in (named d good, no_last_dot d good)

pub trim_space_named : (d : Text) → all_named d ≡ true → trim_space d ≡ d
unfolding trim_space
trim_space_named d h = ap trim_right (trim_left_named d h) ∙ trim_right_named d h

-- A domain that `validateDomain` accepts is as `Normalize` leaves it.
pub normalize_domain_named : (d : Text) → validate_domain d ≡ none → normalize_domain d ≡ d
unfolding normalize_domain
normalize_domain_named d h =
    let (all, dot) = validate_domain-Named d h in
    ap (λ z. trim_last (to_lower z) 46) (trim_space_named d all)
    ∙ ap (λ z. trim_last z 46) (to_lower_named d all)
    ∙ dot
