-- ===== src/Prelude/Fields/Decimal.antt =====
-- `strconv.ParseInt` reads what `strconv.Itoa` writes.
use ponz_proxy.Prelude.{
  ℕ, zero, suc, ◌+◌, ◌-◌, ◌*◌, ◌/◌, ◌%◌, ◌≤◌, ◌<◌, ◌≡◌, refl, sym, ap, ◌∙◌, true, false, none, some,
  [], ◌∷◌, arith, leb, ◌==◌, if◌then◌else◌,
}
use ponz_proxy.Prelude.Int.{pos}
use ponz_proxy.Prelude.Text.{Text}
use ponz_proxy.Prelude.Strings.{is_digit}
use ponz_proxy.Prelude.Fields.{read_digits, parse_int, digits, itoa, max_int64}

read_digit :
    (m n : ℕ) (s : Text) → read_digits m ((48 + n % 10) ∷ s) ≡ read_digits (m * 10 + n % 10) s
unfolding read_digits is_digit
read_digit m n s =
    let same : 48 + n % 10 - 48 ≡ n % 10 = omega arith in
    let digit : is_digit (48 + n % 10) ≡ true = ground arith in
    ap (λ b. if b then read_digits (m * 10 + (48 + n % 10 - 48)) s else none) digit
    ∙ ap (λ z. read_digits (m * 10 + z) s) same

read_digits-digits :
    (fuel n : ℕ) (acc : Text) → n < fuel → read_digits 0 (digits fuel n acc) ≡ read_digits n acc
unfolding digits
read_digits-digits zero n acc h = absurd (omega (arith, h))
read_digits-digits (suc fuel) n acc h =
    go (n / 10) refl (λ m less. read_digits-digits fuel (suc m) ((48 + n % 10) ∷ acc) less)
  where
    go :
        (q : ℕ)
        → n / 10 ≡ q
        → ((m : ℕ)
            → suc m < fuel
            → read_digits 0 (digits fuel (suc m) ((48 + n % 10) ∷ acc))
              ≡ read_digits (suc m) ((48 + n % 10) ∷ acc))
        → read_digits 0 (elim q [
          | zero ↦ (48 + n % 10) ∷ acc
          | suc m ↦ digits fuel (suc m) ((48 + n % 10) ∷ acc)
        ])
          ≡ read_digits n acc
    go zero e rest = read_digit 0 n acc ∙ ap (λ z. read_digits z acc) (omega (arith, e))
    go (suc m) e rest =
        rest m (omega (arith, e, h))
        ∙ read_digit (suc m) n acc
        ∙ ap (λ z. read_digits z acc) (omega (arith, e))

-- The first byte is a digit.
digits-first :
    (fuel n : ℕ) (acc : Text)
    → n < fuel
    → (c : ℕ) × (s : Text) × (digits fuel n acc ≡ c ∷ s) × (48 ≤ c)
unfolding digits
digits-first zero n acc h = absurd (omega (arith, h))
digits-first (suc fuel) n acc h =
    go (n / 10) refl (λ m less. digits-first fuel (suc m) ((48 + n % 10) ∷ acc) less)
  where
    go :
        (q : ℕ)
        → n / 10 ≡ q
        → ((m : ℕ)
            → suc m < fuel
            → (c : ℕ) × (s : Text) × (digits fuel (suc m) ((48 + n % 10) ∷ acc) ≡ c ∷ s) × (48 ≤ c))
        → (c : ℕ) × (s : Text) × ((elim q [
          | zero ↦ (48 + n % 10) ∷ acc
          | suc m ↦ digits fuel (suc m) ((48 + n % 10) ∷ acc)
        ])
            ≡ c ∷ s)
          × (48 ≤ c)
    go zero e rest = (48 + n % 10, acc, refl, omega arith)
    go (suc m) e rest = rest m (omega (arith, e, h))

parse_digits :
    (c : ℕ) (s : Text) (n : ℕ)
    → 48 ≤ c
    → read_digits 0 (c ∷ s) ≡ some n
    → n ≤ max_int64
    → parse_int (c ∷ s) ≡ some (pos n)
unfolding parse_int
parse_digits c s n low read small =
    let not_minus : (c == 45) ≡ false = ground (arith, low) in
    let not_plus : (c == 43) ≡ false = ground (arith, low) in
    let in_range : leb n max_int64 ≡ true = ground (arith, small) in
    rw (not_minus, not_plus, read, in_range) refl

read_nothing : (n : ℕ) → read_digits n [] ≡ some n
unfolding read_digits
read_nothing n = refl

-- A number that an int64 holds is read back.
pub parse_int-itoa : (n : ℕ) → n ≤ max_int64 → parse_int (itoa n) ≡ some (pos n)
unfolding itoa
parse_int-itoa n small =
    let (c, s, e, low) = digits-first (suc n) n [] (omega arith) in
    ap parse_int e
    ∙ parse_digits c s n low
        (ap (read_digits 0) (sym e)
          ∙ read_digits-digits (suc n) n [] (omega arith)
          ∙ read_nothing n)
        small
