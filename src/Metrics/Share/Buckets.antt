-- ===== src/Metrics/Share/Buckets.antt =====
-- internal/metrics/share.go: the ring of buckets, as a list that is read from `next` on.
use ponz_proxy.Prelude.{
  append_assoc, append-nil, ℕ, zero, suc, ◌+◌, ◌%◌, ◌≤◌, ◌<◌, ◌≡◌, refl, sym, ap, ◌∙◌, List, [],
  ◌∷◌, ◌++◌, arith, length, set, get_or, take, drop, length-set,
}
use ponz_proxy.Metrics.Share.{word, plus, minus}

abbrev pub total : List ℕ → ℕ
total [] = 0
total (x ∷ xs) = x + total xs

pub total-append : (xs ys : List ℕ) → total (xs ++ ys) ≡ total xs + total ys
total-append [] ys = omega arith
total-append (x ∷ xs) ys = omega (arith, total-append xs ys)

pub total-set :
    (xs : List ℕ) (i d : ℕ) → i < length xs → total (set xs i d) + get_or xs i 0 ≡ total xs + d
total-set [] i d h = omega arith
total-set (x ∷ xs) zero d h = omega arith
total-set (x ∷ xs) (suc i) d h = omega (arith, total-set xs i d (omega arith))

pub get_or-le : (xs : List ℕ) (i : ℕ) → get_or xs i 0 ≤ total xs
get_or-le [] i = omega arith
get_or-le (x ∷ xs) zero = omega arith
get_or-le (x ∷ xs) (suc i) = omega (arith, get_or-le xs i)

pub wrap_lem : (t b d t' : ℕ) → b < word → t' + b ≡ t + d → plus (minus (t % word) b) d ≡ t' % word
wrap_lem t b d t' h e = omega arith

pub drop-set : (xs : List ℕ) (i d : ℕ) → i < length xs → drop (suc i) (set xs i d) ≡ drop (suc i) xs
drop-set [] i d h = refl
drop-set (x ∷ xs) zero d h = refl
drop-set (x ∷ xs) (suc i) d h = drop-set xs i d (omega arith)

pub take-set :
    (xs : List ℕ) (i d : ℕ) → i < length xs → take (suc i) (set xs i d) ≡ take i xs ++ d ∷ []
take-set [] i d h = ground (arith, h)
take-set (x ∷ xs) zero d h = refl
take-set (x ∷ xs) (suc i) d h = ap (λ z. x ∷ z) (take-set xs i d (omega arith))

pub drop-get : (xs : List ℕ) (i : ℕ) → i < length xs → drop i xs ≡ get_or xs i 0 ∷ drop (suc i) xs
drop-get [] i h = ground (arith, h)
drop-get (x ∷ xs) zero h = refl
drop-get (x ∷ xs) (suc i) h = drop-get xs i (omega arith)

pub take-all : (xs : List ℕ) (n : ℕ) → length xs ≤ n → take n xs ≡ xs
take-all [] zero h = refl
take-all [] (suc n) h = refl
take-all (x ∷ xs) zero h = ground (arith, h)
take-all (x ∷ xs) (suc n) h = ap (λ z. x ∷ z) (take-all xs n (omega arith))

pub drop-all : (xs : List ℕ) (n : ℕ) → length xs ≤ n → drop n xs ≡ []
drop-all [] zero h = refl
drop-all [] (suc n) h = refl
drop-all (x ∷ xs) zero h = ground (arith, h)
drop-all (x ∷ xs) (suc n) h = drop-all xs n (omega arith)

-- One bucket on, or back to the first.
pub slide_inside :
    (xs : List ℕ) (i d : ℕ)
    → i < length xs
    → drop (suc i) (set xs i d) ++ take (suc i) (set xs i d)
      ≡ drop 1 (drop i xs ++ take i xs) ++ d ∷ []
slide_inside xs i d h =
    rw (drop-set xs i d h, take-set xs i d h, drop-get xs i h)
      (sym (append_assoc (drop (suc i) xs) (take i xs) (d ∷ [])))

pub slide_last :
    (xs : List ℕ) (i d : ℕ)
    → suc i ≡ length xs
    → set xs i d ++ [] ≡ drop 1 (drop i xs ++ take i xs) ++ d ∷ []
slide_last xs i d h =
    append-nil (set xs i d)
    ∙ sym (take-all (set xs i d) (suc i) (omega (arith, length-set xs i d)))
    ∙ take-set xs i d (omega arith)
    ∙ rw (drop-get xs i (omega arith), drop-all xs (suc i) (omega arith)) refl
