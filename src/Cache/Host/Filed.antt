-- ===== src/Cache/Host/Filed.antt =====
-- internal/cache/cache.go, `HostCache`: the map of the items and the list of the nodes agree.
use ponz_proxy.Prelude.{
  ℕ, ◌<◌, ◌≡◌, ◌≢◌, ◌↔◌, refl, ap, inl, inr, Bool, true, false, ◌||◌, some, List, [], ◌∷◌, ◌++◌,
  arith, ◌==◌, Bool-cases,
}
use ponz_proxy.Cache.Key.{Key, key_eq_iff, find, Distinct, delete-Distinct, find-delete}
use ponz_proxy.Cache.Recency.Chain.{Absent, Unique}
use ponz_proxy.Cache.Host.{HostCache, remove}

abbrev pub elem : ℕ → List ℕ → Bool
elem i [] = false
elem i (j ∷ js) = (j == i) || elem i js

pub elem-append : (i : ℕ) (xs ys : List ℕ) → elem i (xs ++ ys) ≡ (elem i xs || elem i ys)
elem-append i [] ys = refl
elem-append i (x ∷ xs) ys = ground (arith, elem-append i xs ys)

pub Absent-elem : (i : ℕ) (is : List ℕ) → Absent i is ↔ (elem i is ≡ false)
Absent-elem i [] = ground arith
Absent-elem i (j ∷ js) = ground (arith, Absent-elem i js)

pub elem-split :
    (i : ℕ) (is : List ℕ) → elem i is ≡ true → (xs : List ℕ) × (ys : List ℕ) × (is ≡ xs ++ i ∷ ys)
elem-split i [] h = ground (arith, h)
elem-split i (j ∷ js) h = elim (Bool-cases (j == i)) [
  | inl e ↦ ([], js, ground (arith, e))
  | inr n ↦
      let (xs, ys, e) = elem-split i js (ground (arith, h, n)) in (j ∷ xs, ys, ap (λ z. j ∷ z) e)
]

-- Without one node, the nodes are the others.
pub elem-without :
    (xs : List ℕ) (i : ℕ) (ys : List ℕ) (j : ℕ)
    → Unique (xs ++ i ∷ ys)
    → (elem j (xs ++ ys) ≡ true) ↔ ((elem j (xs ++ i ∷ ys) ≡ true) × (j ≢ i))
elem-without [] i ys j (a, u) = grind (arith, Absent-elem i ys, a)
elem-without (x ∷ xs) i ys j (a, u) =
    grind
      (arith, elem-without xs i ys j u, Absent-elem x (xs ++ i ∷ ys), elem-append i xs (i ∷ ys), a)

-- No key is twice in the map, a key of the map is that of a node of the list, and each node is in the map under its key.
abbrev pub Filed : HostCache → List ℕ → Type 0
Filed h is =
    ((k : Key) (i : ℕ) → find k h.items ≡ some i → ((h.payload i).0 ≡ k) × (elem i is ≡ true))
    × ((i : ℕ) → elem i is ≡ true → (find (h.payload i).0 h.items ≡ some i) × (i < h.allocated))
    × Distinct h.items

pub remove-Filed :
    (xs : List ℕ) (i : ℕ) (ys : List ℕ) (h : HostCache)
    → Unique (xs ++ i ∷ ys)
    → Filed h (xs ++ i ∷ ys)
    → Filed (remove i h) (xs ++ ys)
unfolding remove
remove-Filed xs i ys h u (by_key, by_node, d) = (
  (λ k j e. grind (
    arith,
    find-delete k (h.payload i).0 h.items,
    key_eq_iff k (h.payload i).0,
    by_key k j,
    by_node i,
    elem-without xs i ys j u,
    e,
  )),
  (λ j e. grind (
    arith,
    find-delete (h.payload j).0 (h.payload i).0 h.items,
    key_eq_iff (h.payload j).0 (h.payload i).0,
    by_node j,
    by_node i,
    elem-append i xs (i ∷ ys),
    elem-without xs i ys j u,
    e,
  )),
  delete-Distinct (h.payload i).0 h.items d,
)
