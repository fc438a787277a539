-- ===== src/Cache/Host/Eviction.antt =====
-- internal/cache/cache.go, `Put`: the loop that evicts.
use ponz_proxy.Prelude.{
  append_assoc, append-nil, ℕ, zero, suc, ◌+◌, ◌≤◌, ◌<◌, ◌≡◌, refl, sym, ap, subst, ◌∙◌, ◌⊎◌, inl,
  inr, Bool, true, false, Option, none, some, List, [], ◌∷◌, ◌++◌, arith, ltb, if◌then◌else◌,
  length, Bool-cases,
}
use ponz_proxy.Cache.Recency.{unlink}
use ponz_proxy.Cache.Recency.Moves.{Lists, unlink-Lists, last-append}
use ponz_proxy.Cache.Host.Filed.{Filed, remove-Filed}
use ponz_proxy.Cache.Key.{Key}
use ponz_proxy.Cache.Entry.{Entry}
use ponz_proxy.Cache.Host.{HostCache, remove, evict}

abbrev sizes : (ℕ → Key × Entry) → List ℕ → ℕ
sizes payload [] = 0
sizes payload (i ∷ is) = (payload i).1.size + sizes payload is

abbrev pub weight : HostCache → List ℕ → ℕ
weight h is = sizes h.payload is

-- The list stands for the nodes `is`, their sizes are accounted for, and they are the nodes that
-- the map of the items has.
abbrev pub Accounted : HostCache → List ℕ → Type 0
Accounted h is = Lists h.recency is × (h.bytes ≡ weight h is) × Filed h is

pub weight-append :
    (h : HostCache) (xs ys : List ℕ) → weight h (xs ++ ys) ≡ weight h xs + weight h ys
weight-append h [] ys = omega arith
weight-append h (x ∷ xs) ys = omega (arith, weight-append h xs ys)

snoc_cases : (is : List ℕ) → (is ≡ []) ⊎ ((xs : List ℕ) × (i : ℕ) × (is ≡ xs ++ i ∷ []))
snoc_cases [] = inl refl
snoc_cases (x ∷ is) = elim (snoc_cases is) [
  | inl e ↦ inr ([], x, ap (λ z. x ∷ z) e)
  | inr (xs, i, e) ↦ inr (x ∷ xs, i, ap (λ z. x ∷ z) e)
]

abbrev evicted : ℕ → HostCache → HostCache
evicted i h = record (remove i h) { evictions = h.evictions + 1 }

weight-evicted : (i : ℕ) (h : HostCache) (is : List ℕ) → weight (evicted i h) is ≡ weight h is
unfolding remove
weight-evicted i h is = refl

evicted-Accounted :
    (xs : List ℕ) (i : ℕ) (h : HostCache) → Accounted h (xs ++ i ∷ []) → Accounted (evicted i h) xs
unfolding remove
evicted-Accounted xs i h (l, b, f) = (
  subst (Lists (unlink i h.recency)) (append-nil xs) (unlink-Lists xs i [] h.recency l),
  omega (arith, b, weight-append h xs (i ∷ []), weight-evicted i h xs),
  subst (Filed (evicted i h)) (append-nil xs) (remove-Filed xs i [] h l.3 f),
)

-- What an eviction leaves and takes: it stops within the budget, and keeping one more node would
-- have gone beyond it.
abbrev pub Needed : HostCache → List ℕ → List ℕ → Type 0
Needed h kept gone =
    (gone ≡ [])
    ⊎ ((i : ℕ) × (rest : List ℕ) × (gone ≡ i ∷ rest) × (h.budget < weight h (kept ++ i ∷ [])))

abbrev pub Evicts : HostCache → List ℕ → HostCache → Type 0
Evicts h is r =
    (kept : List ℕ) × (gone : List ℕ) × (is ≡ kept ++ gone)
    × Accounted r kept
    × (r.bytes ≤ h.budget)
    × Needed h kept gone

tail_some :
    (h : HostCache) (xs : List ℕ) (i : ℕ) → Lists h.recency (xs ++ i ∷ []) → h.recency.tail ≡ some i
tail_some h xs i (_, _, t, _) = t ∙ last-append xs i [] none

evict-done :
    (n : ℕ) (h : HostCache) (xs : List ℕ) (i : ℕ)
    → Lists h.recency (xs ++ i ∷ [])
    → ltb h.budget h.bytes ≡ false
    → evict (suc n) h ≡ h
unfolding evict
evict-done n h xs i l e = ground (arith, e, tail_some h xs i l)

evict-more :
    (n : ℕ) (h : HostCache) (xs : List ℕ) (i : ℕ)
    → Lists h.recency (xs ++ i ∷ [])
    → ltb h.budget h.bytes ≡ true
    → evict (suc n) h ≡ evict n (evicted i h)
unfolding evict remove
evict-more n h xs i l e = ap at_tail (tail_some h xs i l) ∙ ap over e
  where
    over : Bool → HostCache
    over b = if b then evict n (evicted i h) else h

    at_tail : Option ℕ → HostCache
    at_tail o = elim o [
      | none ↦ h
      | some j ↦ if ltb h.budget h.bytes then evict n (evicted j h) else h
    ]

evict-none : (n : ℕ) (h : HostCache) → h.recency.tail ≡ none → evict n h ≡ h
unfolding evict
evict-none zero h e = refl
evict-none (suc n) h e = ground (arith, e)

Evicts-one :
    (h r : HostCache) (xs : List ℕ) (i : ℕ)
    → Accounted h (xs ++ i ∷ [])
    → h.budget < h.bytes
    → Evicts (evicted i h) xs r
    → Evicts h (xs ++ i ∷ []) r
unfolding remove
Evicts-one h r xs i (l, b, f) over (kept, gone, e, acc, le, need) = (
  kept,
  gone ++ i ∷ [],
  ap (λ z. z ++ i ∷ []) e ∙ append_assoc kept gone (i ∷ []),
  acc,
  le,
  more need,
)
  where
    more : Needed (evicted i h) kept gone → Needed h kept (gone ++ i ∷ [])
    more (inl g) = inr (
      i,
      [],
      ap (λ z. z ++ i ∷ []) g,
      subst (λ z. h.budget < weight h (z ++ i ∷ [])) (e ∙ ap (λ z. kept ++ z) g ∙ append-nil kept)
          (omega (arith, over, b)),
    )
    more (inr (j, rest, g, w)) = inr (
      j,
      rest ++ i ∷ [],
      ap (λ z. z ++ i ∷ []) g,
      omega (arith, w, weight-evicted i h (kept ++ j ∷ [])),
    )

evict-empty :
    (n : ℕ) (h : HostCache) (is : List ℕ) → is ≡ [] → Accounted h is → Evicts h is (evict n h)
evict-empty n h is e a =
    let ((l, hd, t, u), b, f) = subst (Accounted h) e a in
    subst (λ z. Evicts h z (evict n h)) (sym e)
      (subst (Evicts h []) (sym (evict-none n h t))
        ([], [], refl, ((l, hd, t, u), b, f), omega (arith, b), inl refl))

length_snoc : (xs : List ℕ) (i : ℕ) → length (xs ++ i ∷ []) ≡ length xs + 1
length_snoc [] i = refl
length_snoc (x ∷ xs) i = omega (arith, length_snoc xs i)

-- With a unit of fuel for each node, the eviction of `Put` ends within the budget; it has taken
-- nodes from the least recently used end only, and no more of them than it had to.
pub evict-Evicts :
    (n : ℕ) (h : HostCache) (is : List ℕ) → length is ≤ n → Accounted h is → Evicts h is (evict n h)
evict-Evicts zero h is f a = elim (snoc_cases is) [
  | inl e ↦ evict-empty zero h is e a
  | inr (xs, i, e) ↦ absurd (omega (arith, f, ap length e, length_snoc xs i))
]
evict-Evicts (suc n) h is f a = elim (snoc_cases is) [
  | inl e ↦ evict-empty (suc n) h is e a
  | inr (xs, i, e) ↦
      subst (λ z. Evicts h z (evict (suc n) h)) (sym e)
        (evict-snoc xs i (subst (Accounted h) e a) (λ g.
          evict-Evicts n (evicted i h) xs (omega (arith, f, ap length e, length_snoc xs i)) g))
]
  where
    evict-snoc :
        (xs : List ℕ) (i : ℕ)
        → Accounted h (xs ++ i ∷ [])
        → (Accounted (evicted i h) xs → Evicts (evicted i h) xs (evict n (evicted i h)))
        → Evicts h (xs ++ i ∷ []) (evict (suc n) h)
    evict-snoc xs i b rest = elim (Bool-cases (ltb h.budget h.bytes)) [
      | inl o ↦ subst (Evicts h (xs ++ i ∷ [])) (sym (evict-more n h xs i b.0 o)) (
          Evicts-one h (evict n (evicted i h)) xs i b (ground (arith, o))
            (rest (evicted-Accounted xs i h b)))
      | inr o ↦
          subst (Evicts h (xs ++ i ∷ [])) (sym (evict-done n h xs i b.0 o))
            (xs ++ i ∷ [], [], sym (append-nil (xs ++ i ∷ [])), b, ground (arith, o), inl refl)
    ]
