-- ===== src/Cache/Host/Stored.antt =====
-- internal/cache/cache.go, `Put`: what a cache holds after it.
use ponz_proxy.Prelude.{
  ℕ, ◌<◌, ◌≡◌, refl, sym, subst, inl, inr, true, Option, none, some, List, [], ◌∷◌, arith,
  if◌then◌else◌, Option-cases,
}
use ponz_proxy.Cache.Key.{
  Key, key_eq, key_eq_iff, find, delete, find-delete, find-insert, insert-Distinct,
}
use ponz_proxy.Cache.Entry.{Entry}
use ponz_proxy.Cache.Recency.Moves.{push_front-Lists}
use ponz_proxy.Cache.Host.{HostCache, remove, drop_old, add}
use ponz_proxy.Cache.Host.Filed.{elem, Absent-elem}
use ponz_proxy.Cache.Host.Eviction.{weight, Accounted}
use ponz_proxy.Cache.Host.Sound.{Sound, remove-Sound}

-- The entry under a key, whether fresh or not.
unfoldable pub held : Key → HostCache → Option Entry
held k h = elim (find k h.items) [ none ↦ none | some i ↦ some (h.payload i).1 ]

drop_old-none : (k : Key) (h : HostCache) → find k h.items ≡ none → drop_old k h ≡ h
drop_old-none k h e = rw (drop_old, e) refl

drop_old-some :
    (k : Key) (i : ℕ) (h : HostCache) → find k h.items ≡ some i → drop_old k h ≡ remove i h
drop_old-some k i h e = rw (drop_old, e) refl

-- What `Put` adds to: the same cache without the key.
abbrev pub Without : Key → HostCache → HostCache → Type 0
Without k h g =
    Sound g
    × ((j : Key) → find j g.items ≡ (if key_eq j k then none else find j h.items))
    × (g.payload ≡ h.payload)
    × (g.budget ≡ h.budget)

remove-Without :
    (k : Key) (i : ℕ) (h : HostCache) → find k h.items ≡ some i → Sound h → Without k h (remove i h)
unfolding remove
remove-Without k i h e (is, a, n) = (
  remove-Sound k i h e (is, a, n),
  (λ j.
      subst (λ z. find j (delete z h.items) ≡ (if key_eq j k then none else find j h.items))
        (sym (a.2.0 k i e).0) (find-delete j k h.items)),
  refl,
  refl,
)

none-Without : (k : Key) (h : HostCache) → find k h.items ≡ none → Sound h → Without k h h
none-Without k h e s = (s, (λ j. grind (arith, key_eq_iff j k, e)), refl, refl)

pub drop_old-Without : (k : Key) (h : HostCache) → Sound h → Without k h (drop_old k h)
drop_old-Without k h s = elim (Option-cases (find k h.items)) [
  | inl e ↦ subst (Without k h) (sym (drop_old-none k h e)) (none-Without k h e s)
  | inr (i, e) ↦ subst (Without k h) (sym (drop_old-some k i h e)) (remove-Without k i h e s)
]

weight-add :
    (k : Key) (e : Entry) (h : HostCache) (is : List ℕ)
    → ((i : ℕ) → elem i is ≡ true → i < h.allocated)
    → weight (add k e h) is ≡ weight h is
unfolding add
weight-add k e h [] below = refl
weight-add k e h (i ∷ is) below =
    let rest = weight-add k e h is (λ j f. below j (ground (arith, f))) in
    ground (arith, rest, below i (ground arith))

pub add-Accounted :
    (k : Key) (e : Entry) (h : HostCache) (is : List ℕ)
    → find k h.items ≡ none
    → Accounted h is
    → Accounted (add k e h) (h.allocated ∷ is)
unfolding add
add-Accounted k e h is absent (l, b, (by_key, by_node, d)) = (
  push_front-Lists h.allocated is h.recency
      (ground (arith, Absent-elem h.allocated is, by_node h.allocated)) l,
  ground (arith, b, weight-add k e h is (λ i f. (by_node i f).1)),
  (
    (λ j i f.
        grind
          (arith, find-insert j k h.allocated h.items, key_eq_iff j k, by_key j i, by_node i, f)),
    (λ i f. grind (
      arith,
      find-insert k k h.allocated h.items,
      key_eq_iff k k,
      find-insert (h.payload i).0 k h.allocated h.items,
      key_eq_iff (h.payload i).0 k,
      by_node i,
      absent,
      f,
    )),
    insert-Distinct k h.allocated h.items d,
  ),
)
