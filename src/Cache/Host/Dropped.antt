-- ===== src/Cache/Host/Dropped.antt =====
-- internal/cache/cache.go, `Invalidate`: every variant of one path goes, and nothing else.
use ponz_proxy.Prelude.{
  ℕ, ◌≡◌, refl, sym, ap, subst, ◌∙◌, inl, inr, Bool, true, false, ◌&&◌, Option, none, some, List,
  [], ◌∷◌, arith, if◌then◌else◌, Bool-cases, Option-cases,
}
use ponz_proxy.Prelude.Text.{Text, text_eq}
use ponz_proxy.Cache.Key.{Key, key_eq, key_eq_iff, find, find-delete, Distinct}
use ponz_proxy.Cache.Host.{HostCache, remove, invalidate_each, invalidate}
use ponz_proxy.Cache.Host.Sound.{Sound, remove-Sound}
use ponz_proxy.Cache.Host.Stored.{held}
use ponz_proxy.Cache.Host.Puts.{held-some, held-none}

abbrev is_some : Option ℕ → Bool
is_some none = false
is_some (some i) = true

module _ (host path : Text) where
  abbrev aimed : Key → Bool
  aimed k = text_eq k.host host && text_eq k.path path

  -- After the items `items` were visited.
  abbrev Visited : List (Key × ℕ) → HostCache → HostCache → Type 0
  Visited items h r =
      Sound r
      × ((k : Key)
          → find k r.items ≡ (if aimed k && is_some (find k items) then none else find k h.items))
      × (r.payload ≡ h.payload)
      × (r.budget ≡ h.budget)

  remove_items :
      (k j : Key) (i : ℕ) (h : HostCache)
      → find j h.items ≡ some i
      → Sound h
      → find k (remove i h).items ≡ (if key_eq k j then none else find k h.items)
  unfolding remove
  remove_items k j i h e (is, a, n) =
      grind (arith, find-delete k (h.payload i).0 h.items, a.2.0 j i e)

  remove_rest :
      (i : ℕ) (h : HostCache)
      → ((remove i h).payload ≡ h.payload) × ((remove i h).budget ≡ h.budget)
  unfolding remove
  remove_rest i h = (refl, refl)

  invalidate_each-Visited :
      (items : List (Key × ℕ)) (h : HostCache)
      → Sound h
      → Distinct items
      → ((k : Key) (i : ℕ) → find k items ≡ some i → find k h.items ≡ some i)
      → Visited items h (invalidate_each host path items h)
  unfolding invalidate_each find
  invalidate_each-Visited [] h s d there = (s, (λ k. ground arith), refl, refl)
  invalidate_each-Visited ((j, i) ∷ items) h s (n, d) there = elim (Bool-cases (aimed j)) [
    | inl gone ↦
        let here : find j h.items ≡ some i = grind (arith, there j i, key_eq_iff j j) in
        let (s', left, p, b) =
          invalidate_each-Visited items (remove i h) (remove-Sound j i h here s) d (λ k m e. grind (
            arith,
            remove_items k j i h here s,
            key_eq_iff k j,
            key_eq_iff j k,
            there k m,
            n,
            e,
          )) in
        subst
          (λ z.
            Visited ((j, i) ∷ items) h
              (invalidate_each host path items (if z then remove i h else h)))
          (sym gone)
          (
            s',
            (λ k.
                grind (
                  arith,
                  left k,
                  remove_items k j i h here s,
                  key_eq_iff k j,
                  key_eq_iff j k,
                  gone,
                )),
            p ∙ (remove_rest i h).0,
            b ∙ (remove_rest i h).1,
          )
    | inr stays ↦
        let (s', left, p, b) =
          invalidate_each-Visited items h s d
            (λ k m e. grind (arith, key_eq_iff j k, there k m, n, e)) in
        subst
          (λ z.
            Visited ((j, i) ∷ items) h
              (invalidate_each host path items (if z then remove i h else h)))
          (sym stays) (s', (λ k. grind (arith, left k, key_eq_iff j k, stays)), p, b)
  ]

  -- `Invalidate` drops whatever is held for the path on the host, in every variant, and nothing else.
  pub invalidate-held :
      (h : HostCache)
      → Sound h
      → Sound (invalidate host path h)
        × ((k : Key) → held k (invalidate host path h) ≡ (if aimed k then none else held k h))
        × ((invalidate host path h).budget ≡ h.budget)
  unfolding invalidate
  invalidate-held h (is, a, n) =
      let (s, left, p, b) = invalidate_each-Visited h.items h (is, a, n) a.2.2 (λ k i e. e) in
      (
        s,
        (λ k. elim (Option-cases (find k h.items)) [
          | inl e ↦
              grind (
                arith,
                left k,
                held-none k h e,
                held-none k (invalidate_each host path h.items h),
                e,
              )
          | inr (i, e) ↦ elim (Bool-cases (aimed k)) [
            | inl gone ↦
                grind (arith, left k, held-none k (invalidate_each host path h.items h), e, gone)
            | inr stays ↦
                held-some k i (invalidate_each host path h.items h)
                  (grind (arith, left k, e, stays))
                ∙ ap (λ z. some (z i).1) p
                ∙ sym (held-some k i h e)
                ∙ ap (λ z. if z then none else held k h) (sym stays)
          ]
        ]),
        b,
      )
