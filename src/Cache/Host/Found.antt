-- ===== src/Cache/Host/Found.antt =====
-- internal/cache/cache.go, `Lookup` after `Put`.
use ponz_proxy.Prelude.{
  ℕ, ◌≤◌, ◌<◌, ◌≡◌, ◌≢◌, sym, ap, ◌∙◌, inl, inr, true, some, arith, Bool-cases, Option-cases,
}
use ponz_proxy.Cache.Key.{Key, find}
use ponz_proxy.Cache.Entry.{Entry, fresh}
use ponz_proxy.Cache.Host.{HostCache, look_up, put}
use ponz_proxy.Cache.Host.Sound.{Sound, look_up-missing, look_up-stale, look_up-fresh}
use ponz_proxy.Cache.Host.Stored.{held}
use ponz_proxy.Cache.Host.Puts.{put-Stores, held-some, held-none}

pub held-look_up :
    (k : Key) (d : Entry) (h : HostCache) (now : ℕ)
    → (look_up k now h).1 ≡ some d
    → (held k h ≡ some d) × (fresh now d ≡ true)
held-look_up k d h now found = elim (Option-cases (find k h.items)) [
  | inl e ↦ ground (arith, found, ap (λ z. z.1) (look_up-missing k now h e))
  | inr (i, e) ↦ elim (Bool-cases (fresh now (h.payload i).1)) [
    | inl f ↦
        let same : some (h.payload i).1 ≡ some d =
          sym (ap (λ z. z.1) (look_up-fresh k now i h e f)) ∙ found in
        (held-some k i h e ∙ same, ground (arith, same, f))
    | inr f ↦ ground (arith, found, ap (λ z. z.1) (look_up-stale k now i h e f))
  ]
]

pub look_up-held :
    (k : Key) (d : Entry) (h : HostCache) (now : ℕ)
    → held k h ≡ some d
    → fresh now d ≡ true
    → (look_up k now h).1 ≡ some d
look_up-held k d h now there f = elim (Option-cases (find k h.items)) [
  | inl e ↦ ground (arith, there, held-none k h e)
  | inr (i, e) ↦
      let same : some (h.payload i).1 ≡ some d = sym (held-some k i h e) ∙ there in
      let f' : fresh now (h.payload i).1 ≡ true = ground (arith, same, f) in
      ap (λ z. z.1) (look_up-fresh k now i h e f') ∙ same
]

-- What `Put` stored within the budget is what `Lookup` of its key finds while it is fresh. Under any
-- other key it finds, if anything, what was there before.
pub look_up-put :
    (k : Key) (e : Entry) (h : HostCache) (now : ℕ)
    → Sound h
    → e.size ≤ h.budget
    → now < e.expires_at
    → ((look_up k now (put k e h)).1 ≡ some e)
      × ((j : Key) (d : Entry) → j ≢ k → (look_up j now (put k e h)).1 ≡ some d → held j h ≡ some d)
unfolding fresh
look_up-put k e h now s fits f =
    let (_, _, _, there, others) = put-Stores k e h fits s in
    (
      look_up-held k e (put k e h) now there (ground (arith, f)),
      (λ j d ne found. others j d ne (held-look_up j d (put k e h) now found).0),
    )
