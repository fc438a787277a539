-- ===== src/Proxy/Access/Entries.antt =====
-- internal/proxy/authcache.go: no operation but `remember` enters anything.
use ponz_proxy.Prelude.{ℕ, ◌≡◌, inl, inr, Bool, true, not, some, [], arith, ltb, Option-cases}
use ponz_proxy.Prelude.Text.{Text, text_eq}
use ponz_proxy.Prelude.Maps.{lookup, keep, Distinct, lookup-keep, keep-Distinct}
use ponz_proxy.Proxy.Access.{AuthCache, was_granted, evict_expired, with_room}

-- The entries of `c'` are entries of `c`.
abbrev pub Within : AuthCache → AuthCache → Type 0
Within c' c = (j : Text) (e : ℕ) → lookup j c' ≡ some e → lookup j c ≡ some e

pub keep-Within : (p : Text → ℕ → Bool) (c : AuthCache) → Distinct c → Within (keep p c) c
keep-Within p c d j e h = ground (arith, h, lookup-keep p j c d)

pub was_granted-Within :
    (key : Text) (now : ℕ) (c : AuthCache) → Distinct c → Within (was_granted key now c).0 c
unfolding was_granted
was_granted-Within key now c d j e h =
    ground (arith, h, keep-Within (λ j v. not (text_eq key j)) c d j e)

pub was_granted-Distinct :
    (key : Text) (now : ℕ) (c : AuthCache) → Distinct c → Distinct (was_granted key now c).0
unfolding was_granted
was_granted-Distinct key now c d = ground (arith, d, keep-Distinct (λ j v. not (text_eq key j)) c d)

pub was_granted-some :
    (key : Text) (now : ℕ) (c : AuthCache)
    → (was_granted key now c).1 ≡ true
    → (e : ℕ) × (lookup key c ≡ some e)
unfolding was_granted
was_granted-some key now c h = elim (Option-cases (lookup key c)) [
  | inl n ↦ ground (arith, n, h)
  | inr (e, n) ↦ (e, n)
]

pub with_room-Within : (now : ℕ) (c : AuthCache) → Distinct c → Within (with_room now c) c
unfolding evict_expired lookup
with_room-Within now c d j e h =
    ground (arith, h, no_entry j e, keep-Within (λ k v. not (ltb v now)) c d j e)
  where
    no_entry : (j : Text) (e : ℕ) → lookup {V = ℕ} j [] ≡ some e → ⊥
    no_entry j e h = ground (arith, h)

pub with_room-Distinct : (now : ℕ) (c : AuthCache) → Distinct c → Distinct (with_room now c)
unfolding evict_expired
with_room-Distinct now c d = ground (arith, d, keep-Distinct (λ k v. not (ltb v now)) c d)
