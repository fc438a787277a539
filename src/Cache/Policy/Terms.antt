-- ===== src/Cache/Policy/Terms.antt =====
-- internal/cache/policy.go, `Storable`: what a response that is stored has said.
use ponz_proxy.Prelude.{
  ℕ, ◌+◌, ◌≤◌, ◌<◌, ◌≡◌, inl, inr, true, false, Option, some, [], arith, Option-cases,
}
use ponz_proxy.Prelude.Text.{Text, codes, text_eq_iff}
use ponz_proxy.Cache.Setting.{Setting}
use ponz_proxy.Cache.Directives.{Header, values, CacheControl, parse_cache_control}
use ponz_proxy.Cache.Directives.Says.{says, parse_cache_control-says}
use ponz_proxy.Cache.Policy.{
  Request, credentialed, vary_is_cacheable, Storability, clamped, content_length, freshness,
  storable,
}

module _ (parse_time : Text → Option ℕ) where
  freshness_range :
      (cc : CacheControl) (h : Header) (cfg : Setting) (now ttl : ℕ)
      → freshness parse_time cc h cfg now ≡ some ttl
      → (0 < cfg.max_ttl → 0 < ttl) × (ttl ≤ cfg.max_ttl)
  unfolding freshness clamped
  freshness_range cc h cfg now ttl e = ground (arith, e)

  -- A response is stored only if it is a complete answer 200 to a GET that sets no cookie, varies on
  -- nothing but the coding and does not say no-store, no-cache or private; one to a request with
  -- credentials only if it says public. It is kept past now, and for `MaxTTL` at most.
  pub storable-Terms :
      (cfg : Setting) (r : Request) (status : ℕ) (h : Header) (now : ℕ) (terms : Storability)
      → 0 < cfg.max_ttl
      → storable parse_time cfg r status h now ≡ some terms
      → let said = values (codes "Cache-Control") h in
        (r.method ≡ codes "GET")
        × (status ≡ 200)
        × (values (codes "Set-Cookie") h ≡ [])
        × (vary_is_cacheable h ≡ true)
        × (says (codes "no-store") said ≡ false)
        × (says (codes "no-cache") said ≡ false)
        × (says (codes "private") said ≡ false)
        × (says (codes "public") said ≡ terms.public)
        × (credentialed r ≡ true → terms.public ≡ true)
        × (content_length h ≡ some terms.length)
        × (terms.length ≤ cfg.max_object_bytes)
        × (now < terms.expires_at)
        × (terms.expires_at ≤ now + cfg.max_ttl)
  unfolding storable
  storable-Terms cfg r status h now terms positive e =
      let cc = parse_cache_control (values (codes "Cache-Control") h) in
      let facts = parse_cache_control-says (values (codes "Cache-Control") h) in
      let range = freshness_range cc h cfg now in
      elim (Option-cases (freshness parse_time cc h cfg now)) [
        | inl none_left ↦ ground (arith, e, none_left)
        | inr (ttl, kept) ↦
            ground (arith, e, kept, text_eq_iff r.method (codes "GET"), facts, range ttl kept)
      ]

  pub storable-public :
      (cfg : Setting) (r : Request) (status : ℕ) (h : Header) (now : ℕ) (terms : Storability)
      → storable parse_time cfg r status h now ≡ some terms
      → says (codes "public") (values (codes "Cache-Control") h) ≡ terms.public
  unfolding storable
  storable-public cfg r status h now terms e =
      let cc = parse_cache_control (values (codes "Cache-Control") h) in
      let facts = parse_cache_control-says (values (codes "Cache-Control") h) in
      elim (Option-cases (freshness parse_time cc h cfg now)) [
        | inl none_left ↦ ground (arith, e, none_left)
        | inr (ttl, kept) ↦ ground (arith, e, kept, facts)
      ]
