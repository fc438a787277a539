-- ===== src/Domain/Upstreams/Valid.antt =====
-- internal/domain/host.go, `ValidateUpstreams`: what the balancer can count on.
use ponz_proxy.Prelude.{
  append-empty, ℕ, suc, ◌≤◌, ◌≡◌, ◌⊎◌, inl, inr, Bool, false, not, ◌||◌, Option, none, List, [],
  ◌∷◌, ◌++◌, arith, ltb, Option-cases,
}
use ponz_proxy.Prelude.Text.{Text, codes, text_eq, text_eq_iff}
use ponz_proxy.Prelude.Entries.{member}
use ponz_proxy.Balancer.Backend.{Upstream}
use ponz_proxy.Domain.Names.{validate_host_port}
use ponz_proxy.Domain.Upstreams.{
  upstream_key, reported, bad_scheme, bad_weight, duplicate, address_problems, upstream_problems,
  validate_from, validate_upstreams,
}

module _ (split_host_port : Text → Option (Text × Text)) (is_ip : Text → Bool) where
  -- An upstream that the proxy can dial: a scheme of its own, an address with a port, and a weight
  -- that the weighted algorithms can use.
  abbrev pub Usable : Upstream → Type 0
  Usable u =
      ((u.scheme ≡ codes "http") ⊎ (u.scheme ≡ codes "https"))
      × (validate_host_port split_host_port is_ip u.address ≡ none)
      × (1 ≤ u.weight)
      × (u.weight ≤ 1000)

  -- Each is usable, and none has the key of one before it, nor one of `seen`.
  abbrev pub AllUsable : List Text → List Upstream → Type 0
  AllUsable seen [] = Unit {0}
  AllUsable seen (u ∷ us) =
      Usable u × (member (upstream_key u) seen ≡ false) × AllUsable (upstream_key u ∷ seen) us

  address-none :
      (i : ℕ) (a : Text)
      → address_problems split_host_port is_ip i a ≡ []
      → validate_host_port split_host_port is_ip a ≡ none
  unfolding address_problems
  address-none i a e = elim (Option-cases (validate_host_port split_host_port is_ip a)) [
    | inl f ↦ f
    | inr (bad, f) ↦ ground (arith, e, f)
  ]

  upstream-Usable :
      (seen : List Text) (i : ℕ) (u : Upstream)
      → upstream_problems split_host_port is_ip seen i u ≡ []
      → Usable u × (member (upstream_key u) seen ≡ false)
  unfolding upstream_problems
  upstream-Usable seen i u e =
      let known = text_eq u.scheme (codes "http") || text_eq u.scheme (codes "https") in
      let weight = reported (ltb u.weight 1 || ltb 1000 u.weight) (bad_weight i) in
      let twice = reported (member (upstream_key u) seen) (duplicate i) in
      let addresses = address_problems split_host_port is_ip i u.address in
      let (a, r1) =
        append-empty (reported (not known) (bad_scheme i)) (addresses ++ (weight ++ twice)) e in
      let (b, r2) = append-empty addresses (weight ++ twice) r1 in
      let (c, d) = append-empty weight twice r2 in
      (
        (
          ground
              (arith, a, text_eq_iff u.scheme (codes "http"), text_eq_iff u.scheme (codes "https")),
          address-none i u.address b,
          ground (arith, c),
          ground (arith, c),
        ),
        ground (arith, d),
      )

  from-AllUsable :
      (seen : List Text) (i : ℕ) (us : List Upstream)
      → validate_from split_host_port is_ip seen i us ≡ []
      → AllUsable seen us
  unfolding validate_from
  from-AllUsable seen i [] e = tt
  from-AllUsable seen i (u ∷ us) e =
      let (a, b) =
        append-empty (upstream_problems split_host_port is_ip seen i u)
          (validate_from split_host_port is_ip (upstream_key u ∷ seen) (suc i) us) e in
      let (usable, unseen) = upstream-Usable seen i u a in
      (usable, unseen, from-AllUsable (upstream_key u ∷ seen) (suc i) us b)

  -- Upstreams that validation has nothing to say of are all usable, with weights from 1 to 1000, and
  -- no two of them address the same backend.
  pub validate_upstreams-AllUsable :
      (us : List Upstream) → validate_upstreams split_host_port is_ip us ≡ [] → AllUsable [] us
  unfolding validate_upstreams
  validate_upstreams-AllUsable us e = from-AllUsable [] 0 us e
