-- ===== src/Domain/Upstreams.antt =====
-- internal/domain/host.go: the backends of a host or of a location, normalised and validated.
pub mod Valid
use ponz_proxy.Prelude.{
  ℕ, suc, ◌+◌, Bool, true, false, not, ◌&&◌, ◌||◌, Option, none, some, List, [], ◌∷◌, ◌++◌, map,
  ltb, leb, ◌==◌, if◌then◌else◌, length,
}
use ponz_proxy.Prelude.Text.{Text, codes, text_eq}
use ponz_proxy.Prelude.Strings.{trim_space, to_lower}
use ponz_proxy.Prelude.Entries.{member}
use ponz_proxy.Balancer.Backend.{Upstream}
use ponz_proxy.Domain.Names.{AddressError, validate_host_port}

unfoldable pub normalize_scheme : Text → Text
normalize_scheme s = let t = to_lower (trim_space s) in if length t == 0 then codes "http" else t

-- A weight of 0 stands for one that is not positive, and `max_conns` is never negative here.
unfoldable pub normalize_upstream : Upstream → Upstream
normalize_upstream u = record u {
  scheme = normalize_scheme u.scheme;
  address = trim_space u.address;
  weight = if u.weight == 0 then 1 else u.weight;
}

abbrev pub normalize_upstreams : List Upstream → List Upstream
normalize_upstreams us = map normalize_upstream us

-- The field of the upstream at a position, and what is wrong with it.
pub data UpstreamProblem : Type 0 where
  bad_scheme : ℕ → UpstreamProblem
  bad_address : ℕ → AddressError → UpstreamProblem
  bad_weight : ℕ → UpstreamProblem
  duplicate : ℕ → UpstreamProblem

abbrev pub upstream_key : Upstream → Text
upstream_key u = u.scheme ++ codes "://" ++ u.address

abbrev pub reported : Bool → UpstreamProblem → List UpstreamProblem
reported b p = if b then p ∷ [] else []

module _ (split_host_port : Text → Option (Text × Text)) (is_ip : Text → Bool) where
  unfoldable pub address_problems : ℕ → Text → List UpstreamProblem
  address_problems i addr = elim (validate_host_port split_host_port is_ip addr) [
    | none ↦ []
    | some e ↦ bad_address i e ∷ []
  ]

  unfoldable pub upstream_problems : List Text → ℕ → Upstream → List UpstreamProblem
  upstream_problems seen i u =
      reported (not (text_eq u.scheme (codes "http") || text_eq u.scheme (codes "https")))
        (bad_scheme i)
      ++ (address_problems i u.address
          ++ (reported (ltb u.weight 1 || ltb 1000 u.weight) (bad_weight i)
              ++ reported (member (upstream_key u) seen) (duplicate i)))

  -- From the position `i` on, with the keys seen before it.
  unfoldable pub validate_from : List Text → ℕ → List Upstream → List UpstreamProblem
  validate_from seen i [] = []
  validate_from seen i (u ∷ us) =
      upstream_problems seen i u ++ validate_from (upstream_key u ∷ seen) (suc i) us

  unfoldable pub validate_upstreams : List Upstream → List UpstreamProblem
  validate_upstreams us = validate_from [] 0 us

unfoldable pub enabled_upstreams : List Upstream → List Upstream
enabled_upstreams [] = []
enabled_upstreams (u ∷ us) = let rest = enabled_upstreams us in if u.enabled then u ∷ rest else rest
