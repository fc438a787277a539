-- ===== src/Proxy/Routing.antt =====
-- internal/proxy/routing.go and internal/domain/location.go: which host, which location and which
-- pool a request belongs to.
pub mod Prefix
pub mod Locations
pub mod Hosts
pub mod Exact
pub mod Headers
mod Tests
use ponz_proxy.Prelude.{
  ℕ, suc, ◌+◌, Bool, true, false, not, ◌&&◌, ◌||◌, Option, none, some, List, [], ◌∷◌, ◌++◌, map,
  ltb, leb, ◌==◌, if◌then◌else◌, length,
}
use ponz_proxy.Prelude.Text.{Text, codes, text_eq}
use ponz_proxy.Prelude.Strings.{
  cut_prefix, cut, cut_last, trim_last, trim_space, to_lower, is_digit, has_prefix,
}
use ponz_proxy.Prelude.Maps.{lookup, insert}
use ponz_proxy.Balancer.Backend.{Upstream}
use ponz_proxy.Balancer.Selector.{Algorithm}
use ponz_proxy.Balancer.Pool.{Pool, new_pool}
use ponz_proxy.Proxy.Routing.Prefix.{Location, matches}

-- What routing reads of `domain.Host`.
pub record Host : Type 0 where
  pub id : ℕ
  pub domains : List Text
  pub algorithm : Algorithm
  pub upstreams : List Upstream
  pub locations : List Location
  pub certificate_id : Option ℕ
  pub enabled : Bool

-- `location` of the source: a path prefix with the pool that serves it.
pub record Mounted : Type 0 where
  pub config : Location
  pub pool : Pool

pub record Route : Type 0 where
  pub host : Host
  pub pool : Pool
  pub locations : List Mounted

pub record Table : Type 0 where
  pub exact : List (Text × Route)
  pub wildcard : List (Text × Route)
  pub routes : List Route

unfoldable pub pick : Text → List Mounted → Option Mounted
pick path [] = none
pick path (l ∷ ls) = let rest = pick path ls in if matches l.config path then some l else rest

unfoldable pub serving : Text → Route → Pool × Option Mounted
serving path r = elim (pick path r.locations) [ some l ↦ (l.pool, some l) | none ↦ (r.pool, none) ]

-- `sort.SliceStable`: the longest path first, equally long ones as they were.
unfoldable pub place : Mounted → List Mounted → List Mounted
place l [] = l ∷ []
place l (k ∷ ks) =
    let rest = place l ks in
    if ltb (length l.config.path) (length k.config.path) then k ∷ rest else l ∷ k ∷ ks

unfoldable pub longest_first : List Mounted → List Mounted
longest_first [] = []
longest_first (l ∷ ls) = place l (longest_first ls)

-- The previous pool of a host: `poolFor`.
unfoldable pub pool_for : ℕ → List Route → Option Pool
pool_for host_id [] = none
pool_for host_id (r ∷ rs) =
    let rest = pool_for host_id rs in if r.host.id == host_id then some r.pool else rest

unfoldable pub mounted_at : Text → List Mounted → Option Pool
mounted_at path [] = none
mounted_at path (l ∷ ls) =
    let rest = mounted_at path ls in if text_eq l.config.path path then some l.pool else rest

-- The previous pool of a location: `locationPool`.
unfoldable pub location_pool : ℕ → Text → List Route → Option Pool
location_pool host_id path [] = none
location_pool host_id path (r ∷ rs) =
    let rest = location_pool host_id path rs in
    if r.host.id == host_id
    then elim (mounted_at path r.locations) [ some p ↦ some p | none ↦ rest ]
    else rest

unfoldable pub mount : Host → List Route → Location → Mounted
mount h prev l = record {
  config = l;
  pool = new_pool h.id h.algorithm l.upstreams (location_pool h.id l.path prev);
}

unfoldable pub route_of : Host → List Route → Route
route_of h prev = record {
  host = h;
  pool = new_pool h.id h.algorithm h.upstreams (pool_for h.id prev);
  locations = longest_first (map (mount h prev) h.locations);
}

abbrev pub star : Text
star = codes "*."

-- A domain of the configuration is entered under its name, or under the parent of `*.parent`.
unfoldable pub enter : Route → List Text → Table → Table
enter r [] t = t
enter r (d ∷ ds) t = elim (cut_prefix d star) [
  | some parent ↦ enter r ds (record t { wildcard = insert parent r t.wildcard })
  | none ↦ enter r ds (record t { exact = insert d r t.exact })
]

unfoldable pub add_host : List Route → Host → Table → Table
add_host prev h t =
    let r = route_of h prev in
    let t' = record t { routes = t.routes ++ (r ∷ []) } in
    if h.enabled then enter r h.domains t' else t'

unfoldable pub add_hosts : List Route → List Host → Table → Table
add_hosts prev [] t = t
add_hosts prev (h ∷ hs) t = add_hosts prev hs (add_host prev h t)

abbrev pub empty_table : Table
empty_table = record { exact = []; wildcard = []; routes = [] }

-- `prev` is the list of routes of the previous table, empty at first.
unfoldable pub build_routing_table : List Host → List Route → Table
build_routing_table hosts prev = add_hosts prev hosts empty_table

unfoldable pub all_digits : Text → Bool
all_digits [] = true
all_digits (c ∷ s) = is_digit c && all_digits s

-- The port goes: what follows the last colon, if it is a number.
unfoldable pub without_port : Text → Text
without_port h = elim (cut_last h 58) [
  | some (name, port) ↦ if not (length port == 0) && all_digits port then name else h
  | none ↦ h
]

-- `[` begins an IPv6 literal, which `]` ends.
unfoldable pub unbracketed : Text → Text
unbracketed h = elim (cut_prefix h (codes "[")) [
  | some rest ↦ elim (cut rest 93) [ some (name, _) ↦ name | none ↦ h ]
  | none ↦ without_port h
]

unfoldable pub normalize_host_header : Text → Text
normalize_host_header h = to_lower (trim_last (unbracketed (trim_space h)) 46)

-- Exact names before wildcards, and a wildcard for one label.
unfoldable pub lookup_name : Text → Table → Option Route
lookup_name name t = if length name == 0 then none else elim (lookup name t.exact) [
  | some r ↦ some r
  | none ↦ elim (cut name 46) [ some (_, parent) ↦ lookup parent t.wildcard | none ↦ none ]
]

unfoldable pub lookup_host : Text → Table → Option Route
lookup_host host_header t = lookup_name (normalize_host_header host_header) t

unfoldable pub certificate_for : Text → Table → Option Route
certificate_for server_name t = elim (lookup_host server_name t) [
  | none ↦ none
  | some r ↦ elim r.host.certificate_id [ none ↦ none | some _ ↦ some r ]
]
