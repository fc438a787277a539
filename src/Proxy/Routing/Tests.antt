-- ===== src/Proxy/Routing/Tests.antt =====
-- internal/proxy/routing.go: lookups in a small table.
use ponz_proxy.Prelude.{
  ℕ, ◌≡◌, ◌⊎◌, refl, true, false, Option, none, some, List, [], ◌∷◌, ◌++◌, map,
}
use ponz_proxy.Prelude.Text.{Text, codes, text_eq}
use ponz_proxy.Prelude.Strings.{
  cut_prefix, cut, cut_last, trim_left, trim_right, trim_space, trim_last, lower, is_space,
  is_digit, has_prefix, Lacks,
}
use ponz_proxy.Prelude.Maps.{lookup, insert}
use ponz_proxy.Balancer.Selector.{Algorithm}
use ponz_proxy.Balancer.Pool.{new_pool}
use ponz_proxy.Proxy.Routing.{
  Host, Route, star, pick, serving, place, longest_first, mount, route_of, enter, add_host,
  add_hosts, build_routing_table, lookup_name, lookup_host, normalize_host_header, unbracketed,
  without_port, all_digits, pool_for,
}
use ponz_proxy.Proxy.Routing.Prefix.{
  Location, matches, forward_path, normalize_path, drop_slashes, trim_slashes,
}
use ponz_proxy.Proxy.Routing.Locations.{Found, serving-Found}
use ponz_proxy.Proxy.Routing.Hosts.{Owns, lookup_name-Owns}

abbrev api : Location
api = record { path = codes "/api"; strip_prefix = true; upstreams = [] }

abbrev v1 : Location
v1 = record { path = codes "/api/v1"; strip_prefix = false; upstreams = [] }

abbrev site : Host
site = record {
  id = 1;
  domains = codes "a.com" ∷ codes "*.a.com" ∷ [];
  algorithm = Algorithm.round_robin;
  upstreams = [];
  locations = api ∷ v1 ∷ [];
  certificate_id = none;
  enabled = true;
}

abbrev shop : Host
shop = record site { id = 2; domains = codes "shop.a.com" ∷ []; locations = [] }

abbrev hosts : List Host
hosts = site ∷ shop ∷ []

abbrev id_of : Option Route → Option ℕ
id_of none = none
id_of (some r) = some (r.host.id)

abbrev asked : Text → Option ℕ
asked h = id_of (lookup_host h (build_routing_table hosts []))

program : Unit {0}
unfolding lookup_host lookup_name build_routing_table add_hosts add_host enter route_of
    longest_first place mount lookup insert cut_prefix cut cut_last trim_left trim_right trim_space
    trim_last lower is_space is_digit text_eq normalize_host_header unbracketed without_port
    all_digits pick serving matches has_prefix new_pool pool_for drop_slashes trim_slashes
    normalize_path forward_path
program = tt

exact_first : asked (codes "Shop.A.com:8080") ≡ some 2
unfolding program
exact_first = refl

one_label : asked (codes "x.a.com.") ≡ some 1
unfolding program
one_label = refl

not_two_labels : asked (codes "y.x.a.com") ≡ none
unfolding program
not_two_labels = refl

normal : normalize_path (codes " api// ") ≡ codes "/api"
unfolding program
normal = refl

not_a_segment : matches api (codes "/apiary") ≡ false
unfolding program
not_a_segment = refl

serving-Found_example :
    let r = serving (codes "/api/v1/x") (route_of site []) in
    Found (codes "/api/v1/x") (map (mount site []) (api ∷ v1 ∷ [])) r.1
    × (r.0 ≡ (elim r.1 [
      | none ↦ new_pool 1 Algorithm.round_robin [] (pool_for 1 [])
      | some l ↦ l.pool
    ]))
serving-Found_example = serving-Found (codes "/api/v1/x") site []

abbrev wild : Route
wild = route_of site []

found_wild : lookup_name (codes "x.a.com") (build_routing_table hosts []) ≡ some wild
unfolding program
found_wild = refl

lookup_name-Owns_example :
    Owns (codes "x.a.com") wild.host hosts
    ⊎ ((label : Text) × (parent : Text) × (codes "x.a.com" ≡ label ++ 46 ∷ parent)
        × Lacks 46 label
        × Owns (star ++ parent) wild.host hosts)
lookup_name-Owns_example = lookup_name-Owns hosts [] (codes "x.a.com") wild found_wild
