-- ===== src/Domain/Site.antt =====
-- internal/domain/host.go and location.go: `Host` with its locations, normalised and validated.
pub mod Reports
pub mod Accepted
pub mod Normal
pub mod Complete
use ponz_proxy.Prelude.{
  ℕ, suc, ◌+◌, ◌*◌, ◌^◌, Bool, true, false, not, ◌&&◌, ◌||◌, Option, none, some, List, [], ◌∷◌,
  ◌++◌, map, ltb, leb, ◌==◌, if◌then◌else◌, length,
}
use ponz_proxy.Prelude.Int.{ℤ, pos, ltb_ℤ}
use ponz_proxy.Prelude.Text.{Text, codes, text_eq}
use ponz_proxy.Prelude.Strings.{trim_space, to_lower, has_prefix}
use ponz_proxy.Prelude.Fields.{itoa}
use ponz_proxy.Prelude.Entries.{member, cleaned}
use ponz_proxy.Balancer.Backend.{Upstream, PassiveHealth}
use ponz_proxy.Balancer.Selector.{Algorithm}
use ponz_proxy.Proxy.Routing.Prefix.{Location, slash, normalize_path}
use ponz_proxy.Cache.Setting.{second, hour}
use ponz_proxy.Domain.Names.{validate_domain, normalize_domain}
use ponz_proxy.Domain.Upstreams.{UpstreamProblem, normalize_upstreams, validate_upstreams}
use ponz_proxy.Domain.Options.{Report, report_if}
use ponz_proxy.Domain.Rewriting.{Headers, normalize_headers, validate_headers}

pub record HealthCheck : Type 0 where
  pub enabled : Bool
  pub path : Text
  pub interval : ℕ
  pub timeout : ℕ
  pub healthy_threshold : ℕ
  pub unhealthy_threshold : ℕ
  pub expect_status : ℕ

-- A location with its header rules and its place in the operator's order.
pub record SiteLocation : Type 0 where
  pub route : Location
  pub headers : Headers
  pub position : ℕ

-- `Host` but for the settings of Options, Rewriting and the cache, which have their own rules. The
-- algorithm "" is `other []`.
pub record Site : Type 0 where
  pub name : Text
  pub domains : List Text
  pub algorithm : Algorithm
  pub upstreams : List Upstream
  pub certificate_id : Option ℕ
  pub force_https : Bool
  pub hsts_max_age : ℤ
  pub health_check : HealthCheck
  pub passive_health : PassiveHealth
  pub headers : Headers
  pub locations : List SiteLocation

abbrev min_of : ℕ → ℕ → ℕ
min_of a b = if leb a b then a else b

abbrev pub positive_or : ℕ → ℕ → ℕ
positive_or n d = if n == 0 then d else n

unfoldable pub normalize_probe_path : Text → Text
normalize_probe_path p =
    let q = if length p == 0 then slash else p in if has_prefix q slash then q else slash ++ q

unfoldable pub normalize_timeout : ℕ → ℕ → ℕ
normalize_timeout timeout interval =
    if (timeout == 0) || ltb interval timeout then min_of (5 * second) interval else timeout

unfoldable pub normalize_health : HealthCheck → HealthCheck
normalize_health hc =
    let interval = positive_or hc.interval (10 * second) in
    record hc {
      path = normalize_probe_path hc.path;
      interval = interval;
      timeout = normalize_timeout hc.timeout interval;
      healthy_threshold = positive_or hc.healthy_threshold 2;
      unhealthy_threshold = positive_or hc.unhealthy_threshold 3;
    }

unfoldable pub normalize_passive : PassiveHealth → PassiveHealth
normalize_passive ph = record ph {
  max_fails = positive_or ph.max_fails 3;
  eject_for = positive_or ph.eject_for (30 * second);
}

unfoldable pub normalize_algorithm : Algorithm → Algorithm
normalize_algorithm (Algorithm.other []) = Algorithm.round_robin
normalize_algorithm a = a

-- `sort.SliceStable` by the length of the path, longest first.
unfoldable pub insert_location : SiteLocation → List SiteLocation → List SiteLocation
insert_location l [] = l ∷ []
insert_location l (k ∷ ks) =
    let rest = insert_location l ks in
    if ltb (length l.route.path) (length k.route.path) then k ∷ rest else l ∷ k ∷ ks

unfoldable pub sort_locations : List SiteLocation → List SiteLocation
sort_locations [] = []
sort_locations (l ∷ ls) = insert_location l (sort_locations ls)

module _ (canonical : Text → Text) where
  unfoldable pub normalize_location : ℕ → SiteLocation → SiteLocation
  normalize_location i l = record {
    route = record l.route {
      path = normalize_path l.route.path;
      upstreams = normalize_upstreams l.route.upstreams;
    };
    headers = normalize_headers canonical l.headers;
    position = i;
  }

  unfoldable pub normalize_locations : ℕ → List SiteLocation → List SiteLocation
  normalize_locations i [] = []
  normalize_locations i (l ∷ ls) = normalize_location i l ∷ normalize_locations (suc i) ls

  unfoldable pub normalize_site : Site → Site
  normalize_site h = record h {
    name = trim_space h.name;
    algorithm = normalize_algorithm h.algorithm;
    domains = cleaned normalize_domain [] h.domains;
    upstreams = normalize_upstreams h.upstreams;
    health_check = normalize_health h.health_check;
    passive_health = normalize_passive h.passive_health;
    headers = normalize_headers canonical h.headers;
    locations = sort_locations (normalize_locations 0 h.locations);
  }
