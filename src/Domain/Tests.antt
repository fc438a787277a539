-- ===== src/Domain/Tests.antt =====
-- internal/domain: what an operator might enter.
use ponz_proxy.Prelude.{
  ◌*◌, ◌≡◌, refl, inl, Bool, true, false, Option, none, some, List, [], ◌∷◌, ◌++◌,
}
use ponz_proxy.Prelude.Int.{pos}
use ponz_proxy.Prelude.Text.{Text, codes, text_eq}
use ponz_proxy.Prelude.Strings.{cut_prefix, lower, is_digit, to_lower}
use ponz_proxy.Prelude.Fields.{split, parse_int, read_digits}
use ponz_proxy.Prelude.Entries.{member}
use ponz_proxy.Prelude.Maps.{lookup}
use ponz_proxy.Balancer.Backend.{Upstream}
use ponz_proxy.Balancer.Selector.{Algorithm}
use ponz_proxy.Cache.Setting.{second}
use ponz_proxy.Cache.Directives.{Header}
use ponz_proxy.Proxy.Routing.{Host, Route, star, build_routing_table, lookup_host}
use ponz_proxy.Proxy.Routing.Hosts.{Owns}
use ponz_proxy.Domain.Names.{
  is_label_byte, all_label_bytes, validate_label, validate_labels, validate_domain,
  validate_host_port, is_port,
}
use ponz_proxy.Domain.Names.Routed.{lookup_host-validated}
use ponz_proxy.Domain.Upstreams.{
  address_problems, upstream_problems, validate_from, validate_upstreams,
}
use ponz_proxy.Domain.Redirect.{Redirect, Url, location}
use ponz_proxy.Domain.Redirect.Target.{EndsHost, location-EndsHost}
use ponz_proxy.Domain.Rewriting.{
  HeaderRule, apply_rules, protected_headers, is_token_byte, valid_header_name, valid_header_value,
  named_rule_report, rules_report, validate_rules, validate_headers,
}
use ponz_proxy.Domain.Rewriting.Applied.{ruled, apply_rules-validated}
use ponz_proxy.Domain.Site.{Site}
use ponz_proxy.Domain.Site.Reports.{
  valid_algorithm, domains_report, upstreams_report, locations_report, name_report, tls_report,
  health_report, passive_report, validate_site,
}

abbrev backend : Upstream
backend = record {
  id = 1;
  host_id = 1;
  scheme = codes "http";
  address = codes "b:80";
  weight = 5;
  max_conns = 0;
  enabled = true;
  skip_tls_verify = false;
}

abbrev shop : Host
shop = record {
  id = 1;
  domains = codes "shop.io" ∷ [];
  algorithm = Algorithm.round_robin;
  upstreams = backend ∷ [];
  locations = [];
  certificate_id = none;
  enabled = true;
}

shop_valid : validate_domain (codes "shop.io") ≡ none
unfolding validate_domain split validate_labels validate_label text_eq all_label_bytes is_label_byte
    is_digit
shop_valid = refl

not_wildcard : cut_prefix (codes "shop.io") star ≡ none
unfolding cut_prefix
not_wildcard = refl

lookup_host-validated_example :
    (r : Route) × (lookup_host (codes "shop.io") (build_routing_table (shop ∷ []) []) ≡ some r)
    × Owns (codes "shop.io") r.host (shop ∷ [])
lookup_host-validated_example =
    lookup_host-validated (shop ∷ []) [] (codes "shop.io") shop shop_valid not_wildcard
      (inl (refl, refl, inl refl))

abbrev new_site : Url
new_site = record {
  scheme = codes "https";
  host = codes "new.io";
  hostname = codes "new.io";
  escaped_path = codes "/app";
  raw_query = [];
  fragment = [];
}

abbrev always_new : Text → Option Url
always_new s = some new_site

abbrev to_new : Redirect
to_new = record {
  id = 1;
  name = codes "moved";
  enabled = true;
  domains = codes "old.io" ∷ [];
  target = codes "https://new.io/app";
  status_code = 308;
  preserve_path = true;
  certificate_id = none;
}

-- A request for `//evil.io`.
location-EndsHost_example :
    (rest : Text) × (location always_new to_new (codes "//evil.io") []
      ≡ codes "https" ++ codes "://" ++ codes "new.io" ++ rest)
    × EndsHost rest
location-EndsHost_example =
    location-EndsHost always_new to_new new_site (codes "//evil.io") [] refl refl refl

abbrev two_rules : List HeaderRule
two_rules =
    record { name = codes "X-A"; value = codes "1"; remove = false }
    ∷ record { name = codes "Server"; value = []; remove = true }
    ∷ []

abbrev from_backend : Header
from_backend = (codes "Server", codes "x" ∷ []) ∷ (codes "Te", codes "y" ∷ []) ∷ []

abbrev as_written : Text → Text
as_written s = s

two_rules_valid : validate_rules (codes "h") two_rules ≡ []
unfolding validate_rules rules_report named_rule_report valid_header_name valid_header_value
    is_token_byte is_digit member text_eq lower
two_rules_valid = refl

apply_rules-validated_example :
    (lookup (codes "Te") (apply_rules as_written two_rules from_backend)
      ≡ ruled (codes "Te") two_rules from_backend)
    × (member (to_lower (codes "Te")) protected_headers ≡ true
        → lookup (codes "Te") (apply_rules as_written two_rules from_backend)
          ≡ lookup (codes "Te") from_backend)
unfolding lookup text_eq
apply_rules-validated_example =
    apply_rules-validated as_written (codes "h") two_rules from_backend two_rules_valid
      (refl, (refl, tt)) (refl, (refl, tt)) (codes "Te")

abbrev site : Site
site = record {
  name = codes "shop";
  domains = codes "shop.io" ∷ [];
  algorithm = Algorithm.round_robin;
  upstreams = backend ∷ [];
  certificate_id = none;
  force_https = false;
  hsts_max_age = pos 0;
  health_check = record {
    enabled = true;
    path = codes "/";
    interval = 0;
    timeout = 0;
    healthy_threshold = 0;
    unhealthy_threshold = 0;
    expect_status = 0;
  };
  passive_health = record { enabled = true; max_fails = 3; eject_for = 30 * second };
  headers = record { request = []; response = [] };
  locations = [];
}

abbrev any_split : Text → Option (Text × Text)
any_split s = some (codes "b", codes "80")

abbrev any_ip : Text → Bool
any_ip s = true

site_valid : validate_site any_split any_ip [] [] site ≡ []
unfolding validate_site name_report domains_report validate_domain split validate_labels
    validate_label text_eq all_label_bytes is_label_byte is_digit valid_algorithm upstreams_report
    validate_upstreams validate_from upstream_problems address_problems validate_host_port is_port
    parse_int read_digits member tls_report health_report validate_headers validate_rules
    rules_report locations_report passive_report
site_valid = refl
