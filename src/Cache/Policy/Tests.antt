-- ===== src/Cache/Policy/Tests.antt =====
-- internal/cache/policy.go: the rules at concrete inputs.
use ponz_proxy.Prelude.{
  ℕ, ◌+◌, ◌*◌, ◌≡◌, ◌≤◌, ◌<◌, refl, true, false, Option, none, some, [], ◌∷◌, arith,
}
use ponz_proxy.Prelude.Text.{Text, codes, text_eq}
use ponz_proxy.Prelude.Strings.{trim_left, trim_right, trim_space, lower, is_space, is_digit, cut}
use ponz_proxy.Prelude.Maps.{lookup, keep}
use ponz_proxy.Prelude.Fields.{equal_fold, split, read_digits, parse_int, trim_start, trim_end}
use ponz_proxy.Prelude.Entries.{member}
use ponz_proxy.Cache.Setting.{Setting, second, hour}
use ponz_proxy.Cache.Directives.{
  Header, values, field, present, name_and_argument, set_age, apply_directive, apply_directives,
  apply_values, parse_cache_control, parse_seconds,
}
use ponz_proxy.Cache.Directives.Says.{says, parse_cache_control-says}
use ponz_proxy.Cache.Policy.{
  Request, Storability, credentialed, vary_is_cacheable, values_vary, clamped, content_length,
  requested_ttl, freshness, storable, named_by_connection, named_by_any, fold_member, skip_header,
  copy_storable_header, hop_by_hop,
}
use ponz_proxy.Cache.Policy.Terms.{storable-Terms}
use ponz_proxy.Cache.Policy.Kept.{lookup-copy_storable_header}

abbrev two_hundred : ℕ
two_hundred = 200

abbrev no_dates : Text → Option ℕ
no_dates s = none

abbrev any_path : Setting
any_path = record {
  enabled = true;
  paths = [];
  ttl = 60 * second;
  max_ttl = 24 * hour;
  max_object_bytes = 1024;
  max_bytes = 4096;
}

abbrev with_cookie : Request
with_cookie = record {
  method = codes "GET";
  host = [];
  path = codes "/";
  query = [];
  tls = false;
  header = (codes "Cookie", codes "s=1" ∷ []) ∷ [];
}

abbrev public_reply : Header
public_reply =
    (codes "Content-Length", codes "7" ∷ [])
    ∷ (codes "Cache-Control", codes "max-age=60, Public" ∷ [])
    ∷ []

abbrev public_terms : Storability
public_terms = record { expires_at = 5 + 60 * second; public = true; length = 7 }

parse_cache_control-says_example :
    let vs = codes "max-age=60, Public" ∷ codes "No-Store" ∷ [] in
    let cc = parse_cache_control vs in
    (cc.no_store ≡ says (codes "no-store") vs)
    × (cc.no_cache ≡ says (codes "no-cache") vs)
    × (cc.is_private ≡ says (codes "private") vs)
    × (cc.is_public ≡ says (codes "public") vs)
parse_cache_control-says_example =
    parse_cache_control-says (codes "max-age=60, Public" ∷ codes "No-Store" ∷ [])

both_said : parse_cache_control (codes "max-age=60, Public" ∷ codes "No-Store" ∷ []) ≡ record {
  any = true;
  no_store = true;
  no_cache = false;
  is_private = false;
  is_public = true;
  max_age = some (60 * second);
  s_maxage = none;
}
unfolding parse_cache_control apply_values apply_directives apply_directive name_and_argument
    set_age split cut trim_space trim_left trim_right is_space equal_fold lower text_eq
    parse_seconds parse_int read_digits is_digit trim_start trim_end
both_said = refl

stored_public : storable no_dates any_path with_cookie 200 public_reply 5 ≡ some public_terms
unfolding storable text_eq content_length field values lookup parse_int read_digits is_digit
    vary_is_cacheable values_vary parse_cache_control apply_values apply_directives apply_directive
    name_and_argument split cut trim_space trim_left trim_right is_space equal_fold lower
    credentialed present freshness requested_ttl clamped set_age parse_seconds trim_start trim_end
stored_public = refl

storable-Terms_example :
    let said = values (codes "Cache-Control") public_reply in
    (with_cookie.method ≡ codes "GET")
    × (two_hundred ≡ 200)
    × (values (codes "Set-Cookie") public_reply ≡ [])
    × (vary_is_cacheable public_reply ≡ true)
    × (says (codes "no-store") said ≡ false)
    × (says (codes "no-cache") said ≡ false)
    × (says (codes "private") said ≡ false)
    × (says (codes "public") said ≡ public_terms.public)
    × (credentialed with_cookie ≡ true → public_terms.public ≡ true)
    × (content_length public_reply ≡ some public_terms.length)
    × (public_terms.length ≤ any_path.max_object_bytes)
    × (5 < public_terms.expires_at)
    × (public_terms.expires_at ≤ 5 + any_path.max_ttl)
storable-Terms_example =
    storable-Terms no_dates any_path with_cookie 200 public_reply 5 public_terms (omega arith)
      stored_public

abbrev with_connection : Header
with_connection =
    (codes "X-Trace", codes "1" ∷ [])
    ∷ (codes "Connection", codes "close, x-hop" ∷ [])
    ∷ (codes "X-Hop", codes "2" ∷ [])
    ∷ []

trace_kept : lookup (codes "X-Trace") (copy_storable_header with_connection) ≡ some (codes "1" ∷ [])
unfolding copy_storable_header keep skip_header named_by_any named_by_connection fold_member lookup
    text_eq equal_fold lower values split trim_space trim_left trim_right is_space
trace_kept = refl

lookup-copy_storable_header_example :
    (lookup (codes "X-Trace") with_connection ≡ some (codes "1" ∷ []))
    × (equal_fold (codes "X-Trace") (codes "Set-Cookie") ≡ false)
    × (fold_member (codes "X-Trace") hop_by_hop ≡ false)
    × ((v name : Text)
        → member v (values (codes "Connection") with_connection) ≡ true
        → member name (split v 44) ≡ true
        → equal_fold (trim_space name) (codes "X-Trace") ≡ false)
unfolding lookup text_eq
lookup-copy_storable_header_example =
    lookup-copy_storable_header with_connection (codes "X-Trace") (codes "1" ∷ [])
      (refl, (refl, (refl, tt))) trace_kept
