-- ===== src/Cache/Directives.antt =====
-- internal/cache/policy.go: what the header fields of a request or a response say about caching.
pub mod Says
use ponz_proxy.Prelude.{
  ℕ, ◌*◌, ◌^◌, Bool, true, false, not, ◌&&◌, ◌||◌, Option, none, some, List, [], ◌∷◌, leb, ◌==◌,
  if◌then◌else◌, length,
}
use ponz_proxy.Prelude.Int.{ℤ, pos, negsuc}
use ponz_proxy.Prelude.Text.{Text, codes}
use ponz_proxy.Prelude.Strings.{cut, trim_space}
use ponz_proxy.Prelude.Maps.{lookup}
use ponz_proxy.Prelude.Fields.{equal_fold, has_fold_prefix, split, trim, parse_int}
use ponz_proxy.Cache.Setting.{second}

-- `http.Header`, under canonical names.
abbrev pub Header : Type 0
Header = List (Text × List Text)

unfoldable pub values : Text → Header → List Text
values key h = elim (lookup key h) [ none ↦ [] | some vs ↦ vs ]

unfoldable pub field : Text → Header → Text
field key h = elim (values key h) [ [] ↦ [] | v ∷ _ ↦ v ]

unfoldable pub present : Text → Header → Bool
present key h = not (length (field key h) == 0)

-- A directive is set with its argument, in nanoseconds.
pub record CacheControl : Type 0 where
  pub any : Bool
  pub no_store : Bool
  pub no_cache : Bool
  pub is_private : Bool
  pub is_public : Bool
  pub max_age : Option ℕ
  pub s_maxage : Option ℕ

abbrev pub unset : CacheControl
unset = record {
  any = false;
  no_store = false;
  no_cache = false;
  is_private = false;
  is_public = false;
  max_age = none;
  s_maxage = none;
}

abbrev pub max_seconds : ℕ
max_seconds = 100 * 365 * 24 * 60 * 60

unfoldable pub parse_seconds : Text → Option ℕ
parse_seconds arg = elim (parse_int (trim 34 (trim_space arg))) [
  | none ↦ none
  | some (negsuc n) ↦ none
  | some (pos n) ↦ some ((if leb n max_seconds then n else max_seconds) * second)
]

abbrev or_else : Option ℕ → Option ℕ → Option ℕ
or_else none old = old
or_else (some n) old = some n

-- The name of a directive and its argument, which a `=` begins.
unfoldable pub name_and_argument : Text → Text × Option Text
name_and_argument part = elim (cut part 61) [
  | none ↦ (trim_space part, none)
  | some (name, arg) ↦ (trim_space name, some arg)
]

unfoldable pub set_age : Text → Text → CacheControl → CacheControl
set_age name arg cc =
    if equal_fold name (codes "max-age")
    then record cc { max_age = or_else (parse_seconds arg) cc.max_age }
    else if equal_fold name (codes "s-maxage")
    then record cc { s_maxage = or_else (parse_seconds arg) cc.s_maxage }
    else cc

-- The body of the inner loop.
unfoldable pub apply_directive : Text → CacheControl → CacheControl
apply_directive part cc =
    let (name, arg) = name_and_argument part in
    if equal_fold name (codes "no-store")
    then record cc { no_store = true }
    else if equal_fold name (codes "no-cache")
    then record cc { no_cache = true }
    else if equal_fold name (codes "private")
    then record cc { is_private = true }
    else if equal_fold name (codes "public")
    then record cc { is_public = true }
    else elim arg [ none ↦ cc | some a ↦ set_age name a cc ]

unfoldable pub apply_directives : List Text → CacheControl → CacheControl
apply_directives [] cc = cc
apply_directives (part ∷ parts) cc = apply_directives parts (apply_directive part cc)

unfoldable pub apply_values : List Text → CacheControl → CacheControl
apply_values [] cc = cc
apply_values (v ∷ vs) cc =
    let seen = record cc { any = cc.any || not (length v == 0) } in
    apply_values vs (apply_directives (split v 44) seen)

unfoldable pub parse_cache_control : List Text → CacheControl
parse_cache_control vs = apply_values vs unset

-- The loop of `hasNoCachePragma`: the text is searched from its start on.
unfoldable pub no_cache_in : Text → Bool
no_cache_in [] = false
no_cache_in (c ∷ s) = has_fold_prefix (c ∷ s) (codes "no-cache") || no_cache_in s

unfoldable pub has_no_cache_pragma : Header → Bool
has_no_cache_pragma h = no_cache_in (field (codes "Pragma") h)

unfoldable pub request_directives : Header → CacheControl
request_directives h =
    let vs = values (codes "Cache-Control") h in
    let cc = parse_cache_control vs in
    let pragma = has_no_cache_pragma h in
    if length vs == 0
    then (if pragma then record unset { no_cache = true } else unset)
    else if not cc.any && pragma
    then record cc { no_cache = true }
    else cc
