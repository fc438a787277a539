-- ===== src/Cache/Policy.antt =====
-- internal/cache/policy.go: which requests take part in caching, which responses are stored and on
-- what terms, and whom a stored response may be shown to.
pub mod Terms
pub mod Kept
mod Tests
use ponz_proxy.Prelude.{
  ℕ, ◌+◌, ◌-◌, Bool, true, false, not, ◌&&◌, ◌||◌, Option, none, some, List, [], ◌∷◌, leb, ltb,
  ◌==◌, if◌then◌else◌, length,
}
use ponz_proxy.Prelude.Int.{ℤ, pos, negsuc}
use ponz_proxy.Prelude.Text.{Text, codes, text_eq}
use ponz_proxy.Prelude.Strings.{cut, trim_space, trim_prefix}
use ponz_proxy.Prelude.Maps.{keep}
use ponz_proxy.Prelude.Fields.{equal_fold, split, parse_int}
use ponz_proxy.Cache.Setting.{Setting, active, matches}
use ponz_proxy.Cache.Directives.{
  Header, values, field, present, CacheControl, parse_cache_control, has_no_cache_pragma,
  request_directives,
}

-- What the cache reads of an `http.Request`.
pub record Request : Type 0 where
  pub method : Text
  pub host : Text
  pub path : Text
  pub query : Text
  pub tls : Bool
  pub header : Header

unfoldable pub credentialed : Request → Bool
credentialed r = present (codes "Authorization") r.header || present (codes "Cookie") r.header

unfoldable pub eligible : Setting → Request → Bool
eligible cfg r =
    active cfg
    && (text_eq r.method (codes "GET") || text_eq r.method (codes "HEAD"))
    && not (present (codes "Range") r.header)
    && not (request_directives r.header).no_store
    && matches r.path cfg

unfoldable pub is_safe : Text → Bool
is_safe m =
    text_eq m (codes "GET")
    || text_eq m (codes "HEAD")
    || text_eq m (codes "OPTIONS")
    || text_eq m (codes "TRACE")

unfoldable pub invalidates : Setting → Request → Bool
invalidates cfg r = active cfg && not (is_safe r.method) && matches r.path cfg

-- `Servable`, on the `Public` field of the entry.
unfoldable pub servable : Bool → Request → Bool
servable public r =
    let d = request_directives r.header in
    if d.no_store || d.no_cache then false else if credentialed r then public else true

unfoldable pub fields_vary : List Text → Bool
fields_vary [] = true
fields_vary (f ∷ fs) =
    let name = trim_space f in
    ((length name == 0) || equal_fold name (codes "Accept-Encoding")) && fields_vary fs

unfoldable pub values_vary : List Text → Bool
values_vary [] = true
values_vary (v ∷ vs) = fields_vary (split v 44) && values_vary vs

unfoldable pub vary_is_cacheable : Header → Bool
vary_is_cacheable h = values_vary (values (codes "Vary") h)

pub record Storability : Type 0 where
  pub expires_at : ℕ
  pub public : Bool
  pub length : ℕ

unfoldable pub clamped : ℕ → ℕ → Option ℕ
clamped max_ttl ttl = if ttl == 0 then none else some (if ltb max_ttl ttl then max_ttl else ttl)

unfoldable pub content_length : Header → Option ℕ
content_length h = elim (parse_int (field (codes "Content-Length") h)) [
  | none ↦ none
  | some (negsuc n) ↦ none
  | some (pos n) ↦ some n
]

-- `parse_time` is `http.ParseTime`.
module _ (parse_time : Text → Option ℕ) where
  -- A difference of times below 0 is as good as 0 here, since both refuse.
  unfoldable pub requested_ttl : CacheControl → Header → Setting → ℕ → Option ℕ
  requested_ttl cc h cfg now = elim cc.s_maxage [
    | some d ↦ some d
    | none ↦ elim cc.max_age [
      | some d ↦ some d
      | none ↦
          if present (codes "Expires") h
          then elim (parse_time (field (codes "Expires") h)) [
            | none ↦ none
            | some expires ↦ some (expires - now)
          ]
          else some cfg.ttl
    ]
  ]

  unfoldable pub freshness : CacheControl → Header → Setting → ℕ → Option ℕ
  freshness cc h cfg now = elim (requested_ttl cc h cfg now) [
    | none ↦ none
    | some ttl ↦ clamped cfg.max_ttl ttl
  ]

  unfoldable pub storable : Setting → Request → ℕ → Header → ℕ → Option Storability
  storable cfg r status h now =
      if not (text_eq r.method (codes "GET")) || not (status == 200)
      then none
      else elim (content_length h) [
        | none ↦ none
        | some len ↦
            let cc = parse_cache_control (values (codes "Cache-Control") h) in
            if ltb cfg.max_object_bytes len
            then none
            else if not (length (values (codes "Set-Cookie") h) == 0)
            then none
            else if not (vary_is_cacheable h)
            then none
            else if cc.no_store || cc.no_cache || cc.is_private
            then none
            else if not cc.any && has_no_cache_pragma h
            then none
            else if credentialed r && not cc.is_public
            then none
            else elim (freshness cc h cfg now) [
              | none ↦ none
              | some ttl ↦
                  some (record { expires_at = now + ttl; public = cc.is_public; length = len })
            ]
      ]

unfoldable pub named_by_connection : Text → List Text → Bool
named_by_connection key [] = false
named_by_connection key (name ∷ names) =
    equal_fold (trim_space name) key || named_by_connection key names

unfoldable pub named_by_any : Text → List Text → Bool
named_by_any key [] = false
named_by_any key (v ∷ vs) = named_by_connection key (split v 44) || named_by_any key vs

abbrev pub hop_by_hop : List Text
hop_by_hop =
    codes "Connection"
    ∷ codes "Keep-Alive"
    ∷ codes "Proxy-Authenticate"
    ∷ codes "Proxy-Authorization"
    ∷ codes "Proxy-Connection"
    ∷ codes "Te"
    ∷ codes "Trailer"
    ∷ codes "Transfer-Encoding"
    ∷ codes "Upgrade"
    ∷ []

unfoldable pub fold_member : Text → List Text → Bool
fold_member key [] = false
fold_member key (name ∷ names) = equal_fold key name || fold_member key names

unfoldable pub skip_header : Header → Text → Bool
skip_header h key =
    equal_fold key (codes "Set-Cookie")
    || fold_member key hop_by_hop
    || equal_fold key (codes "Content-Length")
    || equal_fold key (codes "X-Cache")
    || equal_fold key (codes "Age")
    || named_by_any key (values (codes "Connection") h)

unfoldable pub copy_storable_header : Header → Header
copy_storable_header h = keep (λ key vs. not (skip_header h key)) h
