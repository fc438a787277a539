-- ===== src/Domain/Redirect/Target.antt =====
-- internal/domain/redirect.go, `Location`: where a visitor is sent.
use ponz_proxy.Prelude.{
  ◌≡◌, refl, ◌⊎◌, inl, inr, Bool, true, false, not, ◌&&◌, Option, some, [], ◌∷◌, ◌++◌, arith, ◌==◌,
  if◌then◌else◌, length, Bool-cases,
}
use ponz_proxy.Prelude.Text.{Text, codes, text_eq}
use ponz_proxy.Prelude.Strings.{trim_last}
use ponz_proxy.Domain.Redirect.{
  Redirect, Url, without_controls, sanitize_path, merge_query, raw_query_of, after_host, location,
  rooted,
}

-- Nothing, a path or a query: the host of a URL ends where this begins.
abbrev pub EndsHost : Text → Type 0
EndsHost [] = Unit {0}
EndsHost (c ∷ s) = (c ≡ 47) ⊎ (c ≡ 63)

abbrev pub Rooted : Text → Type 0
Rooted [] = Unit {0}
Rooted (c ∷ s) = c ≡ 47

Rooted-EndsHost : (p q : Text) → Rooted p → EndsHost q → EndsHost (p ++ q)
Rooted-EndsHost [] q r e = e
Rooted-EndsHost (c ∷ p) q r e = inl r

raw_query_of-EndsHost : (q : Text) → EndsHost (raw_query_of q)
unfolding raw_query_of
raw_query_of-EndsHost [] = tt
raw_query_of-EndsHost (c ∷ q) = inr refl

trim_last-Rooted : (p : Text) → Rooted p → Rooted (trim_last p 47)
unfolding trim_last
trim_last-Rooted [] r = tt
trim_last-Rooted (c ∷ []) r = ground (arith, r)
trim_last-Rooted (c ∷ d ∷ p) r = r

sanitize_path-Rooted : (p : Text) → Rooted (sanitize_path p)
unfolding sanitize_path
sanitize_path-Rooted p = go (without_controls p)
  where
    go : (s : Text) → Rooted (rooted s)
    go [] = tt
    go (c ∷ s) = elim (Bool-cases (c == 47)) [
      | inl e ↦ ground (arith, e)
      | inr e ↦ ground (arith, e)
    ]

suffix-Rooted : (b : Bool) (p : Text) → Rooted p → Rooted (if b then [] else p)
suffix-Rooted true p r = tt
suffix-Rooted false p r = r

after_host-EndsHost :
    (r : Redirect) (target : Url) (path query : Text)
    → Rooted target.escaped_path
    → EndsHost (after_host r target path query)
unfolding after_host
after_host-EndsHost r target path query rooted_target = go r.preserve_path
  where
    prefix : Text
    prefix = trim_last target.escaped_path 47

    clean : Text
    clean = sanitize_path path

    suffix : Text
    suffix = if text_eq clean (codes "/") && not (length prefix == 0) then [] else clean

    go :
        (b : Bool)
        → EndsHost (
            if not b
            then target.escaped_path ++ raw_query_of target.raw_query
            else prefix ++ (suffix ++ raw_query_of (merge_query target.raw_query query)))
    go false =
        Rooted-EndsHost target.escaped_path _ rooted_target (raw_query_of-EndsHost target.raw_query)
    go true = Rooted-EndsHost prefix _ (trim_last-Rooted target.escaped_path rooted_target) (
        Rooted-EndsHost suffix _ (suffix-Rooted _ clean (sanitize_path-Rooted path))
          (raw_query_of-EndsHost _))

-- Whatever path and query a request has, it is sent to the scheme and the host of the target: what
-- follows them is nothing, or begins a path or a query. The target's own path is absolute or empty.
pub location-EndsHost :
    (parse_url : Text → Option Url) (r : Redirect) (target : Url) (path query : Text)
    → parse_url r.target ≡ some target
    → (length target.host == 0) ≡ false
    → Rooted target.escaped_path
    → (rest : Text) × (location parse_url r path query
        ≡ target.scheme ++ codes "://" ++ target.host ++ rest)
      × EndsHost rest
unfolding location
location-EndsHost parse_url r target path query parsed has_host rooted_target = (
  after_host r target path query,
  rw (location, parsed, has_host) refl,
  after_host-EndsHost r target path query rooted_target,
)
