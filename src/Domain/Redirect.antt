-- ===== src/Domain/Redirect.antt =====
-- internal/domain/redirect.go: domains that are answered with a redirect.
pub mod Target
use ponz_proxy.Prelude.{
  ℕ, suc, ◌+◌, Bool, true, false, not, ◌&&◌, ◌||◌, Option, none, some, List, [], ◌∷◌, ◌++◌, ltb,
  leb, ◌==◌, if◌then◌else◌, length,
}
use ponz_proxy.Prelude.Text.{Text, codes, text_eq}
use ponz_proxy.Prelude.Strings.{
  cut_prefix, has_prefix, cut, trim_last, trim_space, to_lower, is_digit,
}
use ponz_proxy.Prelude.Entries.{cleaned}
use ponz_proxy.Domain.Names.{DomainError, validate_domain, normalize_domain}

pub record Redirect : Type 0 where
  pub id : ℕ
  pub name : Text
  pub enabled : Bool
  pub domains : List Text
  pub target : Text
  pub status_code : ℕ
  pub preserve_path : Bool
  pub certificate_id : Option ℕ

-- What is read of a `url.URL`; `escaped_path` stands for `EscapedPath()`, `hostname` for `Hostname()`.
pub record Url : Type 0 where
  pub scheme : Text
  pub host : Text
  pub hostname : Text
  pub escaped_path : Text
  pub raw_query : Text
  pub fragment : Text

abbrev pub star_dot : Text
star_dot = codes "*."

unfoldable pub valid_redirect_status : ℕ → Bool
valid_redirect_status c = (c == 301) || (c == 302) || (c == 307) || (c == 308)

unfoldable pub is_scheme_byte : ℕ → Bool
is_scheme_byte c =
    (leb 97 c && leb c 122) || (leb 65 c && leb c 90) || is_digit c || (c == 43) || (c == 45)

unfoldable pub all_scheme_bytes : Text → Bool
all_scheme_bytes [] = true
all_scheme_bytes (c ∷ s) = is_scheme_byte c && all_scheme_bytes s

unfoldable pub is_all_digits : Text → Bool
is_all_digits [] = true
is_all_digits (c ∷ s) = is_digit c && is_all_digits s

abbrev pub up_to : ℕ → Text → Text
up_to c s = elim (cut s c) [ none ↦ s | some (before, after) ↦ before ]

unfoldable pub has_url_scheme : Text → Bool
has_url_scheme s = elim (cut s 58) [
  | none ↦ false
  | some ([], after) ↦ false
  | some (c ∷ name, after) ↦
      all_scheme_bytes (c ∷ name)
      && (let rest = up_to 47 after in (length rest == 0) || not (is_all_digits rest))
]

-- One domain of a redirect, against a name in normal form.
unfoldable pub domain_covers : Text → Text → Bool
domain_covers d name = text_eq d name || (elim (cut_prefix d star_dot) [
  | none ↦ false
  | some suffix ↦ elim (cut name 46) [ none ↦ false | some (_, parent) ↦ text_eq parent suffix ]
])

unfoldable pub any_covers : Text → List Text → Bool
any_covers name [] = false
any_covers name (d ∷ ds) = domain_covers d name || any_covers name ds

unfoldable pub matches_domain : Text → Redirect → Bool
matches_domain name r = any_covers (to_lower (trim_last name 46)) r.domains

unfoldable pub is_control : ℕ → Bool
is_control c = ltb c 32 || (c == 127)

unfoldable pub without_controls : Text → Text
without_controls [] = []
without_controls (c ∷ s) = let rest = without_controls s in if is_control c then rest else c ∷ rest

abbrev pub rooted : Text → Text
rooted [] = []
rooted (c ∷ s) = if c == 47 then c ∷ s else 47 ∷ c ∷ s

-- An escaped path is ASCII, so that bytes are runes. The copy is only made where there is a control
-- character, and is the same path where there is none.
unfoldable pub sanitize_path : Text → Text
sanitize_path p = rooted (without_controls p)

unfoldable pub merge_query : Text → Text → Text
merge_query [] requested = requested
merge_query (c ∷ fixed) [] = c ∷ fixed
merge_query (c ∷ fixed) (d ∷ requested) = (c ∷ fixed) ++ codes "&" ++ (d ∷ requested)

unfoldable pub raw_query_of : Text → Text
raw_query_of [] = []
raw_query_of (c ∷ q) = codes "?" ++ (c ∷ q)

-- After `scheme://host`. `path` and `query` are the escaped path and the query of the request.
unfoldable pub after_host : Redirect → Url → Text → Text → Text
after_host r target path query =
    let prefix = trim_last target.escaped_path 47 in
    let clean = sanitize_path path in
    let suffix = if text_eq clean (codes "/") && not (length prefix == 0) then [] else clean in
    if not r.preserve_path
    then target.escaped_path ++ raw_query_of target.raw_query
    else prefix ++ (suffix ++ raw_query_of (merge_query target.raw_query query))

pub data RedirectProblem : Type 0 where
  name_missing : RedirectProblem
  name_too_long : RedirectProblem
  no_domains : RedirectProblem
  bad_domain : ℕ → DomainError → RedirectProblem
  bad_status : RedirectProblem
  target_missing : RedirectProblem
  target_unparsed : RedirectProblem
  target_scheme : RedirectProblem
  target_no_domain : RedirectProblem
  target_fragment : RedirectProblem
  target_line_breaks : RedirectProblem
  points_back : Text → RedirectProblem

abbrev pub said_if : Bool → RedirectProblem → List RedirectProblem
said_if b p = if b then p ∷ [] else []

unfoldable pub has_line_break : Text → Bool
has_line_break [] = false
has_line_break (c ∷ s) = (c == 13) || (c == 10) || has_line_break s

unfoldable pub domains_problems : ℕ → List Text → List RedirectProblem
domains_problems i [] = []
domains_problems i (d ∷ ds) =
    let rest = domains_problems (suc i) ds in
    elim (validate_domain d) [ none ↦ rest | some e ↦ bad_domain i e ∷ rest ]

-- `parse_url` is `url.Parse`.
module _ (parse_url : Text → Option Url) where
  unfoldable pub location : Redirect → Text → Text → Text
  location r path query = elim (parse_url r.target) [
    | none ↦ r.target
    | some target ↦
        if length target.host == 0
        then r.target
        else target.scheme ++ codes "://" ++ target.host ++ after_host r target path query
  ]

  unfoldable pub target_host : Text → Text
  target_host target = elim (parse_url target) [ none ↦ [] | some u ↦ to_lower u.hostname ]

  unfoldable pub parsed_problems : Text → Url → List RedirectProblem
  parsed_problems target u =
      if not (text_eq u.scheme (codes "http") || text_eq u.scheme (codes "https"))
      then target_scheme ∷ []
      else if length u.host == 0
      then target_no_domain ∷ []
      else said_if (not (length u.fragment == 0)) target_fragment
        ++ said_if (has_line_break target) target_line_breaks

  unfoldable pub target_problems : Text → List RedirectProblem
  target_problems target =
      if length target == 0 then target_missing ∷ [] else elim (parse_url target) [
        | none ↦ target_unparsed ∷ []
        | some u ↦ parsed_problems target u
      ]

  unfoldable pub validate_redirect : Redirect → List RedirectProblem
  validate_redirect r =
      let host = target_host r.target in
      (if length r.name == 0
        then name_missing ∷ []
        else said_if (ltb 100 (length r.name)) name_too_long)
      ++ (said_if (length r.domains == 0) no_domains
          ++ (domains_problems 0 r.domains
              ++ (said_if (not (valid_redirect_status r.status_code)) bad_status
                  ++ (target_problems r.target
                      ++ said_if (not (length host == 0) && matches_domain host r)
                          (points_back host)))))

-- `url_string` is `URL.String` of the parsed URL with the scheme and the host in lower case.
module _ (parse_url : Text → Option Url) (url_string : Url → Text) where
  unfoldable pub absolute : Text → Text
  absolute target = elim (cut_prefix target (codes "//")) [
    | some rest ↦ codes "https://" ++ rest
    | none ↦ if has_url_scheme target then target else codes "https://" ++ target
  ]

  unfoldable pub normalize_target : Text → Text
  normalize_target target =
      let t = trim_space target in
      if length t == 0 then [] else elim (parse_url (absolute t)) [
        | none ↦ absolute t
        | some u ↦ url_string (record u { scheme = to_lower u.scheme; host = to_lower u.host })
      ]

  unfoldable pub normalize_redirect : Redirect → Redirect
  normalize_redirect r = record r {
    name = trim_space r.name;
    domains = cleaned normalize_domain [] r.domains;
    status_code = if r.status_code == 0 then 301 else r.status_code;
    target = normalize_target r.target;
  }
