-- ===== src/Domain/Rewriting.antt =====
-- internal/domain/headers.go, compression.go, usage_alert.go and the error pages of maintenance.go:
-- what a host may change of a response, and its budget.
pub mod Applied
use ponz_proxy.Prelude.{
  ℕ, suc, ◌+◌, ◌*◌, ◌^◌, Bool, true, false, not, ◌&&◌, ◌||◌, Option, none, some, List, [], ◌∷◌,
  ◌++◌, ltb, leb, ◌==◌, if◌then◌else◌, length,
}
use ponz_proxy.Prelude.Text.{Text, codes, text_eq}
use ponz_proxy.Prelude.Strings.{trim_space, to_lower, cut, is_digit}
use ponz_proxy.Prelude.Fields.{itoa}
use ponz_proxy.Prelude.Entries.{member, cleaned}
use ponz_proxy.Prelude.Maps.{insert, delete}
use ponz_proxy.Cache.Directives.{Header}
use ponz_proxy.Domain.Options.{Report, report_if}

pub record HeaderRule : Type 0 where
  pub name : Text
  pub value : Text
  pub remove : Bool

pub record Headers : Type 0 where
  pub request : List HeaderRule
  pub response : List HeaderRule

abbrev pub protected_headers : List Text
protected_headers =
    codes "connection"
    ∷ codes "transfer-encoding"
    ∷ codes "content-length"
    ∷ codes "upgrade"
    ∷ codes "keep-alive"
    ∷ codes "proxy-authenticate"
    ∷ codes "proxy-authorization"
    ∷ codes "te"
    ∷ codes "trailer"
    ∷ codes "host"
    ∷ []

-- `canonical` is `http.CanonicalHeaderKey`, which `Header.Set` and `Header.Del` apply to their name.
module _ (canonical : Text → Text) where
  unfoldable pub apply_rule : HeaderRule → Header → Header
  apply_rule r h =
      if r.remove then delete (canonical r.name) h else insert (canonical r.name) (r.value ∷ []) h

  unfoldable pub apply_rules : List HeaderRule → Header → Header
  apply_rules [] h = h
  apply_rules (r ∷ rs) h = apply_rules rs (apply_rule r h)

  unfoldable pub normalize_rule : HeaderRule → HeaderRule
  normalize_rule r = record r {
    name = canonical (trim_space r.name);
    value = if r.remove then [] else trim_space r.value;
  }

  unfoldable pub normalize_rules : List HeaderRule → List HeaderRule
  normalize_rules [] = []
  normalize_rules (r ∷ rs) =
      let rest = normalize_rules rs in
      let n = normalize_rule r in if length n.name == 0 then rest else n ∷ rest

  unfoldable pub normalize_headers : Headers → Headers
  normalize_headers h = record {
    request = normalize_rules h.request;
    response = normalize_rules h.response;
  }

-- A letter, a digit or one of !#$%&'*+-.^_`|~
unfoldable pub is_token_byte : ℕ → Bool
is_token_byte c =
    (leb 97 c && leb c 122)
    || (leb 65 c && leb c 90)
    || is_digit c
    || (c == 33)
    || (leb 35 c && leb c 39)
    || (c == 42)
    || (c == 43)
    || (c == 45)
    || (c == 46)
    || (leb 94 c && leb c 96)
    || (c == 124)
    || (c == 126)

abbrev all_token_bytes : Text → Bool
all_token_bytes [] = true
all_token_bytes (c ∷ s) = is_token_byte c && all_token_bytes s

unfoldable pub valid_header_name : Text → Bool
valid_header_name name = all_token_bytes name && not (length name == 0)

unfoldable pub valid_header_value : Text → Bool
valid_header_value [] = true
valid_header_value (c ∷ s) = not ((ltb c 32 && not (c == 9)) || (c == 127)) && valid_header_value s

abbrev pub at_index : Text → ℕ → Text → Text
at_index prefix i name = prefix ++ codes "[" ++ itoa i ++ codes "]" ++ name

-- The rule at position `i`, which has a name, with the names before it.
unfoldable pub named_rule_report : Text → ℕ → List Text → HeaderRule → Report
named_rule_report prefix i seen r =
    report_if (not (valid_header_name r.name)) (at_index prefix i (codes ".name"))
    ++ (report_if (member (to_lower r.name) protected_headers) (at_index prefix i (codes ".name"))
        ++ (report_if (not (valid_header_value r.value)) (at_index prefix i (codes ".value"))
            ++ report_if (member r.name seen) (at_index prefix i (codes ".name"))))

unfoldable pub rules_report : Text → ℕ → List Text → List HeaderRule → Report
rules_report prefix i seen [] = []
rules_report prefix i seen (r ∷ rs) =
    if length r.name == 0
    then at_index prefix i (codes ".name") ∷ rules_report prefix (suc i) seen rs
    else named_rule_report prefix i seen r ++ rules_report prefix (suc i) (r.name ∷ seen) rs

unfoldable pub validate_rules : Text → List HeaderRule → Report
validate_rules prefix rules =
    report_if (ltb 32 (length rules)) prefix ++ rules_report prefix 0 [] rules

unfoldable pub validate_headers : Text → Headers → Report
validate_headers prefix h =
    validate_rules (prefix ++ codes ".request") h.request
    ++ validate_rules (prefix ++ codes ".response") h.response

pub record Compression : Type 0 where
  pub enabled : Bool
  pub min_bytes : ℕ
  pub types : List Text
  pub level : ℕ

abbrev before_semicolon : Text → Text
before_semicolon s = elim (cut s 59) [ none ↦ s | some (media, _) ↦ media ]

unfoldable pub wants : Text → Compression → Bool
wants content_type c =
    let media = to_lower (trim_space (before_semicolon content_type)) in
    not (length media == 0) && member media c.types

unfoldable pub clean_type : Text → Text
clean_type t =
    let low = to_lower (trim_space t) in
    elim (cut low 59) [ none ↦ low | some (media, _) ↦ trim_space media ]

unfoldable pub normalize_compression : Compression → Compression
normalize_compression c = record c {
  min_bytes = if c.min_bytes == 0 then 1024 else c.min_bytes;
  level = if c.level == 0 then 5 else c.level;
  types = cleaned clean_type [] c.types;
}

abbrev contains : ℕ → Text → Bool
contains c [] = false
contains c (d ∷ s) = (d == c) || contains c s

unfoldable pub bad_types : List Text → Report
bad_types [] = []
bad_types (t ∷ ts) =
    report_if (not (contains 47 t) || contains 32 t || contains 9 t) (codes "compression.types")
    ++ bad_types ts

unfoldable pub validate_compression : Compression → Report
validate_compression c =
    report_if (ltb c.min_bytes 64 || ltb (10 * 2 ^ 20) c.min_bytes) (codes "compression.minBytes")
    ++ (report_if (ltb c.level 1 || ltb 9 c.level) (codes "compression.level")
        ++ (report_if (ltb 32 (length c.types)) (codes "compression.types")
            ++ (bad_types c.types
                ++ report_if (c.enabled && (length c.types == 0)) (codes "compression.types"))))

pub record ErrorPages : Type 0 where
  pub enabled : Bool
  pub title : Text
  pub message : Text

unfoldable pub normalize_pages : ErrorPages → ErrorPages
normalize_pages e = record e { title = trim_space e.title; message = trim_space e.message }

unfoldable pub validate_pages : ErrorPages → Report
validate_pages e =
    report_if (ltb 120 (length e.title)) (codes "errorPages.title")
    ++ (report_if (ltb 2000 (length e.message)) (codes "errorPages.message")
        ++ report_if (e.enabled && (length e.title == 0)) (codes "errorPages.title"))

pub record Budget : Type 0 where
  pub enabled : Bool
  pub bytes : ℕ
  pub period_days : ℕ

unfoldable pub normalize_budget : Budget → Budget
normalize_budget u = record u { period_days = if u.period_days == 0 then 30 else u.period_days }

unfoldable pub validate_budget : Budget → Report
validate_budget u =
    report_if (ltb u.period_days 1 || ltb 90 u.period_days) (codes "usageAlert.periodDays")
    ++ report_if (u.enabled && ltb u.bytes (2 ^ 20)) (codes "usageAlert.bytes")
