-- ===== src/Cache/Revalidation.antt =====
-- internal/cache/policy.go: the codings that a request accepts, and whether a conditional request
-- is answered with 304.
use ponz_proxy.Prelude.{
  ℕ, Bool, true, false, not, ◌&&◌, ◌||◌, Option, none, some, List, [], ◌∷◌, leb, ◌==◌,
  if◌then◌else◌, length,
}
use ponz_proxy.Prelude.Text.{Text, codes, text_eq}
use ponz_proxy.Prelude.Strings.{cut, trim_space, trim_prefix}
use ponz_proxy.Prelude.Fields.{equal_fold, split}
use ponz_proxy.Cache.Directives.{Header, field, present}

-- One flag for each bit of `Encodings`.
pub record Encodings : Type 0 where
  pub gzip : Bool
  pub brotli : Bool
  pub deflate : Bool
  pub zstd : Bool

abbrev pub no_encodings : Encodings
no_encodings = record { gzip = false; brotli = false; deflate = false; zstd = false }

-- The text before the first byte `c`, and what follows it: `strings.Cut`, where nothing is missing.
abbrev before_and_after : ℕ → Text → Text × Text
before_and_after c s = elim (cut s c) [ none ↦ (s, []) | some (before, after) ↦ (before, after) ]

-- `is_zero` tells whether `strconv.ParseFloat` reads a text as a zero.
module _ (is_zero : Text → Bool) where
  unfoldable pub refused_among : List Text → Bool
  refused_among [] = false
  refused_among (p ∷ ps) =
      let rest = refused_among ps in
      elim (cut p 61) [
        | none ↦ rest
        | some (name, value) ↦
            if equal_fold (trim_space name) (codes "q") then is_zero (trim_space value) else rest
      ]

  unfoldable pub refused_by_quality : Text → Bool
  refused_by_quality params = refused_among (split params 59)

  unfoldable pub add_encoding : Text → Encodings → Encodings
  add_encoding token enc =
      if equal_fold token (codes "gzip") || equal_fold token (codes "x-gzip")
      then record enc { gzip = true }
      else if equal_fold token (codes "br")
      then record enc { brotli = true }
      else if equal_fold token (codes "deflate")
      then record enc { deflate = true }
      else if equal_fold token (codes "zstd")
      then record enc { zstd = true }
      else enc

  unfoldable pub add_part : Text → Encodings → Encodings
  add_part part enc =
      let (before, params) = before_and_after 59 part in
      let token = trim_space before in
      if (length token == 0) || refused_by_quality params then enc else add_encoding token enc

  unfoldable pub add_parts : List Text → Encodings → Encodings
  add_parts [] enc = enc
  add_parts (p ∷ ps) enc = add_parts ps (add_part p enc)

  unfoldable pub parse_accept_encoding : Text → Encodings
  parse_accept_encoding value =
      if length value == 0 then no_encodings else add_parts (split value 44) no_encodings

unfoldable pub trim_weak : Text → Text
trim_weak tag = trim_prefix tag (codes "W/")

unfoldable pub candidate_matches : Text → List Text → Bool
candidate_matches stored [] = false
candidate_matches stored (c ∷ cs) =
    let candidate = trim_space c in
    text_eq candidate (codes "*")
    || text_eq (trim_weak candidate) (trim_weak stored)
    || candidate_matches stored cs

unfoldable pub etag_matches : Text → Text → Bool
etag_matches if_none_match stored =
    not (length stored == 0) && candidate_matches stored (split if_none_match 44)

-- `parse_time` is `http.ParseTime`; the entry's tag and date, and the request's header.
unfoldable pub not_modified : (Text → Option ℕ) → Text → Text → Header → Bool
not_modified parse_time etag last_modified h =
    let since = parse_time (field (codes "If-Modified-Since") h) in
    let modified = parse_time last_modified in
    if present (codes "If-None-Match") h
    then etag_matches (field (codes "If-None-Match") h) etag
    else if present (codes "If-Modified-Since") h && not (length last_modified == 0)
    then elim since [ none ↦ false | some s ↦ elim modified [ none ↦ false | some m ↦ leb m s ] ]
    else false
