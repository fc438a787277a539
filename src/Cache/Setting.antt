-- ===== src/Cache/Setting.antt =====
-- internal/domain/cache.go: which paths of a host are cached, for how long and in how much memory.
pub mod Valid
mod Tests
use ponz_proxy.Prelude.{
  ℕ, ◌+◌, ◌-◌, ◌*◌, ◌^◌, Bool, true, false, not, ◌&&◌, ◌||◌, Option, none, some, List, [], ◌∷◌,
  ◌++◌, ltb, leb, ◌==◌, if◌then◌else◌, length, drop,
}
use ponz_proxy.Prelude.Text.{Text, codes, text_eq}
use ponz_proxy.Prelude.Strings.{trim_space, to_lower, has_prefix}
use ponz_proxy.Prelude.Fields.{equal_fold}
use ponz_proxy.Prelude.Entries.{cleaned}

-- `domain.Cache`.
pub record Setting : Type 0 where
  pub enabled : Bool
  pub paths : List Text
  pub ttl : ℕ
  pub max_ttl : ℕ
  pub max_object_bytes : ℕ
  pub max_bytes : ℕ

abbrev pub second : ℕ
second = 10 ^ 9

abbrev pub hour : ℕ
hour = 3600 * second

unfoldable pub active : Setting → Bool
active c = c.enabled && not (length c.paths == 0)

-- An entry beginning with a dot is an extension, any other a prefix.
unfoldable pub is_extension : Text → Bool
is_extension [] = false
is_extension (c ∷ s) = c == 46

unfoldable pub has_extension : Text → Text → Bool
has_extension path p =
    leb (length p) (length path) && equal_fold (drop (length path - length p) path) p

unfoldable pub matches_entry : Text → Text → Bool
matches_entry path p = if is_extension p then has_extension path p else has_prefix path p

unfoldable pub matches_any : Text → List Text → Bool
matches_any path [] = false
matches_any path (p ∷ ps) = matches_entry path p || matches_any path ps

unfoldable pub matches : Text → Setting → Bool
matches path c = matches_any path c.paths

unfoldable pub normalize_entry : Text → Text
normalize_entry p = let q = trim_space p in if is_extension q then to_lower q else q

abbrev pub or_default : ℕ → ℕ → ℕ
or_default n d = if n == 0 then d else n

unfoldable pub normalize : Setting → Setting
normalize c = record c {
  paths = cleaned normalize_entry [] c.paths;
  ttl = or_default c.ttl (300 * second);
  max_ttl = or_default c.max_ttl (24 * hour);
  max_object_bytes = or_default c.max_object_bytes (2 ^ 20);
  max_bytes = or_default c.max_bytes (2 ^ 26);
}

-- What `Validate` reports.
pub data Problem : Type 0 where
  no_paths : Problem
  too_many_paths : Problem
  path_too_long : Text → Problem
  not_a_path : Text → Problem
  not_an_extension : Text → Problem
  matches_everything : Text → Problem
  ttl_range : Problem
  max_ttl_short : Problem
  max_ttl_long : Problem
  object_range : Problem
  budget_small : Problem
  budget_large : Problem

abbrev pub problem_if : Bool → Problem → List Problem
problem_if b p = if b then p ∷ [] else []

-- `p[0]` panics on an empty entry, unless the entry's length decided before: `none`.
unfoldable pub entry_problems : Text → Option (List Problem)
entry_problems [] = none
entry_problems (c ∷ s) =
    let p = c ∷ s in
    some (
      if ltb 128 (length p)
      then path_too_long p ∷ []
      else if not (c == 46) && not (c == 47)
      then not_a_path p ∷ []
      else if text_eq p (codes ".")
      then not_an_extension p ∷ []
      else problem_if (text_eq p (codes "/")) (matches_everything p))

unfoldable pub entries_problems : List Text → Option (List Problem)
entries_problems [] = some []
entries_problems (p ∷ ps) = elim (entry_problems p) [
  | none ↦ none
  | some bad ↦ elim (entries_problems ps) [ none ↦ none | some rest ↦ some (bad ++ rest) ]
]

unfoldable pub range_problems : Setting → List Problem
range_problems c =
    problem_if (ltb c.ttl second || ltb (24 * hour) c.ttl) ttl_range
    ++ problem_if (ltb c.max_ttl c.ttl) max_ttl_short
    ++ problem_if (ltb (720 * hour) c.max_ttl) max_ttl_long
    ++ problem_if (ltb c.max_object_bytes 1024 || ltb (2 ^ 26) c.max_object_bytes) object_range
    ++ problem_if (ltb c.max_bytes c.max_object_bytes) budget_small
    ++ problem_if (ltb (2 ^ 30) c.max_bytes) budget_large

unfoldable pub all_problems : Setting → List Problem → List Problem
all_problems c bad =
    problem_if (c.enabled && (length c.paths == 0)) no_paths
    ++ (problem_if (ltb 64 (length c.paths)) too_many_paths ++ (bad ++ range_problems c))

-- No problems means that the setting is accepted.
unfoldable pub validate : Setting → Option (List Problem)
validate c = elim (entries_problems c.paths) [ none ↦ none | some bad ↦ some (all_problems c bad) ]
