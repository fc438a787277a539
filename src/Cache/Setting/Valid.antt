-- ===== src/Cache/Setting/Valid.antt =====
-- internal/domain/cache.go: what `Normalize` leaves and what `Validate` accepts.
use ponz_proxy.Prelude.{
  append-empty, ℕ, ◌*◌, ◌^◌, ◌≤◌, ◌≡◌, ◌≢◌, refl, sym, ap, subst, ◌∙◌, inl, inr, Bool, true, false,
  ◌&&◌, some, List, [], ◌∷◌, ◌++◌, arith, ltb, ◌==◌, if◌then◌else◌, length, Bool-cases,
  Option-cases,
}
use ponz_proxy.Prelude.Text.{Text, codes, text_eq}
use ponz_proxy.Prelude.Strings.{trim_space, to_lower, lower, has_prefix, cut_prefix}
use ponz_proxy.Prelude.Strings.Trim.{to_lower_twice, trim_space-to_lower, trim_space_twice}
use ponz_proxy.Prelude.Fields.{equal_fold}
use ponz_proxy.Prelude.Entries.{cleaned, Settled, cleaned-Settled, cleaned_same}
use ponz_proxy.Cache.Setting.{
  Setting, second, hour, is_extension, has_extension, matches_entry, matches_any, matches,
  normalize_entry, or_default, normalize, Problem, entry_problems, entries_problems, problem_if,
  range_problems, all_problems, no_paths, too_many_paths, validate,
}

abbrev Clean : Text → Type 0
Clean p = normalize_entry p ≡ p

normalize_entry-extension :
    (q : Text) → trim_space q ≡ q → normalize_entry q ≡ (if is_extension q then to_lower q else q)
unfolding normalize_entry
normalize_entry-extension q t = rw (normalize_entry, t) refl

lower_extension : (q : Text) → is_extension q ≡ true → is_extension (to_lower q) ≡ true
unfolding is_extension lower
lower_extension [] e = e
lower_extension (c ∷ q) e = ground (arith, e)

normalize_entry_twice : (p : Text) → Clean (normalize_entry p)
unfolding normalize_entry
normalize_entry_twice p = elim (Bool-cases (is_extension q)) [
  | inl e ↦
      let lowered : normalize_entry p ≡ to_lower q = rw e refl in
      let trimmed : trim_space (to_lower q) ≡ to_lower q =
        trim_space-to_lower q ∙ ap to_lower (trim_space_twice p) in
      subst Clean (sym lowered) (
        normalize_entry-extension (to_lower q) trimmed
        ∙ ap (λ b. if b then to_lower (to_lower q) else to_lower q) (lower_extension q e)
        ∙ to_lower_twice q)
  | inr e ↦
      let as_is : normalize_entry p ≡ q = rw e refl in
      subst Clean (sym as_is)
        (normalize_entry-extension q (trim_space_twice p) ∙ ap (λ b. if b then to_lower q else q) e)
]
  where
    q : Text
    q = trim_space p

entries-Settled :
    (ps : List Text) → Settled normalize_entry Clean [] (cleaned normalize_entry [] ps)
entries-Settled ps = cleaned-Settled normalize_entry Clean [] ps normalize_entry_twice

or_default_twice : (n d : ℕ) → or_default (or_default n d) d ≡ or_default n d
or_default_twice n d = ground arith

-- Normalising a setting twice is normalising it once.
pub normalize_twice : (c : Setting) → normalize (normalize c) ≡ normalize c
unfolding normalize
normalize_twice c =
    rw
      (
        cleaned_same normalize_entry [] (cleaned normalize_entry [] c.paths)
            (entries-Settled c.paths),
        or_default_twice c.ttl (300 * second),
        or_default_twice c.max_ttl (24 * hour),
        or_default_twice c.max_object_bytes (2 ^ 20),
        or_default_twice c.max_bytes (2 ^ 26),
      )
      refl

entry_problems-some : (p : Text) → p ≢ [] → (bad : List Problem) × (entry_problems p ≡ some bad)
unfolding entry_problems
entry_problems-some [] n = absurd (n refl)
entry_problems-some (c ∷ p) n = (_, refl)

entries_problems-some :
    (seen ps : List Text)
    → Settled normalize_entry Clean seen ps
    → (bad : List Problem) × (entries_problems ps ≡ some bad)
unfolding entries_problems
entries_problems-some seen [] s = ([], refl)
entries_problems-some seen (p ∷ ps) (_, n, _, s) =
    let (first, e) = entry_problems-some p n in
    let (rest, f) = entries_problems-some (p ∷ seen) ps s in (first ++ rest, ground (arith, e, f))

-- A setting that `Normalize` has been through is judged: `Validate` does not index an empty entry.
pub validate-normalize :
    (c : Setting) → (problems : List Problem) × (validate (normalize c) ≡ some problems)
unfolding validate normalize
validate-normalize c =
    let (bad, e) =
      entries_problems-some [] (cleaned normalize_entry [] c.paths) (entries-Settled c.paths) in
    (all_problems (normalize c) bad, ground (arith, e))

no_problem :
    (b : Bool) (p : Problem) (rest : List Problem)
    → problem_if b p ++ rest ≡ []
    → (b ≡ false) × (rest ≡ [])
no_problem b p rest e = ground (arith, e)

-- An entry that nothing is wrong with does not match the path `/`.
entry-root : (p : Text) → entry_problems p ≡ some [] → matches_entry (codes "/") p ≡ false
unfolding entry_problems matches_entry is_extension has_extension has_prefix cut_prefix text_eq
    equal_fold
entry-root [] e = ground (arith, e)
entry-root (c ∷ []) e = ground (arith, e)
entry-root (c ∷ d ∷ p) e = ground (arith, e)

entries-root : (ps : List Text) → entries_problems ps ≡ some [] → matches_any (codes "/") ps ≡ false
unfolding entries_problems matches_any
entries-root [] e = refl
entries-root (p ∷ ps) e = elim (Option-cases (entry_problems p)) [
  | inl f ↦ ground (arith, e, f)
  | inr (bad, f) ↦ elim (Option-cases (entries_problems ps)) [
    | inl g ↦ ground (arith, e, f, g)
    | inr (rest, g) ↦ ground (arith, e, f, g, append-empty bad rest, entry-root p, entries-root ps)
  ]
]

-- A setting that `Validate` accepts has paths if it is enabled, never matches the path `/`, and its
-- times and sizes are within their bounds and in order.
pub validate-accepts :
    (c : Setting)
    → validate c ≡ some []
    → (c.enabled ≡ true → c.paths ≢ [])
      × (matches (codes "/") c ≡ false)
      × (second ≤ c.ttl)
      × (c.ttl ≤ c.max_ttl)
      × (c.max_ttl ≤ 720 * hour)
      × (1024 ≤ c.max_object_bytes)
      × (c.max_object_bytes ≤ c.max_bytes)
      × (c.max_bytes ≤ 2 ^ 30)
unfolding validate matches all_problems range_problems
validate-accepts c e = elim (Option-cases (entries_problems c.paths)) [
  | inl f ↦ ground (arith, e, f)
  | inr (bad, f) ↦
      let none_left : all_problems c bad ≡ [] = ground (arith, e, f) in
      let few = problem_if (ltb 64 (length c.paths)) too_many_paths in
      let (a, r1) =
        no_problem (c.enabled && (length c.paths == 0)) no_paths (few ++ (bad ++ range_problems c))
          none_left in
      let (_, r2) = append-empty few (bad ++ range_problems c) r1 in
      let (nothing, r3) = append-empty bad (range_problems c) r2 in
      let root = entries-root c.paths (f ∙ ap some nothing) in ground (arith, r3, a, root)
]
