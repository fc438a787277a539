-- ===== src/Domain/Rewriting/Applied.antt =====
-- internal/domain/headers.go: what rules that validation accepts do to a header.
use ponz_proxy.Prelude.{
  append-empty, ℕ, suc, ◌≡◌, refl, sym, ap, subst, ◌∙◌, inl, inr, true, false, not, Option, none,
  some, List, [], ◌∷◌, ◌++◌, arith, ◌==◌, ltb, if◌then◌else◌, length, Bool-cases, Option-cases,
}
use ponz_proxy.Prelude.Text.{Text, text_eq, text_eq_iff}
use ponz_proxy.Prelude.Strings.{to_lower}
use ponz_proxy.Prelude.Entries.{member}
use ponz_proxy.Prelude.Maps.{
  lookup, insert, delete, Distinct, lookup-insert, lookup-delete, keep-Distinct, insert-Distinct,
}
use ponz_proxy.Cache.Directives.{Header}
use ponz_proxy.Domain.Options.{report_if}
use ponz_proxy.Domain.Rewriting.{
  HeaderRule, apply_rule, apply_rules, protected_headers, named_rule_report, rules_report,
  validate_rules,
}

-- Each rule has a name that is not protected, is not one of `seen` and comes once.
abbrev Fine : List Text → List HeaderRule → Type 0
Fine seen [] = Unit {0}
Fine seen (r ∷ rs) =
    (member (to_lower r.name) protected_headers ≡ false)
    × (member r.name seen ≡ false)
    × Fine (r.name ∷ seen) rs

named-fine :
    (prefix : Text) (i : ℕ) (seen : List Text) (r : HeaderRule)
    → named_rule_report prefix i seen r ≡ []
    → (member (to_lower r.name) protected_headers ≡ false) × (member r.name seen ≡ false)
unfolding named_rule_report
named-fine prefix i seen r e = ground (arith, e)

report-Fine :
    (prefix : Text) (i : ℕ) (seen : List Text) (rs : List HeaderRule)
    → rules_report prefix i seen rs ≡ []
    → Fine seen rs
unfolding rules_report
report-Fine prefix i seen [] e = tt
report-Fine prefix i seen (r ∷ rs) e = elim (Bool-cases (length r.name == 0)) [
  | inl nameless ↦ ground (arith, e, nameless)
  | inr has_name ↦
      let parts : named_rule_report prefix i seen r
            ++ rules_report prefix (suc i) (r.name ∷ seen) rs
          ≡ [] =
        ground (arith, e, has_name) in
      let (a, b) =
        append-empty (named_rule_report prefix i seen r)
          (rules_report prefix (suc i) (r.name ∷ seen) rs) parts in
      let (c, d) = named-fine prefix i seen r a in
      (c, d, report-Fine prefix (suc i) (r.name ∷ seen) rs b)
]

abbrev rule_for : Text → List HeaderRule → Option HeaderRule
rule_for key [] = none
rule_for key (r ∷ rs) = if text_eq r.name key then some r else rule_for key rs

-- What a field is afterwards: the rule's value alone, nothing, or what it was.
abbrev pub ruled : Text → List HeaderRule → Header → Option (List Text)
ruled key rules h = elim (rule_for key rules) [
  | none ↦ lookup key h
  | some r ↦ if r.remove then none else some (r.value ∷ [])
]

seen-none :
    (key : Text) (seen : List Text) (rs : List HeaderRule)
    → member key seen ≡ true
    → Fine seen rs
    → rule_for key rs ≡ none
unfolding member
seen-none key seen [] m f = refl
seen-none key seen (r ∷ rs) m (_, unseen, f) = grind (
  arith,
  text_eq_iff r.name key,
  seen-none key (r.name ∷ seen) rs (ground (arith, m)) f,
  m,
  unseen,
)

protected-none :
    (key : Text) (seen : List Text) (rs : List HeaderRule)
    → member (to_lower key) protected_headers ≡ true
    → Fine seen rs
    → rule_for key rs ≡ none
protected-none key seen [] m f = refl
protected-none key seen (r ∷ rs) m (open_name, _, f) =
    grind (arith, text_eq_iff r.name key, protected-none key (r.name ∷ seen) rs m f, m, open_name)

member-first :
    (name key : Text) (seen : List Text) → text_eq name key ≡ true → member key (name ∷ seen) ≡ true
unfolding member
member-first name key seen e = grind (arith, text_eq_iff name key, text_eq_iff key name, e)

module _ (canonical : Text → Text) where
  -- The names are as `Normalize` leaves them.
  abbrev pub AllCanonical : List HeaderRule → Type 0
  AllCanonical [] = Unit {0}
  AllCanonical (r ∷ rs) = (canonical r.name ≡ r.name) × AllCanonical rs

  apply_rule-lookup :
      (r : HeaderRule) (key : Text) (h : Header)
      → canonical r.name ≡ r.name
      → Distinct h
      → (lookup key (apply_rule canonical r h) ≡ (
          if text_eq r.name key
          then (if r.remove then none else some (r.value ∷ []))
          else lookup key h))
        × Distinct (apply_rule canonical r h)
  unfolding apply_rule
  apply_rule-lookup r key h c d = elim (Bool-cases r.remove) [
    | inl gone ↦
        let e : apply_rule canonical r h ≡ delete r.name h =
          ap (λ b. if b then delete (canonical r.name) h else set (canonical r.name)) gone
          ∙ ap (λ z. delete z h) c in
        (
          ap (lookup key) e ∙ ground (arith, lookup-delete r.name key h d, gone),
          subst Distinct (sym e) (keep-Distinct (λ j v. not (text_eq r.name j)) h d),
        )
    | inr stays ↦
        let e : apply_rule canonical r h ≡ set r.name =
          ap (λ b. if b then delete (canonical r.name) h else set (canonical r.name)) stays
          ∙ ap set c in
        (
          ap (lookup key) e ∙ ground (arith, lookup-insert r.name key (r.value ∷ []) h, stays),
          subst Distinct (sym e) (insert-Distinct r.name (r.value ∷ []) h d),
        )
  ]
    where
      set : Text → Header
      set name = insert name (r.value ∷ []) h

  apply_rules-ruled :
      (seen : List Text) (rs : List HeaderRule) (key : Text) (h : Header)
      → Fine seen rs
      → AllCanonical rs
      → Distinct h
      → lookup key (apply_rules canonical rs h) ≡ ruled key rs h
  unfolding apply_rules
  apply_rules-ruled seen [] key h f c d = refl
  apply_rules-ruled seen (r ∷ rs) key h (_, _, f) (c, cs) d =
      let (here, d') = apply_rule-lookup r key h c d in
      let rest = apply_rules-ruled (r.name ∷ seen) rs key (apply_rule canonical r h) f cs d' in
      elim (Bool-cases (text_eq r.name key)) [
        | inl mine ↦
            let none_left : rule_for key rs ≡ none =
              seen-none key (r.name ∷ seen) rs (member-first r.name key seen mine) f in
            rest ∙ ground (arith, none_left, here, mine)
        | inr other ↦ elim (Option-cases (rule_for key rs)) [
          | inl e ↦ rest ∙ ground (arith, e, here, other)
          | inr (q, e) ↦ rest ∙ ground (arith, e, other)
        ]
      ]

  -- Rules that validation accepts, with names in canonical form, leave each field that they name with
  -- the rule's value alone, or without any where the rule removes it, and every other field as it
  -- was; among those are all of the list `protectedHeaders`.
  pub apply_rules-validated :
      (prefix : Text) (rules : List HeaderRule) (h : Header)
      → validate_rules prefix rules ≡ []
      → AllCanonical rules
      → Distinct h
      → (key : Text)
      → (lookup key (apply_rules canonical rules h) ≡ ruled key rules h)
        × (member (to_lower key) protected_headers ≡ true
            → lookup key (apply_rules canonical rules h) ≡ lookup key h)
  unfolding validate_rules
  apply_rules-validated prefix rules h ok c d key =
      let (_, reports) =
        append-empty (report_if (ltb 32 (length rules)) prefix) (rules_report prefix 0 [] rules)
          ok in
      let fine = report-Fine prefix 0 [] rules reports in
      let all = apply_rules-ruled [] rules key h fine c d in
      (all, (λ p. all ∙ ground (arith, protected-none key [] rules p fine)))
