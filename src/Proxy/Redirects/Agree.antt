-- ===== src/Proxy/Redirects/Agree.antt =====
-- internal/proxy/routing.go and internal/domain/redirect.go: `lookupRedirect` and `MatchesDomain`.
use ponz_proxy.Prelude.{
  ◌≡◌, ◌≢◌, refl, sym, ap, subst, ◌∙◌, ◌⊎◌, inl, inr, Bool, true, false, ◌&&◌, ◌||◌, none, some,
  List, [], ◌∷◌, ◌++◌, arith, if◌then◌else◌, Bool-cases, Option-cases,
}
use ponz_proxy.Prelude.Text.{Text, codes, text_eq, text_eq_iff}
use ponz_proxy.Prelude.Strings.{cut_prefix, cut_prefix_iff, cut}
use ponz_proxy.Prelude.Maps.{lookup, insert, lookup-insert}
use ponz_proxy.Domain.Redirect.{Redirect, star_dot, domain_covers, any_covers}
use ponz_proxy.Proxy.Redirects.{
  Redirects, no_redirects, enter_domain, enter_domains, enter_redirects, redirect_of,
}

-- Entering one domain changes the answer only for names that the domain covers, and there is an
-- answer for those afterwards, which is the new one or the old one.
abbrev Entered : Redirect → Text → Text → Redirects → Redirects → Type 0
Entered r d name t u =
    ((redirect_of name u ≡ some r) × (domain_covers d name ≡ true))
    ⊎ ((redirect_of name u ≡ redirect_of name t)
        × ((domain_covers d name ≡ false) ⊎ (redirect_of name t ≢ none)))

cut_star : (parent : Text) → cut (star_dot ++ parent) 46 ≡ some (codes "*", parent)
unfolding cut
cut_star parent = refl

itself :
    (d parent name : Text)
    → cut_prefix d star_dot ≡ some parent
    → text_eq d name ≡ true
    → cut name 46 ≡ some (codes "*", parent)
itself d parent name e same =
    let name_is : name ≡ star_dot ++ parent =
      sym ((text_eq_iff d name).0 same) ∙ (cut_prefix_iff d star_dot parent).0 e in
    ap (λ z. cut z 46) name_is ∙ cut_star parent

enter_exact :
    (r : Redirect) (d name : Text) (t : Redirects)
    → cut_prefix d star_dot ≡ none
    → Entered r d name t (record t { exact = insert d r t.exact })
unfolding redirect_of domain_covers
enter_exact r d name t e = elim (Bool-cases (text_eq d name)) [
  | inl same ↦ inl (ground (arith, same, lookup-insert d name r t.exact), ground (arith, same))
  | inr other ↦
      inr (ground (arith, other, lookup-insert d name r t.exact), inl (ground (arith, other, e)))
]

enter_wildcard :
    (r : Redirect) (d parent name : Text) (t : Redirects)
    → cut_prefix d star_dot ≡ some parent
    → Entered r d name t (record t { wildcard = insert parent r t.wildcard })
unfolding redirect_of domain_covers
enter_wildcard r d parent name t e = elim (Option-cases (lookup name t.exact)) [
  | inr (q, f) ↦ inr (ground (arith, f), inr (λ n. ground (arith, n, f)))
  | inl f ↦ elim (Option-cases (cut name 46)) [
    | inl g ↦ inr (ground (arith, f, g), inl (ground (arith, e, g, itself d parent name e)))
    | inr ((label, above), g) ↦ elim (Bool-cases (text_eq above parent)) [
      | inl here ↦ inl (
        ground (
          arith,
          f,
          g,
          here,
          text_eq_iff above parent,
          text_eq_iff parent above,
          lookup-insert parent above r t.wildcard,
        ),
        ground (arith, e, g, here),
      )
      | inr apart ↦ inr (
        ground (
          arith,
          f,
          g,
          apart,
          text_eq_iff above parent,
          text_eq_iff parent above,
          lookup-insert parent above r t.wildcard,
        ),
        inl (grind (arith, e, g, apart, itself d parent name e, text_eq_iff above parent)),
      )
    ]
  ]
]

enter_domain-Entered :
    (r : Redirect) (d name : Text) (t : Redirects) → Entered r d name t (enter_domain r d t)
unfolding enter_domain
enter_domain-Entered r d name t = elim (Option-cases (cut_prefix d star_dot)) [
  | inl e ↦ subst (Entered r d name t) (sym (as_exact e)) (enter_exact r d name t e)
  | inr (parent, e) ↦
      subst (Entered r d name t) (sym (as_wildcard parent e)) (enter_wildcard r d parent name t e)
]
  where
    as_exact :
        cut_prefix d star_dot ≡ none → enter_domain r d t ≡ record t { exact = insert d r t.exact }
    as_exact e = rw (enter_domain, e) refl

    as_wildcard :
        (parent : Text)
        → cut_prefix d star_dot ≡ some parent
        → enter_domain r d t ≡ record t { wildcard = insert parent r t.wildcard }
    as_wildcard parent e = rw (enter_domain, e) refl

-- An answer of the table is one of the redirects `P` speaks of, and there is one for a name that
-- `b` says is covered.
abbrev Answers : (Redirect → Type 0) → Text → Bool → Redirects → Type 0
Answers P name b t =
    ((redirect_of name t ≡ none) × (b ≡ false))
    ⊎ ((r : Redirect) × (redirect_of name t ≡ some r) × (b ≡ true) × P r)

enter_domain-Answers :
    (P : Redirect → Type 0) (r : Redirect) (d name : Text) (b : Bool) (t : Redirects)
    → (domain_covers d name ≡ true → P r)
    → Answers P name b t
    → Answers P name (b || domain_covers d name) (enter_domain r d t)
enter_domain-Answers P r d name b t new old = elim (enter_domain-Entered r d name t) [
  | inl (e, covers) ↦ inr (r, e, ground (arith, covers), new covers)
  | inr (e, why) ↦ elim old [
    | inr (q, f, covered, p) ↦ inr (q, e ∙ f, ground (arith, covered), p)
    | inl (missing, bare) ↦ elim why [
      | inl uncovered ↦ inl (e ∙ missing, ground (arith, bare, uncovered))
      | inr there ↦ absurd (there missing)
    ]
  ]
]

or_assoc : (a b c : Bool) → ((a || b) || c) ≡ (a || (b || c))
or_assoc a b c = ground arith

enter_domains-Answers :
    (P : Redirect → Type 0) (r : Redirect) (ds : List Text) (name : Text) (b : Bool) (t : Redirects)
    → (any_covers name ds ≡ true → P r)
    → Answers P name b t
    → Answers P name (b || any_covers name ds) (enter_domains r ds t)
unfolding enter_domains any_covers
enter_domains-Answers P r [] name b t new old = subst (λ z. Answers P name z t) (ground arith) old
enter_domains-Answers P r (d ∷ ds) name b t new old =
    subst (λ z. Answers P name z (enter_domains r ds (enter_domain r d t)))
      (or_assoc b (domain_covers d name) (any_covers name ds))
      (enter_domains-Answers P r ds name (b || domain_covers d name) (enter_domain r d t)
        (λ c. new (ground (arith, c)))
        (enter_domain-Answers P r d name b t (λ c. new (ground (arith, c))) old))

-- Some enabled redirect has a domain that covers the name.
abbrev pub answered : Text → List Redirect → Bool
answered name [] = false
answered name (r ∷ rs) = (r.enabled && any_covers name r.domains) || answered name rs

abbrev pub Among : Redirect → List Redirect → Type 0
Among r [] = ⊥
Among r (q ∷ qs) = (r ≡ q) ⊎ Among r qs

enter_redirects-Answers :
    (P : Redirect → Type 0) (rs : List Redirect) (name : Text) (b : Bool) (t : Redirects)
    → ((r : Redirect) → Among r rs → r.enabled ≡ true → any_covers name r.domains ≡ true → P r)
    → Answers P name b t
    → Answers P name (b || answered name rs) (enter_redirects rs t)
unfolding enter_redirects
enter_redirects-Answers P [] name b t new old = subst (λ z. Answers P name z t) (ground arith) old
enter_redirects-Answers P (r ∷ rs) name b t new old =
    subst (λ z. Answers P name z (enter_redirects rs entered))
      (or_assoc b (r.enabled && any_covers name r.domains) (answered name rs))
      (enter_redirects-Answers P rs name (b || (r.enabled && any_covers name r.domains)) entered
        (λ q m. new q (inr m)) (go r.enabled refl))
  where
    entered : Redirects
    entered = if r.enabled then enter_domains r r.domains t else t

    go :
        (e : Bool)
        → r.enabled ≡ e
        → Answers P name
            (b || (e && any_covers name r.domains))
            (if e then enter_domains r r.domains t else t)
    go true e = enter_domains-Answers P r r.domains name b t (new r (inl refl) e) old
    go false e = subst (λ z. Answers P name z t) (ground arith) old

redirect_of-empty : (name : Text) → redirect_of name no_redirects ≡ none
unfolding redirect_of lookup
redirect_of-empty name = elim (Option-cases (cut name 46)) [
  | inl e ↦ ground (arith, e)
  | inr ((label, parent), e) ↦ ground (arith, e)
]

-- For a name, the tables of the redirects have an answer exactly if some enabled redirect answers
-- for it by the rule of `MatchesDomain`, and the answer is such a redirect.
pub redirect_of-answered :
    (rs : List Redirect) (name : Text)
    → let found = redirect_of name (enter_redirects rs no_redirects) in
      ((found ≡ none) × (answered name rs ≡ false))
      ⊎ ((r : Redirect) × (found ≡ some r)
          × (answered name rs ≡ true)
          × (Among r rs × (r.enabled ≡ true) × (any_covers name r.domains ≡ true)))
redirect_of-answered rs name =
    enter_redirects-Answers
      (λ r. Among r rs × (r.enabled ≡ true) × (any_covers name r.domains ≡ true)) rs name false
      no_redirects (λ r m e c. (m, e, c)) (inl (redirect_of-empty name, refl))
