-- ===== src/Proxy/Routing/Exact.antt =====
-- internal/proxy/routing.go, `routingTable.lookup`: an exact name is found before any wildcard.
use ponz_proxy.Prelude.{
  ◌≡◌, refl, sym, ap, subst, ◌∙◌, ◌⊎◌, inl, inr, true, false, none, some, List, [], ◌∷◌, ◌++◌,
  arith, ◌==◌, if◌then◌else◌, length, Option-cases, Bool-cases,
}
use ponz_proxy.Prelude.Text.{Text, text_eq, text_eq_iff}
use ponz_proxy.Prelude.Strings.{cut_prefix}
use ponz_proxy.Prelude.Maps.{lookup, insert, lookup-insert}
use ponz_proxy.Proxy.Routing.{
  Host, Route, Table, star, enter, add_host, add_hosts, empty_table, build_routing_table, route_of,
  lookup_name,
}
use ponz_proxy.Proxy.Routing.Hosts.{Listed, Owns, either, exact-Owns}

abbrev Known : Text → Table → Type 0
Known d t = (r : Route) × (lookup d t.exact ≡ some r)

insert-Known :
    (d k : Text) (r : Route) (t : Table)
    → (d ≡ k) ⊎ Known d t
    → Known d (record t { exact = insert k r t.exact })
insert-Known d k r t h = elim (Bool-cases (text_eq k d)) [
  | inl e ↦ (r, ground (arith, lookup-insert k d r t.exact, e))
  | inr e ↦ elim h [
    | inl q ↦ ground (arith, text_eq_iff k d, q, e)
    | inr (x, g) ↦ (x, ground (arith, lookup-insert k d r t.exact, e, g))
  ]
]

enter-Known :
    (d : Text) (r : Route) (ds : List Text) (t : Table)
    → cut_prefix d star ≡ none
    → Listed d ds ⊎ Known d t
    → Known d (enter r ds t)
unfolding enter
enter-Known d r [] t plain (inl m) = absurd m
enter-Known d r [] t plain (inr k) = k
enter-Known d r (e ∷ ds) t plain h = elim (Option-cases (cut_prefix e star)) [
  | inl n ↦
      rw (n, enter) (enter-Known d r ds (record t { exact = insert e r t.exact }) plain (exact h))
  | inr (parent, n) ↦
      rw (n, enter)
        (enter-Known d r ds (record t { wildcard = insert parent r t.wildcard }) plain
          (other parent n h))
]
  where
    exact :
        Listed d (e ∷ ds) ⊎ Known d t
        → Listed d ds ⊎ Known d (record t { exact = insert e r t.exact })
    exact (inl (inl q)) = inr (insert-Known d e r t (inl q))
    exact (inl (inr m)) = inl m
    exact (inr k) = inr (insert-Known d e r t (inr k))

    other :
        (parent : Text)
        → cut_prefix e star ≡ some parent
        → Listed d (e ∷ ds) ⊎ Known d t
        → Listed d ds ⊎ Known d t
    other parent n (inl (inl q)) = ground (arith, n, plain, ap (λ x. cut_prefix x star) q)
    other parent n (inl (inr m)) = inl m
    other parent n (inr k) = inr k

add_host-Known :
    (d : Text) (prev : List Route) (h : Host) (t : Table)
    → cut_prefix d star ≡ none
    → ((h.enabled ≡ true) × Listed d h.domains) ⊎ Known d t
    → Known d (add_host prev h t)
unfolding add_host
add_host-Known d prev h t plain k =
    let r = route_of h prev in
    let t' = record t { routes = t.routes ++ (r ∷ []) } in
    elim k [
      | inl (e, m) ↦
          subst (λ b. Known d (if b then enter r h.domains t' else t')) (sym e)
            (enter-Known d r h.domains t' plain (inl m))
      | inr k ↦
          either (Known d) h.enabled (enter r h.domains t') t'
            (λ e. enter-Known d r h.domains t' plain (inr k)) k
    ]

add_hosts-Known :
    (d : Text) (h : Host) (prev : List Route) (hs : List Host) (t : Table)
    → cut_prefix d star ≡ none
    → Owns d h hs ⊎ Known d t
    → Known d (add_hosts prev hs t)
unfolding add_hosts
add_hosts-Known d h prev [] t plain (inl o) = absurd o
add_hosts-Known d h prev [] t plain (inr k) = k
add_hosts-Known d h prev (j ∷ hs) t plain o =
    add_hosts-Known d h prev hs (add_host prev j t) plain (next o)
  where
    next : Owns d h (j ∷ hs) ⊎ Known d t → Owns d h hs ⊎ Known d (add_host prev j t)
    next (inl (inl (q, e, m))) = inr (
        add_host-Known d prev j t plain
          (inl (ap (λ x. x.enabled) (sym q) ∙ e, subst (λ x. Listed d x.domains) q m)))
    next (inl (inr m)) = inl m
    next (inr k) = inr (add_host-Known d prev j t plain (inr k))

-- A name that some enabled host lists is answered for by an enabled host that lists it, whatever
-- the wildcards.
pub lookup_name-exact :
    (hosts : List Host) (prev : List Route) (name : Text) (h : Host)
    → cut_prefix name star ≡ none
    → (length name == 0) ≡ false
    → Owns name h hosts
    → (r : Route) × (lookup_name name (build_routing_table hosts prev) ≡ some r)
      × Owns name r.host hosts
unfolding lookup_name build_routing_table
lookup_name-exact hosts prev name h plain n o =
    let (r, g) = add_hosts-Known name h prev hosts empty_table plain (inl o) in
    (r, rw (n, g, lookup_name, build_routing_table) refl, exact-Owns hosts prev name r g)
