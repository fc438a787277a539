-- ===== src/Proxy/Routing/Hosts.antt =====
-- internal/proxy/routing.go, `routingTable.lookup`: which host answers a name.
use ponz_proxy.Prelude.{
  ◌≡◌, refl, sym, ap, subst, ◌∙◌, ◌⊎◌, inl, inr, Bool, true, false, Option, none, some, List, [],
  ◌∷◌, ◌++◌, arith, ◌==◌, if◌then◌else◌, length, Option-cases, Bool-cases,
}
use ponz_proxy.Prelude.Text.{Text, text_eq, text_eq_iff}
use ponz_proxy.Prelude.Strings.{cut_prefix, cut_prefix_iff, cut, cut_lem, Lacks}
use ponz_proxy.Prelude.Maps.{lookup, insert, lookup-insert}
use ponz_proxy.Proxy.Routing.{
  Host, Route, Table, star, enter, add_host, add_hosts, empty_table, build_routing_table, route_of,
  lookup_name,
}

-- Some enabled host of the list has the domain.
abbrev pub Listed : Text → List Text → Type 0
Listed d [] = ⊥
Listed d (e ∷ ds) = (d ≡ e) ⊎ Listed d ds

abbrev pub Owns : Text → Host → List Host → Type 0
Owns d h [] = ⊥
Owns d h (k ∷ ks) = ((h ≡ k) × (h.enabled ≡ true) × Listed d h.domains) ⊎ Owns d h ks

-- An entry of a table stands for a domain that its host has.
abbrev Backed : List Host → Table → Type 0
Backed hs t =
    ((d : Text) (r : Route) → lookup d t.exact ≡ some r → Owns d r.host hs)
    × ((d : Text) (r : Route) → lookup d t.wildcard ≡ some r → Owns (star ++ d) r.host hs)

some-eq : (r q : Route) → some r ≡ some q → r ≡ q
some-eq r q e = ap (from r) e
  where
    from : Route → Option Route → Route
    from d none = d
    from d (some x) = x

insert-Owns :
    (hs : List Host) (f : Text → Text) (r : Route) (k x : Text) (q : Route)
    (m : List (Text × Route))
    → Owns (f k) r.host hs
    → ((y : Text) (p : Route) → lookup y m ≡ some p → Owns (f y) p.host hs)
    → lookup x (insert k r m) ≡ some q
    → Owns (f x) q.host hs
insert-Owns hs f r k x q m o h g = elim (Bool-cases (text_eq k x)) [
  | inl e ↦
      subst (λ y. Owns (f y) q.host hs) ((text_eq_iff k x).0 e)
        (subst (λ p. Owns (f k) p.host hs) (some-eq r q (sym (hit e) ∙ g)) o)
  | inr e ↦ h x q (sym (miss e) ∙ g)
]
  where
    hit : text_eq k x ≡ true → lookup x (insert k r m) ≡ some r
    hit e = ground (arith, lookup-insert k x r m, e)

    miss : text_eq k x ≡ false → lookup x (insert k r m) ≡ lookup x m
    miss e = ground (arith, lookup-insert k x r m, e)

enter-Backed :
    (hs : List Host) (r : Route) (ds : List Text) (t : Table)
    → ((d : Text) → Listed d ds → Owns d r.host hs)
    → Backed hs t
    → Backed hs (enter r ds t)
unfolding enter
enter-Backed hs r [] t own b = b
enter-Backed hs r (d ∷ ds) t own (b, c) = elim (Option-cases (cut_prefix d star)) [
  | inl e ↦
      rw (e, enter)
        (enter-Backed hs r ds (record t { exact = insert d r t.exact }) (λ x m. own x (inr m))
          (λ x q g. insert-Owns hs (λ y. y) r d x q t.exact (own d (inl refl)) b g, c))
  | inr (parent, e) ↦
      rw (e, enter)
        (enter-Backed hs r ds (record t { wildcard = insert parent r t.wildcard })
          (λ x m. own x (inr m))
          (
            b,
            λ x q g.
                insert-Owns hs (λ y. star ++ y) r parent x q t.wildcard
                  (own (star ++ parent) (inl (sym ((cut_prefix_iff d star parent).0 e)))) c g,
          ))
]

-- `hs` grows to the right as the hosts are added.
Owns-append : (d : Text) (h : Host) (hs ks : List Host) → Owns d h hs → Owns d h (hs ++ ks)
Owns-append d h [] ks o = absurd o
Owns-append d h (k ∷ hs) ks (inl o) = inl o
Owns-append d h (k ∷ hs) ks (inr o) = inr (Owns-append d h hs ks o)

Owns-last :
    (d : Text) (h : Host) (hs : List Host)
    → h.enabled ≡ true
    → Listed d h.domains
    → Owns d h (hs ++ h ∷ [])
Owns-last d h [] e m = inl (refl, e, m)
Owns-last d h (k ∷ hs) e m = inr (Owns-last d h hs e m)

pub either :
    (P : Table → Type 0) (b : Bool) (t u : Table) → (b ≡ true → P t) → P u → P (if b then t else u)
either P true t u h k = h refl
either P false t u h k = k

add_host-Backed :
    (prev : List Route) (h : Host) (hs : List Host) (t : Table)
    → Backed hs t
    → Backed (hs ++ h ∷ []) (add_host prev h t)
unfolding add_host route_of
add_host-Backed prev h hs t (b, c) =
    let b' : (d : Text) (r : Route) → lookup d t.exact ≡ some r → Owns d r.host (hs ++ h ∷ []) =
      λ d r g. Owns-append d r.host hs (h ∷ []) (b d r g) in
    let c' : (d : Text) (r : Route)
        → lookup d t.wildcard ≡ some r
        → Owns (star ++ d) r.host (hs ++ h ∷ []) =
      λ d r g. Owns-append (star ++ d) r.host hs (h ∷ []) (c d r g) in
    let r = route_of h prev in
    let t' = record t { routes = t.routes ++ (r ∷ []) } in
    either (Backed (hs ++ h ∷ [])) h.enabled (enter r h.domains t') t'
      (λ e. enter-Backed (hs ++ h ∷ []) r h.domains t' (λ d m. Owns-last d h hs e m) (b', c'))
      (b', c')

append_assoc : (hs : List Host) (k : Host) (ks : List Host) → (hs ++ k ∷ []) ++ ks ≡ hs ++ k ∷ ks
append_assoc [] k ks = refl
append_assoc (h ∷ hs) k ks = ap (λ x. h ∷ x) (append_assoc hs k ks)

add_hosts-Backed :
    (prev : List Route) (ks hs : List Host) (t : Table)
    → Backed hs t
    → Backed (hs ++ ks) (add_hosts prev ks t)
unfolding add_hosts
add_hosts-Backed prev [] hs t b = subst (λ x. Backed x t) (sym (nil hs)) b
  where
    nil : (xs : List Host) → xs ++ [] ≡ xs
    nil [] = refl
    nil (x ∷ xs) = ap (λ y. x ∷ y) (nil xs)
add_hosts-Backed prev (k ∷ ks) hs t b =
    subst (λ x. Backed x (add_hosts prev ks (add_host prev k t))) (append_assoc hs k ks)
      (add_hosts-Backed prev ks (hs ++ k ∷ []) (add_host prev k t) (add_host-Backed prev k hs t b))

start : Backed [] empty_table
unfolding lookup
start = (λ d r g. ground (arith, g), λ d r g. ground (arith, g))

pub exact-Owns :
    (hosts : List Host) (prev : List Route) (name : Text) (r : Route)
    → lookup name (add_hosts prev hosts empty_table).exact ≡ some r
    → Owns name r.host hosts
exact-Owns hosts prev name r g = (add_hosts-Backed prev hosts [] empty_table start).0 name r g

-- A name is answered for by an enabled host that lists the name itself, or `*.` and what follows
-- the first dot of the name.
pub lookup_name-Owns :
    (hosts : List Host) (prev : List Route) (name : Text) (r : Route)
    → lookup_name name (build_routing_table hosts prev) ≡ some r
    → Owns name r.host hosts
      ⊎ ((label : Text) × (parent : Text) × (name ≡ label ++ 46 ∷ parent)
          × Lacks 46 label
          × Owns (star ++ parent) r.host hosts)
unfolding lookup_name build_routing_table
lookup_name-Owns hosts prev name r g =
    let t = build_routing_table hosts prev in
    let (b, c) = add_hosts-Backed prev hosts [] empty_table start in
    elim (Bool-cases (length name == 0)) [
      | inl e ↦ ground (arith, e, g)
      | inr e ↦ elim (Option-cases (lookup name t.exact)) [
        | inr (q, f) ↦ inl (b name r (ground (arith, e, f, g)))
        | inl f ↦ elim (Option-cases (cut name 46)) [
          | inl k ↦ ground (arith, e, f, g, k)
          | inr ((label, parent), k) ↦
              let (n, l) = cut_lem name 46 label parent k in
              inr (label, parent, n, l, c parent r (ground (arith, e, f, g, k)))
        ]
      ]
    ]
