-- ===== src/Proxy/Routing/Locations.antt =====
-- internal/proxy/routing.go, `route.pick` and `route.poolFor`: which location serves a path.
use ponz_proxy.Prelude.{
  ℕ, ◌≤◌, ◌≡◌, refl, subst, ◌⊎◌, inl, inr, true, false, Option, none, some, List, [], ◌∷◌, map,
  arith, ltb, length, Option-cases, Bool-cases,
}
use ponz_proxy.Prelude.Text.{Text}
use ponz_proxy.Balancer.Pool.{new_pool}
use ponz_proxy.Proxy.Routing.Prefix.{matches}
use ponz_proxy.Proxy.Routing.{
  Host, Mounted, Route, pick, serving, place, longest_first, pool_for, mount, route_of,
}

-- Every location that claims the path has a path of at most `n` bytes.
abbrev pub Shorter : Text → ℕ → List Mounted → Type 0
Shorter path n [] = Unit {0}
Shorter path n (l ∷ ls) =
    ((matches l.config path ≡ false) ⊎ (length l.config.path ≤ n)) × Shorter path n ls

abbrev pub Unclaimed : Text → List Mounted → Type 0
Unclaimed path [] = Unit {0}
Unclaimed path (l ∷ ls) = (matches l.config path ≡ false) × Unclaimed path ls

abbrev pub Among : Mounted → List Mounted → Type 0
Among l [] = ⊥
Among l (k ∷ ks) = (l ≡ k) ⊎ Among l ks

abbrev Below : ℕ → List Mounted → Type 0
Below n [] = Unit {0}
Below n (l ∷ ls) = (length l.config.path ≤ n) × Below n ls

abbrev Sorted : List Mounted → Type 0
Sorted [] = Unit {0}
Sorted (l ∷ ls) = Below (length l.config.path) ls × Sorted ls

Below-mono : (m n : ℕ) (ls : List Mounted) → m ≤ n → Below m ls → Below n ls
Below-mono m n [] h b = tt
Below-mono m n (l ∷ ls) h (b, bs) = (omega arith, Below-mono m n ls h bs)

place-Below :
    (n : ℕ) (l : Mounted) (ls : List Mounted)
    → length l.config.path ≤ n
    → Below n ls
    → Below n (place l ls)
unfolding place
place-Below n l [] h b = (h, tt)
place-Below n l (k ∷ ks) h (b, bs) = ground (arith, h, b, bs, place-Below n l ks h bs)

place-Sorted : (l : Mounted) (ls : List Mounted) → Sorted ls → Sorted (place l ls)
unfolding place
place-Sorted l [] s = (tt, tt)
place-Sorted l (k ∷ ks) (b, s) =
    elim (Bool-cases (ltb (length l.config.path) (length k.config.path))) [
      | inl e ↦
          rw (e, place)
            (place-Below (length k.config.path) l ks (ground (arith, e)) b, place-Sorted l ks s)
      | inr e ↦
          rw (e, place)
            (
              (
                ground (arith, e),
                Below-mono (length k.config.path) (length l.config.path) ks (ground (arith, e)) b,
              ),
              (b, s),
            )
    ]

longest_first-Sorted : (ls : List Mounted) → Sorted (longest_first ls)
unfolding longest_first
longest_first-Sorted [] = tt
longest_first-Sorted (l ∷ ls) = place-Sorted l (longest_first ls) (longest_first-Sorted ls)

-- The order of the list plays no part in the two predicates.
place-Shorter :
    (path : Text) (n : ℕ) (l : Mounted) (ls : List Mounted)
    → Shorter path n (place l ls)
    → Shorter path n (l ∷ ls)
unfolding place
place-Shorter path n l [] h = h
place-Shorter path n l (k ∷ ks) h = ground (arith, h, place-Shorter path n l ks)

longest_first-Shorter :
    (path : Text) (n : ℕ) (ls : List Mounted)
    → Shorter path n (longest_first ls)
    → Shorter path n ls
unfolding longest_first
longest_first-Shorter path n [] h = tt
longest_first-Shorter path n (l ∷ ls) h =
    let (here, rest) = place-Shorter path n l (longest_first ls) h in
    (here, longest_first-Shorter path n ls rest)

place-Unclaimed :
    (path : Text) (l : Mounted) (ls : List Mounted)
    → Unclaimed path (place l ls)
    → Unclaimed path (l ∷ ls)
unfolding place
place-Unclaimed path l [] h = h
place-Unclaimed path l (k ∷ ks) h = ground (arith, h, place-Unclaimed path l ks)

longest_first-Unclaimed :
    (path : Text) (ls : List Mounted) → Unclaimed path (longest_first ls) → Unclaimed path ls
unfolding longest_first
longest_first-Unclaimed path [] h = tt
longest_first-Unclaimed path (l ∷ ls) h =
    let (here, rest) = place-Unclaimed path l (longest_first ls) h in
    (here, longest_first-Unclaimed path ls rest)

place-Among : (k l : Mounted) (ls : List Mounted) → Among k (place l ls) → Among k (l ∷ ls)
unfolding place
place-Among k l [] h = h
place-Among k l (j ∷ js) h = elim (Bool-cases (ltb (length l.config.path) (length j.config.path))) [
  | inl e ↦ swap (place-Among k l js) (subst (Among k) {y = j ∷ place l js} (rw (e, place) refl) h)
  | inr e ↦ subst (Among k) {y = l ∷ j ∷ js} (rw (e, place) refl) h
]
  where
    swap :
        (Among k (place l js) → Among k (l ∷ js)) → Among k (j ∷ place l js) → Among k (l ∷ j ∷ js)
    swap rest (inl e) = inr (inl e)
    swap rest (inr m) = elim (rest m) [ inl e ↦ inl e | inr n ↦ inr (inr n) ]

longest_first-Among : (k : Mounted) (ls : List Mounted) → Among k (longest_first ls) → Among k ls
unfolding longest_first
longest_first-Among k [] h = h
longest_first-Among k (l ∷ ls) h = elim (place-Among k l (longest_first ls) h) [
  | inl e ↦ inl e
  | inr m ↦ inr (longest_first-Among k ls m)
]

Below-Shorter : (path : Text) (n : ℕ) (ls : List Mounted) → Below n ls → Shorter path n ls
Below-Shorter path n [] b = tt
Below-Shorter path n (l ∷ ls) (b, bs) = (inr b, Below-Shorter path n ls bs)

-- What a scan of the sorted locations finds.
abbrev pub Found : Text → List Mounted → Option Mounted → Type 0
Found path ls none = Unclaimed path ls
Found path ls (some l) =
    Among l ls × (matches l.config path ≡ true) × Shorter path (length l.config.path) ls

pick-Found : (path : Text) (ls : List Mounted) → Sorted ls → Found path ls (pick path ls)
unfolding pick
pick-Found path [] s = tt
pick-Found path (l ∷ ls) (b, s) = elim (Bool-cases (matches l.config path)) [
  | inl e ↦
      rw (e, pick)
        (inl refl, e, (inr (omega arith), Below-Shorter path (length l.config.path) ls b))
  | inr e ↦ rw (e, pick) (later (pick path ls) e (pick-Found path ls s))
]
  where
    later :
        (o : Option Mounted)
        → matches l.config path ≡ false
        → Found path ls o
        → Found path (l ∷ ls) o
    later none e h = (e, h)
    later (some k) e (m, c, h) = (inr m, c, (inl e, h))

sorted-Found :
    (path : Text) (ls : List Mounted) (o : Option Mounted)
    → Found path (longest_first ls) o
    → Found path ls o
sorted-Found path ls none h = longest_first-Unclaimed path ls h
sorted-Found path ls (some l) (m, c, h) =
    (longest_first-Among l ls m, c, longest_first-Shorter path (length l.config.path) ls h)

-- A path is served by the location that claims it and has the longest path, in whatever order the
-- host lists its locations, or by the host's own pool if no location claims it.
pub serving-Found :
    (path : Text) (h : Host) (prev : List Route)
    → let r = serving path (route_of h prev) in
      Found path (map (mount h prev) h.locations) r.1
      × (r.0 ≡ (elim r.1 [
        | none ↦ new_pool h.id h.algorithm h.upstreams (pool_for h.id prev)
        | some l ↦ l.pool
      ]))
unfolding serving route_of
serving-Found path h prev =
    let ls = map (mount h prev) h.locations in
    let sorted = longest_first ls in
    let found =
      sorted-Found path ls (pick path sorted) (pick-Found path sorted (longest_first-Sorted ls)) in
    elim (Option-cases (pick path sorted)) [
      | inl e ↦ rw (e, serving) (subst (Found path ls) e found, refl)
      | inr (l, e) ↦ rw (e, serving) (subst (Found path ls) e found, refl)
    ]
