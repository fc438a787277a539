-- ===== src/Balancer/Pool/Reload.antt =====
-- internal/balancer/pool.go, `NewPool`: what a configuration change keeps.
use ponz_proxy.Prelude.{
  ℕ, zero, suc, ◌≡◌, refl, sym, subst, ◌∙◌, ◌⊎◌, inl, inr, Option, none, some, List, [], ◌∷◌, map,
  arith, get_elem?, if◌then◌else◌, Option-cases,
}
use ponz_proxy.Prelude.Int.{pos}
use ponz_proxy.Prelude.Text.{Text, text_eq}
use ponz_proxy.Prelude.Maps
use ponz_proxy.Prelude.Maps.{lookup, lookup-insert}
use ponz_proxy.Balancer.Backend.{
  Backend, Upstream, new_backend, inherit_from, backend_key, available,
}
use ponz_proxy.Balancer.Selector.{Algorithm}
use ponz_proxy.Balancer.Pool.{Pool, inherited, build, previous, new_pool}

-- The last backend of the list with the given key.
pub last_with_key : Text → List Backend → Option Backend
last_with_key k [] = none
last_with_key k (b ∷ bs) = elim (last_with_key k bs) [
  | some d ↦ some d
  | none ↦ if text_eq b.key k then some b else none
]

inherited-lookup :
    (k : Text) (bs : List Backend) (m : List (Text × Backend))
    → lookup k (inherited bs m) ≡ elim (last_with_key k bs) [ some d ↦ some d | none ↦ lookup k m ]
unfolding inherited last_with_key
inherited-lookup k [] m = refl
inherited-lookup k (b ∷ bs) m =
    ground (arith, inherited-lookup k bs (Maps.insert b.key b m), lookup-insert b.key k b m)

-- What traffic has taught the proxy about a backend, and how much of it is in flight.
abbrev pub Inherits : Backend → Backend → Type 0
Inherits b old =
    (b.healthy ≡ old.healthy)
    × (b.total_requests ≡ old.total_requests)
    × (b.total_latency ≡ old.total_latency)
    × (b.last_error ≡ old.last_error)
    × (b.consecutive_ok ≡ old.consecutive_ok)
    × (b.consecutive_fail ≡ old.consecutive_fail)
    × (b.ejected_until ≡ old.ejected_until)
    × (b.proxy_fails ≡ old.proxy_fails)
    × (b.active_conns ≡ pos 0)
    × (b.current_weight ≡ pos 0)

-- The backend of the previous pool, if any, that addresses the same upstream.
abbrev pub carried : Option Pool → Text → Option Backend
carried none k = none
carried (some p) k = last_with_key k p.backends

previous-lookup : (prev : Option Pool) (k : Text) → lookup k (previous prev) ≡ carried prev k
unfolding lookup
previous-lookup none k = refl
previous-lookup (some p) k =
    ground (arith, inherited-lookup k p.backends [], Option-cases (last_with_key k p.backends))

-- A backend of the new pool: fresh, or the heir of the one that it replaces.
abbrev pub Rebuilt : Option Pool → Upstream → Backend → Type 0
Rebuilt prev u b =
    (b.upstream ≡ u)
    × (b.key ≡ backend_key u)
    × (((carried prev b.key ≡ none) × (b ≡ new_backend u))
        ⊎ ((old : Backend) × (carried prev b.key ≡ some old)
            × Inherits b old
            × ((now : ℕ) → available b now ≡ available old now)))

build-Rebuilt : (prev : Option Pool) (u : Upstream) → Rebuilt prev u (build (previous prev) u)
unfolding build inherit_from new_backend available
build-Rebuilt prev u = elim (Option-cases (lookup (backend_key u) (previous prev))) [
  | inl g ↦ rw (g, build) (refl, refl, inl (sym (previous-lookup prev (backend_key u)) ∙ g, refl))
  | inr (old, g) ↦
      rw (g, build)
        (
          refl,
          refl,
          inr (
            old,
            sym (previous-lookup prev (backend_key u)) ∙ g,
            (refl, refl, refl, refl, refl, refl, refl, refl, refl, refl),
            λ now. refl,
          ),
        )
]

map-get_elem? :
    (us : List Upstream) (m : List (Text × Backend)) (n : ℕ) (b : Backend)
    → get_elem? (map (build m) us) n ≡ some b
    → (u : Upstream) × (get_elem? us n ≡ some u) × (build m u ≡ b)
map-get_elem? [] m n b e = cc
map-get_elem? (u ∷ us) m zero b e = (u, refl, cc)
map-get_elem? (u ∷ us) m (suc n) b e = map-get_elem? us m n b e

-- Each backend of a new pool addresses the upstream at its position. It is fresh if the previous
-- pool had no backend with its key; otherwise it has that backend's health, streaks, ejection,
-- error and totals, is available at exactly the same times, and starts with no request in flight
-- and no score.
pub new_pool-Rebuilt :
    (host_id : ℕ) (algorithm : Algorithm) (us : List Upstream) (prev : Option Pool) (n : ℕ)
    (b : Backend)
    → get_elem? (new_pool host_id algorithm us prev).backends n ≡ some b
    → (u : Upstream) × (get_elem? us n ≡ some u) × Rebuilt prev u b
unfolding new_pool
new_pool-Rebuilt host_id algorithm us prev n b e =
    let (u, g, q) = map-get_elem? us (previous prev) n b e in
    (u, g, subst (Rebuilt prev u) q (build-Rebuilt prev u))
