-- ===== src/Balancer/Pool.antt =====
-- internal/balancer/pool.go: the backends of one host with their selection algorithm.
--
-- A pool's position in its slice stands for a backend's pointer. `Pick` returns the position, and
-- the pool as the selector leaves it.
pub mod Choice
pub mod Errors
pub mod Frame
pub mod Reload
pub mod Serving
use ponz_proxy.Prelude.{
  ℕ, suc, ◌+◌, ◌≡◌, refl, ◌⊎◌, inl, inr, Bool, true, false, not, ◌&&◌, ◌||◌, Option, none, some,
  List, [], ◌∷◌, map, ◌==◌, if◌then◌else◌, set,
}
use ponz_proxy.Prelude.Text.{Text}
use ponz_proxy.Prelude.Maps
use ponz_proxy.Balancer.Backend.{
  Backend, Upstream, new_backend, available, has_capacity, inherit_from,
}
use ponz_proxy.Balancer.Selector.{Algorithm, Selector, Candidate, Floats, new_selector, select}

pub record Pool : Type 0 where
  pub host_id : ℕ
  pub algorithm : Algorithm
  pub backends : List Backend
  pub selector : Selector

pub data PickError : Type 0 where
  no_backends no_healthy_backend : PickError

-- `nil_backend` is a nil pointer with no error.
pub data Pick : Type 0 where
  picked : ℕ → Pool → Pick
  nil_backend : Pick
  failed : PickError → Pick

pub Pick-cases :
    (x : Pick)
    → ((e : PickError) × (x ≡ failed e))
      ⊎ (x ≡ nil_backend)
      ⊎ ((i : ℕ) × (p : Pool) × (x ≡ picked i p))
Pick-cases (failed e) = inl (e, refl)
Pick-cases nil_backend = inr (inl refl)
Pick-cases (picked i p) = inr (inr (i, p, refl))

unfoldable pub contains_backend : List ℕ → ℕ → Bool
contains_backend [] i = false
contains_backend (x ∷ xs) i = x == i || contains_backend xs i

unfoldable pub eligible : List ℕ → ℕ → ℕ → Backend → Bool
eligible exclude now i b = available b now && (has_capacity b && not (contains_backend exclude i))

-- The loop of `Pick`: how many backends are enabled, and the candidates.
unfoldable pub gather : List ℕ → ℕ → ℕ → List Backend → ℕ × List Candidate
gather exclude now i [] = (0, [])
gather exclude now i (b ∷ bs) =
    let (enabled, cs) = gather exclude now (suc i) bs in
    if not b.upstream.enabled
    then (enabled, cs)
    else if not (eligible exclude now i b)
    then (suc enabled, cs)
    else (suc enabled, (i, b) ∷ cs)

-- A selector writes through the candidates' pointers.
unfoldable pub write_back : List Candidate → List Backend → List Backend
write_back [] bs = bs
write_back ((i, b) ∷ cs) bs = write_back cs (set bs i b)

module _ (hash : Text → ℕ) (fl : Floats) where
  unfoldable pub choose : Pool → List Candidate → Text → Pick
  choose p cs client_ip = elim (select hash fl p.selector cs client_ip) [
    | none ↦ nil_backend
    | some (i, cs', s) ↦ picked i (record p { backends = write_back cs' p.backends; selector = s })
  ]

  unfoldable pub pick : Pool → ℕ → Text → List ℕ → Pick
  pick p now client_ip exclude = elim p.backends [
    | [] ↦ failed no_backends
    | b ∷ bs ↦
        let (enabled, cs) = gather exclude now 0 (b ∷ bs) in
        if enabled == 0
        then failed no_backends
        else elim cs [ [] ↦ failed no_healthy_backend | c ∷ rest ↦ choose p (c ∷ rest) client_ip ]
  ]

-- The map of `NewPool`: a later backend with the same key replaces an earlier one.
unfoldable pub inherited : List Backend → List (Text × Backend) → List (Text × Backend)
inherited [] m = m
inherited (b ∷ bs) m = inherited bs (Maps.insert b.key b m)

unfoldable pub build : List (Text × Backend) → Upstream → Backend
build m u = elim (Maps.lookup (new_backend u).key m) [
  | none ↦ new_backend u
  | some old ↦ inherit_from (new_backend u) old
]

abbrev pub previous : Option Pool → List (Text × Backend)
previous none = []
previous (some p) = inherited p.backends []

unfoldable pub new_pool : ℕ → Algorithm → List Upstream → Option Pool → Pool
new_pool host_id algorithm upstreams prev = record {
  host_id = host_id;
  algorithm = algorithm;
  backends = map (build (previous prev)) upstreams;
  selector = new_selector algorithm;
}

-- `HealthyCount`: up and total.
unfoldable pub healthy_count : ℕ → List Backend → ℕ × ℕ
healthy_count now [] = (0, 0)
healthy_count now (b ∷ bs) =
    let (up, total) = healthy_count now bs in
    if not b.upstream.enabled
    then (up, total)
    else ((if available b now then suc up else up), suc total)
