-- ===== src/Balancer/Tests.antt =====
-- internal/balancer: tests, and the theorems at concrete inputs.
use ponz_proxy.Prelude.{
  ℕ, ◌*◌, ◌≡◌, refl, ◌↔◌, true, false, some, List, [], ◌∷◌, arith, ltb, get_elem?,
}
use ponz_proxy.Prelude.Int.{pos, negsuc, ◌+ℤ◌, ◌-ℤ◌}
use ponz_proxy.Prelude.Text.{Text, codes, text_eq}
use mathlib.Core.Option
use ponz_proxy.Prelude.Maps
use ponz_proxy.Balancer.Backend.{
  Upstream, Backend, PassiveHealth, new_backend, backend_key, available, has_capacity, inherit_from,
}
use ponz_proxy.Balancer.Backend.Probes.{up_after, probe_all, probe_all-healthy}
use ponz_proxy.Balancer.Backend.Ejection.{failures, failures-available}
use ponz_proxy.Balancer.Selector.{
  Candidate, Floats, Algorithm, weighted, hash_select, least_select, weighted_select, weighted_scan,
  raise, challenge, settle, least_scan, fewer, select, rotate, new_selector, hash_scan, higher,
  weighted_score, mix64,
}
use ponz_proxy.Balancer.Selector.Candidates.{without}
use ponz_proxy.Balancer.Selector.Rotation.{rotations, rotations_lap}
use ponz_proxy.Balancer.Selector.Least.{AllNoBetter, least_select-best}
use ponz_proxy.Balancer.Selector.Candidates.{In}
use ponz_proxy.Balancer.Selector.Rendezvous.{FloatOrder, hash_select-without}
use ponz_proxy.Balancer.Selector.Weighted.Rounds.{
  weighted_rounds, AllInShare, weighted_rounds-share,
}
use ponz_proxy.Balancer.Pool.{
  Pool, failed, picked, no_healthy_backend, pick, choose, gather, eligible, contains_backend,
  write_back, new_pool, build, inherited,
}
use ponz_proxy.Balancer.Pool.Choice.{MayServe, pick-MayServe}
use ponz_proxy.Balancer.Pool.Errors.{AllDisabled, NoneServes, pick-no_healthy_backend}
use ponz_proxy.Balancer.Pool.Serving.{pick-serves}
use ponz_proxy.Balancer.Pool.Reload.{Rebuilt, new_pool-Rebuilt}

-- Everything that a run of `Pick` computes with.
program : Unit {0}
unfolding new_backend available has_capacity choose pick gather eligible contains_backend write_back
    select rotate weighted_select weighted_scan raise challenge settle least_select least_scan fewer
    hash_select hash_scan higher weighted_score mix64 new_selector backend_key text_eq ◌+ℤ◌ ◌-ℤ◌
program = tt

abbrev up : Text → ℕ → Upstream
up address weight = record {
  id = 1;
  host_id = 1;
  scheme = codes "http";
  address = address;
  weight = weight;
  max_conns = 0;
  enabled = true;
  skip_tls_verify = false;
}

abbrev five : Backend
five = new_backend (up (codes "a:1") 5)

abbrev one : Backend
one = new_backend (up (codes "b:1") 1)

abbrev two : Backend
two = new_backend (up (codes "c:1") 1)

abbrev three_backends : List Candidate
three_backends = (0, five) ∷ (1, one) ∷ (2, two) ∷ []

-- Scores that are numbers.
abbrev numbers : Floats
numbers = record {
  Score = ℕ;
  neg_inf = 0;
  score = λ bits weight. bits * weight;
  gt = λ a b. ltb b a;
}

numbers-order : FloatOrder numbers
numbers-order = record {
  asym = λ a b h. ground arith;
  trans = λ a b c h k. ground arith;
  least = λ a. ground arith;
}

abbrev first_byte : Text → ℕ
first_byte [] = 0
first_byte (c ∷ s) = c

-- A A B A C A A, the newest first.
weighted_rounds_seven :
    Option.map (λ (r : List ℕ × List Candidate). r.0) (weighted_rounds 7 three_backends)
    ≡ some (0 ∷ 0 ∷ 2 ∷ 0 ∷ 1 ∷ 0 ∷ 0 ∷ [])
unfolding program weighted_rounds
weighted_rounds_seven = refl

weighted_rounds-share_example :
    (is : List ℕ) × (cs' : List Candidate) × (weighted_rounds 100 three_backends ≡ some (is, cs'))
    × AllInShare 7 3 100 is three_backends
unfolding new_backend
weighted_rounds-share_example =
    weighted_rounds-share three_backends 100 (omega arith) (refl, (refl, (refl, tt))) (omega arith)

rotations_lap_example : rotations 3 4 three_backends ≡ some (1 ∷ 2 ∷ 0 ∷ [], 7)
rotations_lap_example = rotations_lap three_backends 4 (omega arith) (omega arith)

least_select-best_example :
    (i : ℕ) × (b : Backend) × (least_select three_backends ≡ some i)
    × AllNoBetter b three_backends
    × In i b three_backends
least_select-best_example = least_select-best 0 five ((1, one) ∷ (2, two) ∷ [])

hash_select-without_example :
    hash_select first_byte numbers (without 1 three_backends) (codes "10.0.0.9") ≡ some 0
unfolding program
hash_select-without_example =
    hash_select-without first_byte numbers numbers-order three_backends (codes "10.0.0.9") 1 0 refl
      (omega arith)

probe_all-healthy_example :
    (probe_all 2 3 (new_backend five.upstream) (false ∷ false ∷ false ∷ true ∷ [])).healthy ≡ false
unfolding up_after
probe_all-healthy_example =
    probe_all-healthy 2 3 five.upstream (false ∷ false ∷ false ∷ true ∷ []) (omega arith)
      (omega arith)

abbrev passive : PassiveHealth
passive = record { enabled = true; max_fails = 3; eject_for = 30 }

failures-available_example :
    (available (failures five passive (10 ∷ 11 ∷ [])) 20 ≡ available five 20)
    × (available (failures five passive (10 ∷ 11 ∷ 12 ∷ [])) 20 ≡ false)
unfolding new_backend
failures-available_example = failures-available passive refl five (10 ∷ 11 ∷ []) 12 20 refl

abbrev pool : Pool
pool = record {
  host_id = 1;
  algorithm = Algorithm.weighted_round_robin;
  backends = five ∷ one ∷ two ∷ [];
  selector = weighted;
}

-- The pool once its second backend has been chosen by weight, the first having been tried.
abbrev pool_picked : Pool
pool_picked = record pool {
  backends =
      five ∷ record one { current_weight = negsuc 0 } ∷ record two { current_weight = pos 1 } ∷ [];
}

-- The first backend has been tried.
pick-MayServe_example :
    (b : Backend) × (get_elem? pool.backends 1 ≡ some b) × MayServe (0 ∷ []) 50 1 b
unfolding program
pick-MayServe_example = pick-MayServe first_byte numbers pool _ 50 (codes "x") (0 ∷ []) 1 refl

pick-serves_example :
    (i : ℕ) × (p : Pool) × (pick first_byte numbers pool 50 (codes "x") (0 ∷ []) ≡ picked i p)
unfolding program
pick-serves_example =
    pick-serves first_byte numbers pool 50 (codes "x") (0 ∷ []) 1 one (λ e. cc) refl
      (refl, refl, refl, refl)

abbrev idle_pool : Pool
idle_pool = record pool {
  backends = record five { upstream = record five.upstream { enabled = false } } ∷ [];
}

pick-no_healthy_backend_example :
    (pick first_byte numbers pool 50 (codes "x") (0 ∷ 1 ∷ 2 ∷ []) ≡ failed no_healthy_backend)
    ↔ ((¬ AllDisabled pool.backends) × NoneServes (0 ∷ 1 ∷ 2 ∷ []) 50 pool.backends)
pick-no_healthy_backend_example =
    pick-no_healthy_backend first_byte numbers pool 50 (codes "x") (0 ∷ 1 ∷ 2 ∷ [])

abbrev five_down : Backend
five_down = record five { healthy = false; consecutive_fail = 3; active_conns = pos 2 }

abbrev old_pool : Pool
old_pool = record pool { backends = one ∷ five_down ∷ [] }

new_pool-Rebuilt_example :
    (u : Upstream) × (get_elem? (five.upstream ∷ []) 0 ≡ some u)
    × Rebuilt (some old_pool) u (inherit_from five five_down)
unfolding program new_pool build inherited Maps.insert Maps.lookup inherit_from
new_pool-Rebuilt_example =
    new_pool-Rebuilt 1 Algorithm.ip_hash (five.upstream ∷ []) (some old_pool) 0 _ refl
