-- ===== src/Balancer/Selector.antt =====
-- internal/balancer/selector.go: the four load balancing algorithms.
--
-- A candidate is a backend with its position in the pool's slice, which stands for the pointer. A
-- selector returns the position that it chose and the candidates as it leaves them; `none` is the
-- panic on an empty list, or a nil backend. The seeded hash of hash/maphash and the floating-point
-- score are parameters.
pub mod Candidates
pub mod Rotation
pub mod Weighted
pub mod Least
pub mod Rendezvous
pub mod Chosen
use Prim.Native.Nat.{bit_xor}
use ponz_proxy.Prelude.{
  ℕ, ◌+◌, ◌*◌, ◌/◌, ◌%◌, ◌^◌, Bool, ◌&&◌, Option, none, some, List, [], ◌∷◌, ltb, ◌==◌,
  if◌then◌else◌, length, get_elem?,
}
use ponz_proxy.Prelude.Int.{ℤ, pos, ◌+ℤ◌, ◌-ℤ◌, ltb_ℤ, eqb_ℤ}
use ponz_proxy.Prelude.Text.{Text}
use ponz_proxy.Balancer.Backend.{Backend}

-- domain.Algorithm, a string: `other` is any text that names none of the four.
pub data Algorithm : Type 0 where
  round_robin weighted_round_robin least_connections ip_hash : Algorithm
  other : Text → Algorithm

pub data Selector : Type 0 where
  rotating : ℕ → Selector
  weighted least_conns hashed : Selector

unfoldable pub new_selector : Algorithm → Selector
new_selector weighted_round_robin = weighted
new_selector least_connections = least_conns
new_selector ip_hash = hashed
new_selector round_robin = rotating 0
new_selector (other a) = rotating 0

abbrev pub Candidate : Type 0
Candidate = ℕ × Backend

abbrev pub weight_of : Backend → ℕ
weight_of b = b.upstream.weight

-- `roundRobin.Select`: the index, and the counter after it (a uint64).
unfoldable pub rotate : ℕ → List Candidate → Option (ℕ × ℕ)
rotate counter cs = elim (get_elem? cs (counter % length cs)) [
  | none ↦ none
  | some (i, b) ↦ some (i, (counter + 1) % 2 ^ 64)
]

-- The body of `weightedRoundRobin.Select`'s loop.
unfoldable pub raise : Backend → Backend
raise b = record b { current_weight = b.current_weight +ℤ pos (weight_of b) }

unfoldable pub challenge : Option Candidate → Candidate → Option Candidate
challenge none c = some c
challenge (some (j, d)) (i, b) =
    if ltb_ℤ d.current_weight b.current_weight then some (i, b) else some (j, d)

unfoldable pub weighted_scan :
    Option Candidate → ℕ → List Candidate → Option Candidate × ℕ × List Candidate
weighted_scan best total [] = (best, total, [])
weighted_scan best total ((i, b) ∷ cs) =
    let (best', total', cs') =
      weighted_scan (challenge best (i, raise b)) (total + weight_of b) cs in
    (best', total', (i, raise b) ∷ cs')

-- `best.currentWeight -= total`, through the pointer.
unfoldable pub settle : ℕ → ℕ → List Candidate → List Candidate
settle j total [] = []
settle j total ((i, b) ∷ cs) =
    (i, if i == j then record b { current_weight = b.current_weight -ℤ pos total } else b)
    ∷ settle j total cs

unfoldable pub weighted_select : List Candidate → Option (ℕ × List Candidate)
weighted_select cs =
    let (best, total, cs') = weighted_scan none 0 cs in
    elim best [ none ↦ none | some (j, b) ↦ some (j, settle j total cs') ]

-- The switch of `leastConnections.Select`.
unfoldable pub fewer : Candidate × ℤ → Candidate → Candidate × ℤ
fewer ((j, d), least) (i, b) =
    if ltb_ℤ b.active_conns least
    then ((i, b), b.active_conns)
    else if eqb_ℤ b.active_conns least && ltb (weight_of d) (weight_of b)
    then ((i, b), least)
    else ((j, d), least)

unfoldable pub least_scan : Candidate × ℤ → List Candidate → Candidate
least_scan (best, least) [] = best
least_scan s (c ∷ cs) = least_scan (fewer s c) cs

unfoldable pub least_select : List Candidate → Option ℕ
least_select [] = none
least_select ((i, b) ∷ cs) = some (least_scan ((i, b), b.active_conns) cs).0

-- float64 values that are no NaN, their order, and `weight / -log(u)` for the number whose top 53
-- bits are given.
pub record Floats : Type 1 where
  pub Score : Type 0
  pub neg_inf : Score
  pub score : ℕ → ℕ → Score
  pub gt : Score → Score → Bool

-- uint64 shifts and sums wrap.
unfoldable pub mix64 : ℕ → ℕ → ℕ
mix64 a b =
    let fold = bit_xor a ((b + 0x9E3779B97F4A7C15 + (a * 2 ^ 6) % 2 ^ 64 + a / 2 ^ 2) % 2 ^ 64) in
    let x = (bit_xor fold (fold / 2 ^ 30) * 0xBF58476D1CE4E5B9) % 2 ^ 64 in
    let y = (bit_xor x (x / 2 ^ 27) * 0x94D049BB133111EB) % 2 ^ 64 in bit_xor y (y / 2 ^ 31)

module _ (hash : Text → ℕ) (fl : Floats) where
  open fl use {Score, neg_inf, score, gt}

  unfoldable pub weighted_score : ℕ → Backend → Score
  weighted_score ip_hashed b = score (mix64 ip_hashed (hash b.key) / 2 ^ 11) (weight_of b)

  unfoldable pub higher : ℕ → Option ℕ × Score → Candidate → Option ℕ × Score
  higher ip_hashed (best, best_score) (i, b) =
      if gt (weighted_score ip_hashed b) best_score
      then (some i, weighted_score ip_hashed b)
      else (best, best_score)

  unfoldable pub hash_scan : ℕ → Option ℕ × Score → List Candidate → Option ℕ
  hash_scan ip_hashed (best, best_score) [] = best
  hash_scan ip_hashed s (c ∷ cs) = hash_scan ip_hashed (higher ip_hashed s c) cs

  unfoldable pub hash_select : List Candidate → Text → Option ℕ
  hash_select cs client_ip = hash_scan (hash client_ip) (none, neg_inf) cs

  -- `Selector.Select`: the choice, the candidates and the selector afterwards.
  unfoldable pub select : Selector → List Candidate → Text → Option (ℕ × List Candidate × Selector)
  select (rotating n) cs ip = elim (rotate n cs) [
    | none ↦ none
    | some (i, n') ↦ some (i, cs, rotating n')
  ]
  select weighted cs ip = elim (weighted_select cs) [
    | none ↦ none
    | some (i, cs') ↦ some (i, cs', weighted)
  ]
  select least_conns cs ip = elim (least_select cs) [
    | none ↦ none
    | some i ↦ some (i, cs, least_conns)
  ]
  select hashed cs ip = elim (hash_select cs ip) [ none ↦ none | some i ↦ some (i, cs, hashed) ]
