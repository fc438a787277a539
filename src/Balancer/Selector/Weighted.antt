-- ===== src/Balancer/Selector/Weighted.antt =====
-- internal/balancer/selector.go, `weightedRoundRobin`: what every backend gets in the long run.
pub mod Shares
pub mod Rounds
pub mod Kept
use ponz_proxy.Prelude.{
  ℕ, zero, suc, ◌+◌, ◌*◌, ◌≤◌, ◌<◌, ◌≡◌, refl, ap, sym, ◌∙◌, ◌≢◌, ◌⊎◌, inl, inr, Option, none, some,
  List, [], ◌∷◌, map, arith, ◌==◌, if◌then◌else◌, length, count, Bool-cases,
}
use ponz_proxy.Prelude.Int.{ℤ, pos, ◌+ℤ◌, ◌-ℤ◌, ◌≤ℤ◌, ltb_ℤ, pos_part, neg_part, +ℤ_parts, -ℤ_parts}
use ponz_proxy.Balancer.Backend.{Backend, Upstream}
use ponz_proxy.Balancer.Selector.Candidates.{In, At}
use ponz_proxy.Balancer.Selector.{
  Candidate, weight_of, raise, challenge, weighted_scan, settle, weighted_select,
}

abbrev pub total_weight : List Candidate → ℕ
total_weight [] = 0
total_weight ((i, b) ∷ cs) = weight_of b + total_weight cs

-- The scan in three passes: raise every score, take the highest, add up the weights.
pub raise_all : List Candidate → List Candidate
raise_all [] = []
raise_all ((i, b) ∷ cs) = (i, raise b) ∷ raise_all cs

highest : Option Candidate → List Candidate → Option Candidate
highest best [] = best
highest best (c ∷ cs) = highest (challenge best c) cs

weighted_scan_lem :
    (best : Option Candidate) (total : ℕ) (cs : List Candidate)
    → weighted_scan best total cs
      ≡ (highest best (raise_all cs), total + total_weight cs, raise_all cs)
unfolding weighted_scan raise_all highest
weighted_scan_lem best total [] = ground arith
weighted_scan_lem best total ((i, b) ∷ cs) =
    ground (arith, weighted_scan_lem (challenge best (i, raise b)) (total + weight_of b) cs)

-- The sum of the scores, as the two parts of an integer.
abbrev pub above : List Candidate → ℕ
above [] = 0
above ((i, b) ∷ cs) = pos_part b.current_weight + above cs

abbrev pub below : List Candidate → ℕ
below [] = 0
below ((i, b) ∷ cs) = neg_part b.current_weight + below cs

abbrev pub AllAtMost : Backend → List Candidate → Type 0
AllAtMost d [] = Unit {0}
AllAtMost d ((i, b) ∷ cs) = (b.current_weight ≤ℤ d.current_weight) × AllAtMost d cs

AllAtMost-mono :
    (d e : Backend) (cs : List Candidate)
    → d.current_weight ≤ℤ e.current_weight
    → AllAtMost d cs
    → AllAtMost e cs
AllAtMost-mono d e [] h a = tt
AllAtMost-mono d e ((i, b) ∷ cs) h a = (omega arith, AllAtMost-mono d e cs h a.1)

-- What is taken: a candidate that no other exceeds.
abbrev Highest : Option Candidate → List Candidate → Type 0
Highest r cs = (i : ℕ) × (b : Backend) × (r ≡ some (i, b)) × In i b cs × AllAtMost b cs

In-insert :
    (k : ℕ) (c : Backend) (j : ℕ) (d : Backend) (i : ℕ) (b : Backend) (cs : List Candidate)
    → In k c ((j, d) ∷ cs)
    → In k c ((j, d) ∷ (i, b) ∷ cs)
In-insert k c j d i b cs (inl h) = inl h
In-insert k c j d i b cs (inr h) = inr (inr h)

highest-some :
    (j : ℕ) (d : Backend) (cs : List Candidate) → Highest (highest (some (j, d)) cs) ((j, d) ∷ cs)
unfolding highest challenge
highest-some j d [] = (j, d, refl, inl (refl, refl), (omega arith, tt))
highest-some j d ((i, b) ∷ cs) = elim (Bool-cases (ltb_ℤ d.current_weight b.current_weight)) [
  | inl g ↦ let (k, c, r, m, a) = highest-some i b cs in (k, c, rw g r, inr m, (ground arith, a))
  | inr g ↦
      let (k, c, r, m, a) = highest-some j d cs in
      (k, c, rw g r, In-insert k c j d i b cs m, (a.0, (ground arith, a.1)))
]

highest-raise_all :
    (i : ℕ) (b : Backend) (cs : List Candidate)
    → Highest (highest none (raise_all ((i, b) ∷ cs))) (raise_all ((i, b) ∷ cs))
unfolding raise_all highest challenge
highest-raise_all i b cs = highest-some i (raise b) (raise_all cs)

-- A round: the highest raised score is taken, and pays the total.
pub weighted_select_lem :
    (i : ℕ) (b : Backend) (cs : List Candidate)
    → let raised = raise_all ((i, b) ∷ cs) in
      (j : ℕ) × (d : Backend) × In j d raised
      × AllAtMost d raised
      × (weighted_select ((i, b) ∷ cs) ≡ some (j, settle j (total_weight ((i, b) ∷ cs)) raised))
unfolding weighted_select
weighted_select_lem i b cs =
    let (j, d, r, m, a) = highest-raise_all i b cs in
    (j, d, m, a, ground (arith, weighted_scan_lem none 0 ((i, b) ∷ cs)))

pub raise_all-At : (i : ℕ) (cs : List Candidate) → At i (raise_all cs) → At i cs
unfolding raise_all
raise_all-At i [] m = m
raise_all-At i ((j, b) ∷ cs) (inl m) = inl m
raise_all-At i ((j, b) ∷ cs) (inr m) = inr (raise_all-At i cs m)

pub empty_select : (cs' : List Candidate) (i : ℕ) → weighted_select [] ≢ some (i, cs')
unfolding weighted_select weighted_scan
empty_select cs' i e = cc
