-- ===== src/Balancer/Selector/Candidates.antt =====
-- Predicates and views on candidate lists, for the proofs about the algorithms.
use ponz_proxy.Prelude.{ℕ, ◌≡◌, ◌⊎◌, inl, inr, ◌≢◌, List, [], ◌∷◌, ◌==◌, if◌then◌else◌}
use ponz_proxy.Balancer.Backend.{Backend}
use ponz_proxy.Balancer.Selector.{Candidate}

-- The candidate at position `i` of the pool is `b`.
abbrev pub In : ℕ → Backend → List Candidate → Type 0
In i b [] = ⊥
In i b ((j, d) ∷ cs) = ((j ≡ i) × (d ≡ b)) ⊎ In i b cs

abbrev pub positions : List Candidate → List ℕ
positions [] = []
positions ((i, b) ∷ cs) = i ∷ positions cs

-- The candidates without the one at position `i`.
abbrev pub without : ℕ → List Candidate → List Candidate
without i [] = []
without i ((j, b) ∷ cs) = let rest = without i cs in if j == i then rest else (j, b) ∷ rest

abbrev pub Fresh : ℕ → List Candidate → Type 0
Fresh i [] = Unit {0}
Fresh i ((j, b) ∷ cs) = (i ≢ j) × Fresh i cs

-- No two candidates share a position.
abbrev pub Distinct : List Candidate → Type 0
Distinct [] = Unit {0}
Distinct ((i, b) ∷ cs) = Fresh i cs × Distinct cs

-- Some candidate stands at position `i`.
abbrev pub At : ℕ → List Candidate → Type 0
At i [] = ⊥
At i ((j, b) ∷ cs) = (j ≡ i) ⊎ At i cs

pub In-At : (i : ℕ) (b : Backend) (cs : List Candidate) → In i b cs → At i cs
In-At i b [] m = m
In-At i b ((j, d) ∷ cs) (inl m) = inl m.0
In-At i b ((j, d) ∷ cs) (inr m) = inr (In-At i b cs m)
