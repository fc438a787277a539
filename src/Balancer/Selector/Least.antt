-- ===== src/Balancer/Selector/Least.antt =====
-- internal/balancer/selector.go, `leastConnections`: what the scan ends with.
use ponz_proxy.Prelude.{ℕ, ◌≤◌, ◌≡◌, refl, ◌⊎◌, true, inl, inr, some, List, [], ◌∷◌, arith}
use ponz_proxy.Prelude.Int.{ltb_ℤ, eq_of_parts}
use ponz_proxy.Balancer.Backend.{Backend}
use ponz_proxy.Balancer.Selector.Candidates.{In}
use ponz_proxy.Balancer.Selector.{Candidate, weight_of, fewer, least_scan, least_select}

-- `d` does not beat `b`: it has more in flight, or as many and no more weight.
abbrev pub NoBetter : Backend → Backend → Type 0
NoBetter b d =
    (ltb_ℤ b.active_conns d.active_conns ≡ true)
    ⊎ ((b.active_conns ≡ d.active_conns) × (weight_of d ≤ weight_of b))

abbrev pub AllNoBetter : Backend → List Candidate → Type 0
AllNoBetter b [] = Unit {0}
AllNoBetter b ((j, d) ∷ cs) = NoBetter b d × AllNoBetter b cs

NoBetter-trans : (b d e : Backend) → NoBetter b d → NoBetter d e → NoBetter b e
NoBetter-trans b d e h k = ground arith

-- What the scan ends with: a candidate, or the best so far, that nothing beats.
abbrev Best : ℕ → Backend → List Candidate → Type 0
Best j d cs =
    (i : ℕ) × (b : Backend) × (least_scan ((j, d), d.active_conns) cs ≡ (i, b))
    × AllNoBetter b ((j, d) ∷ cs)
    × In i b ((j, d) ∷ cs)

module _ (j : ℕ) (d : Backend) (i : ℕ) (b : Backend) where
  fewer_cases :
      ((fewer ((j, d), d.active_conns) (i, b) ≡ ((i, b), b.active_conns)) × NoBetter b d)
      ⊎ ((fewer ((j, d), d.active_conns) (i, b) ≡ ((j, d), d.active_conns)) × NoBetter d b)
  unfolding fewer
  fewer_cases = ground (arith, eq_of_parts b.active_conns d.active_conns)

least_scan-Best : (j : ℕ) (d : Backend) (cs : List Candidate) → Best j d cs
unfolding least_scan
least_scan-Best j d [] = (j, d, refl, (inr (refl, omega arith), tt), inl (refl, refl))
least_scan-Best j d ((i, b) ∷ cs) = elim (fewer_cases j d i b) [
  | inl (e, n) ↦
      let (k, c, r, all, m) = least_scan-Best i b cs in
      (k, c, rw e r, (NoBetter-trans c b d all.0 n, all), inr m)
  | inr (e, n) ↦
      let (k, c, r, all, m) = least_scan-Best j d cs in
      (
        k,
        c,
        rw e r,
        (all.0, (NoBetter-trans c d b all.0 n, all.1)),
        elim m [ inl h ↦ inl h | inr h ↦ inr (inr h) ],
      )
]

-- `leastConnections` returns a candidate that no other beats: every other has more requests in
-- flight, or as many and no more weight.
pub least_select-best :
    (j : ℕ) (d : Backend) (cs : List Candidate)
    → (i : ℕ) × (b : Backend) × (least_select ((j, d) ∷ cs) ≡ some i)
      × AllNoBetter b ((j, d) ∷ cs)
      × In i b ((j, d) ∷ cs)
unfolding least_select
least_select-best j d cs = let (i, b, e, all, m) = least_scan-Best j d cs in (i, b, rw e, all, m)
