-- ===== src/Balancer/Selector/Weighted/Shares.antt =====
-- internal/balancer/selector.go, `weightedRoundRobin`: the invariant that a round keeps.
use ponz_proxy.Prelude.{
  ℕ, suc, ◌+◌, ◌*◌, ◌≤◌, ◌<◌, ◌≡◌, refl, sym, subst, ◌∙◌, ◌≢◌, inl, inr, some, List, [], ◌∷◌, map,
  arith, ◌==◌, count, Bool-cases, ==_iff,
}
use ponz_proxy.Prelude.Int.{pos, ◌+ℤ◌, pos_part, neg_part, +ℤ_parts, -ℤ_parts}
use native.Mathlib.Decide.{dec_lt}
use ponz_proxy.Balancer.Backend.{Backend, Upstream}
use ponz_proxy.Balancer.Selector.Candidates.{In, Fresh, Distinct}
use ponz_proxy.Balancer.Selector.{Candidate, weight_of, raise, settle, weighted_select}
use ponz_proxy.Balancer.Selector.Weighted.{
  total_weight, raise_all, above, below, AllAtMost, weighted_select_lem,
}

-- After `k` rounds with the choices `is`: the score is what the backend is owed, weight by weight,
-- and is above minus the total.
abbrev pub Share : ℕ → ℕ → List ℕ → Candidate → Type 0
Share w k is (i, b) =
    (neg_part b.current_weight < w + pos_part b.current_weight)
    × (pos_part b.current_weight + w * count i is ≡ neg_part b.current_weight + k * weight_of b)

abbrev pub AllShare : ℕ → ℕ → List ℕ → List Candidate → Type 0
AllShare w k is [] = Unit {0}
AllShare w k is (c ∷ cs) = Share w k is c × AllShare w k is cs

raise_all-sum :
    (cs : List Candidate)
    → above (raise_all cs) + below cs ≡ below (raise_all cs) + above cs + total_weight cs
unfolding raise_all raise
raise_all-sum [] = omega arith
raise_all-sum ((i, b) ∷ cs) =
    omega (arith, raise_all-sum cs, +ℤ_parts b.current_weight (pos (weight_of b)))

settle-Fresh : (j w : ℕ) (cs : List Candidate) → Fresh j cs → settle j w cs ≡ cs
unfolding settle
settle-Fresh j w [] f = refl
settle-Fresh j w ((i, b) ∷ cs) f = ground (arith, settle-Fresh j w cs f.1)

Fresh-ne : (i j : ℕ) (d : Backend) (cs : List Candidate) → Fresh i cs → In j d cs → i ≢ j
Fresh-ne i j d [] f m = absurd m
Fresh-ne i j d ((k, b) ∷ cs) f (inl m) = ground arith
Fresh-ne i j d ((k, b) ∷ cs) f (inr m) = Fresh-ne i j d cs f.1 m

settle-sum :
    (j w : ℕ) (d : Backend) (cs : List Candidate)
    → Distinct cs
    → In j d cs
    → above (settle j w cs) + below cs + w ≡ below (settle j w cs) + above cs
unfolding settle
settle-sum j w d [] u m = absurd m
settle-sum j w d ((i, b) ∷ cs) u (inl m) = ground (
  arith,
  settle-Fresh j w cs (subst (λ x. Fresh x cs) m.0 u.0),
  -ℤ_parts b.current_weight (pos w),
)
settle-sum j w d ((i, b) ∷ cs) u (inr m) =
    ground (arith, Fresh-ne i j d cs u.0 m, settle-sum j w d cs u.1 m)

AllAtMost-sum :
    (d : Backend) (cs : List Candidate)
    → pos_part d.current_weight ≤ neg_part d.current_weight
    → AllAtMost d cs
    → above cs ≤ below cs
AllAtMost-sum d [] z a = omega arith
AllAtMost-sum d ((i, b) ∷ cs) z a = omega (arith, AllAtMost-sum d cs z a.1)

-- Whoever stands at position `j` can pay: its raised score is positive.
abbrev Payable : ℕ → List Candidate → Type 0
Payable j [] = Unit {0}
Payable j ((i, b) ∷ cs) =
    (i ≡ j → neg_part (raise b).current_weight < pos_part (raise b).current_weight) × Payable j cs

Fresh-Payable : (j : ℕ) (cs : List Candidate) → Fresh j cs → Payable j cs
Fresh-Payable j [] f = tt
Fresh-Payable j ((i, b) ∷ cs) f = ((λ e. absurd (f.0 (sym e))), Fresh-Payable j cs f.1)

raise_all-Fresh : (i : ℕ) (cs : List Candidate) → Fresh i cs → Fresh i (raise_all cs)
unfolding raise_all
raise_all-Fresh i [] f = tt
raise_all-Fresh i ((j, b) ∷ cs) f = (f.0, raise_all-Fresh i cs f.1)

In-Payable :
    (j : ℕ) (d : Backend) (cs : List Candidate)
    → Distinct cs
    → In j d (raise_all cs)
    → neg_part d.current_weight < pos_part d.current_weight
    → Payable j cs
unfolding raise_all
In-Payable j d [] u m p = tt
In-Payable j d ((i, b) ∷ cs) u (inl m) p = (
  (λ _. subst (λ (x : Backend). neg_part x.current_weight < pos_part x.current_weight) (sym m.1) p),
  Fresh-Payable j cs (subst (λ x. Fresh x cs) m.0 u.0),
)
In-Payable j d ((i, b) ∷ cs) u (inr m) p = (
  (λ e. absurd (Fresh-ne i j d (raise_all cs) (raise_all-Fresh i cs u.0) m e)),
  In-Payable j d cs u.1 m p,
)

module _ (w k j : ℕ) (is : List ℕ) where
  settle-AllShare :
      (cs : List Candidate)
      → Payable j cs
      → AllShare w k is cs
      → AllShare w (suc k) (j ∷ is) (settle j w (raise_all cs))
  unfolding settle raise_all raise
  settle-AllShare [] p s = tt
  settle-AllShare ((i, b) ∷ cs) p s =
      let a = +ℤ_parts b.current_weight (pos (weight_of b)) in
      let c = -ℤ_parts (b.current_weight +ℤ pos (weight_of b)) (pos w) in
      elim (Bool-cases (i == j)) [
        | inl g ↦
            let h = p.0 ((==_iff i j).0 g) in
            rw g ((omega (arith, a, c, h), omega (arith, a, c, h)), settle-AllShare cs p.1 s.1)
        | inr g ↦ rw g ((omega (arith, a), omega (arith, a)), settle-AllShare cs p.1 s.1)
      ]

settle-raise_all-Fresh :
    (i j w : ℕ) (cs : List Candidate) → Fresh i cs → Fresh i (settle j w (raise_all cs))
unfolding settle raise_all
settle-raise_all-Fresh i j w [] f = tt
settle-raise_all-Fresh i j w ((k, b) ∷ cs) f = (f.0, settle-raise_all-Fresh i j w cs f.1)

settle-Distinct :
    (j w : ℕ) (cs : List Candidate) → Distinct cs → Distinct (settle j w (raise_all cs))
unfolding settle raise_all
settle-Distinct j w [] u = tt
settle-Distinct j w ((i, b) ∷ cs) u =
    (settle-raise_all-Fresh i j w cs u.0, settle-Distinct j w cs u.1)

raise_all-Distinct : (cs : List Candidate) → Distinct cs → Distinct (raise_all cs)
unfolding raise_all
raise_all-Distinct [] u = tt
raise_all-Distinct ((i, b) ∷ cs) u = (raise_all-Fresh i cs u.0, raise_all-Distinct cs u.1)

settle-total_weight :
    (j w : ℕ) (cs : List Candidate) → total_weight (settle j w (raise_all cs)) ≡ total_weight cs
unfolding settle raise_all raise
settle-total_weight j w [] = refl
settle-total_weight j w ((i, b) ∷ cs) = ground (arith, settle-total_weight j w cs)

abbrev pub same : Candidate → ℕ × Upstream
same (i, b) = (i, b.upstream)

settle-same : (j w : ℕ) (cs : List Candidate) → map same (settle j w (raise_all cs)) ≡ map same cs
unfolding settle raise_all raise
settle-same j w [] = refl
settle-same j w ((i, b) ∷ cs) = ground (arith, settle-same j w cs)

highest_positive :
    (d : Backend) (cs : List Candidate)
    → AllAtMost d (raise_all cs)
    → above cs ≡ below cs
    → 0 < total_weight cs
    → neg_part d.current_weight < pos_part d.current_weight
highest_positive d cs a e p =
    elim (dec_lt (neg_part d.current_weight) (pos_part d.current_weight)) [
      | yes h ↦ h
      | no h ↦
          absurd (omega (arith, AllAtMost-sum d (raise_all cs) (omega arith) a, raise_all-sum cs))
    ]

-- What all rounds keep.
pub record Fair (w k : ℕ) (is : List ℕ) (cs : List Candidate) : Type 0 where
  pub distinct : Distinct cs
  pub total : total_weight cs ≡ w
  pub even : above cs ≡ below cs
  pub shares : AllShare w k is cs

-- A round succeeds, keeps the invariant and the configuration.
pub weighted_select-Fair :
    (w k : ℕ) (is : List ℕ) (cs : List Candidate)
    → 0 < w
    → Fair w k is cs
    → (j : ℕ) × (cs' : List Candidate) × (weighted_select cs ≡ some (j, cs'))
      × Fair w (suc k) (j ∷ is) cs'
      × (map same cs' ≡ map same cs)
weighted_select-Fair w k is [] p f = absurd (omega (arith, f.total))
weighted_select-Fair w k is ((i, b) ∷ cs) p f =
    let all = (i, b) ∷ cs in
    let (j, d, m, a, e) = weighted_select_lem i b cs in
    let u = raise_all-Distinct all f.distinct in
    let positive = highest_positive d all a f.even (omega (arith, f.total)) in
    let s = settle-sum j w d (raise_all all) u m in
    let r = raise_all-sum all in
    (
      j,
      settle j w (raise_all all),
      subst (λ t. weighted_select all ≡ some (j, settle j t (raise_all all))) f.total e,
      record {
        distinct = settle-Distinct j w all f.distinct;
        total = settle-total_weight j w all ∙ f.total;
        even = omega (arith, s, r, f.even, f.total);
        shares = settle-AllShare w k j is all (In-Payable j d all f.distinct m positive) f.shares;
      },
      settle-same j w all,
    )
