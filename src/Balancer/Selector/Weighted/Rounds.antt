-- ===== src/Balancer/Selector/Weighted/Rounds.antt =====
-- internal/balancer/selector.go, `weightedRoundRobin`: any number of requests over unchanging
-- candidates.
use ponz_proxy.Prelude.{
  ℕ, zero, suc, ◌+◌, ◌*◌, ◌≤◌, ◌<◌, ◌≡◌, refl, ap, ◌∙◌, inl, inr, Option, none, some, List, [], ◌∷◌,
  map, arith, length, count,
}
use ponz_proxy.Prelude.Int.{pos, pos_part, neg_part}
use ponz_proxy.Balancer.Backend.{Backend, Upstream}
use ponz_proxy.Balancer.Selector.Candidates.{In, Distinct}
use ponz_proxy.Balancer.Selector.{Candidate, weight_of, weighted_select}
use ponz_proxy.Balancer.Selector.Weighted.{total_weight, above, below}
use ponz_proxy.Balancer.Selector.Weighted.Shares.{Share, AllShare, same, Fair, weighted_select-Fair}

-- The choices of `k` requests in a row, newest first, and the candidates after them.
unfoldable pub weighted_rounds : ℕ → List Candidate → Option (List ℕ × List Candidate)
weighted_rounds zero cs = some ([], cs)
weighted_rounds (suc k) cs = elim (weighted_rounds k cs) [
  | none ↦ none
  | some (is, cs') ↦ elim (weighted_select cs') [
    | none ↦ none
    | some (j, cs'') ↦ some (j ∷ is, cs'')
  ]
]

-- No backend has a score yet.
abbrev pub Unscored : List Candidate → Type 0
Unscored [] = Unit {0}
Unscored ((i, b) ∷ cs) = (b.current_weight ≡ pos 0) × Unscored cs

Unscored-AllShare : (w : ℕ) (cs : List Candidate) → 0 < w → Unscored cs → AllShare w 0 [] cs
Unscored-AllShare w [] p z = tt
Unscored-AllShare w ((i, b) ∷ cs) p z = (ground arith, Unscored-AllShare w cs p z.1)

Unscored-even : (cs : List Candidate) → Unscored cs → above cs ≡ below cs
Unscored-even [] z = refl
Unscored-even ((i, b) ∷ cs) z = ground (arith, Unscored-even cs z.1)

weighted_rounds-Fair :
    (k w : ℕ) (cs : List Candidate)
    → 0 < w
    → Fair w 0 [] cs
    → (is : List ℕ) × (cs' : List Candidate) × (weighted_rounds k cs ≡ some (is, cs'))
      × Fair w k is cs'
      × (map same cs' ≡ map same cs)
unfolding weighted_rounds
weighted_rounds-Fair zero w cs p f = ([], cs, refl, f, refl)
weighted_rounds-Fair (suc k) w cs p f =
    let (is, cs', e, g, q) = weighted_rounds-Fair k w cs p f in
    let (j, cs'', e', g', q') = weighted_select-Fair w k is cs' p g in
    (j ∷ is, cs'', rw (e, e'), g', q' ∙ q)

AllShare-below :
    (w k : ℕ) (is : List ℕ) (cs : List Candidate)
    → AllShare w k is cs
    → below cs ≤ above cs + length cs * w
AllShare-below w k is [] s = omega arith
AllShare-below w k is (c ∷ cs) s = omega (arith, AllShare-below w k is cs s.1)

-- The others owe one backend less than `w` each.
In-above :
    (w k : ℕ) (is : List ℕ) (i : ℕ) (b : Backend) (cs : List Candidate)
    → AllShare w k is cs
    → In i b cs
    → below cs + pos_part b.current_weight + w
      ≤ above cs + neg_part b.current_weight + length cs * w
In-above w k is i b [] s m = absurd m
In-above w k is i b ((j, d) ∷ cs) s (inl m) =
    rw (← m.1) (omega (arith, AllShare-below w k is cs s.1))
In-above w k is i b ((j, d) ∷ cs) s (inr m) = omega (arith, In-above w k is i b cs s.1 m)

In-Share :
    (w k : ℕ) (is : List ℕ) (i : ℕ) (b : Backend) (cs : List Candidate)
    → AllShare w k is cs
    → In i b cs
    → Share w k is (i, b)
In-Share w k is i b [] s m = absurd m
In-Share w k is i b ((j, d) ∷ cs) s (inl m) = rw (← m.0, ← m.1) (s.0)
In-Share w k is i b ((j, d) ∷ cs) s (inr m) = In-Share w k is i b cs s.1 m

In-same :
    (i : ℕ) (b : Backend) (cs cs' : List Candidate)
    → map same cs' ≡ map same cs
    → In i b cs
    → (d : Backend) × In i d cs' × (d.upstream ≡ b.upstream)
In-same i b [] cs' e m = absurd m
In-same i b (c ∷ cs) [] e m = cc
In-same i b ((j, d) ∷ cs) ((j', d') ∷ cs') e (inl m) = (d', inl (cc, refl), cc)
In-same i b ((j, d) ∷ cs) ((j', d') ∷ cs') e (inr m) =
    let (x, n, u) = In-same i b cs cs' (cc) m in (x, inr n, u)

length-same : (cs cs' : List Candidate) → map same cs' ≡ map same cs → length cs' ≡ length cs
length-same [] [] e = refl
length-same [] (c ∷ cs') e = cc
length-same (c ∷ cs) [] e = cc
length-same (c ∷ cs) (c' ∷ cs') e = ap suc (length-same cs cs' (cc))

-- Of `k` requests the candidate has had, `w` times over, less than `w` more than its weight's part
-- and at most `(n - 1) * w` less.
abbrev pub InShare : ℕ → ℕ → ℕ → List ℕ → Candidate → Type 0
InShare w n k is (i, b) =
    (w * count i is < k * weight_of b + w) × (k * weight_of b + w ≤ w * count i is + n * w)

abbrev pub AllInShare : ℕ → ℕ → ℕ → List ℕ → List Candidate → Type 0
AllInShare w n k is [] = Unit {0}
AllInShare w n k is (c ∷ cs) = InShare w n k is c × AllInShare w n k is cs

All-InShare :
    (w n k : ℕ) (is : List ℕ) (cs : List Candidate)
    → ((i : ℕ) (b : Backend) → In i b cs → InShare w n k is (i, b))
    → AllInShare w n k is cs
All-InShare w n k is [] h = tt
All-InShare w n k is ((i, b) ∷ cs) h =
    (h i b (inl (refl, refl)), All-InShare w n k is cs (λ j d m. h j d (inr m)))

-- From candidates at distinct positions with no scores yet and a positive total weight `w`, any
-- number `k` of requests in a row all get a backend; of them a candidate of weight `v` gets `c`
-- with `w * c < k * v + w` and `k * v + w ≤ w * c + n * w`, for `n` candidates: less than one
-- request more than its part, and at most `n - 1` requests less.
pub weighted_rounds-share :
    (cs : List Candidate) (k : ℕ)
    → Distinct cs
    → Unscored cs
    → 0 < total_weight cs
    → (is : List ℕ) × (cs' : List Candidate) × (weighted_rounds k cs ≡ some (is, cs'))
      × AllInShare (total_weight cs) (length cs) k is cs
weighted_rounds-share cs k u z p =
    let w = total_weight cs in
    let start : Fair w 0 [] cs = record {
      distinct = u;
      total = refl;
      even = Unscored-even cs z;
      shares = Unscored-AllShare w cs p z;
    } in
    let (is, cs', e, f, q) = weighted_rounds-Fair k w cs p start in
    (
      is,
      cs',
      e,
      All-InShare w (length cs) k is cs (λ i b m.
          let (d, n, v) = In-same i b cs cs' q m in
          let s = In-Share w k is i d cs' f.shares n in
          let g = In-above w k is i d cs' f.shares n in
          let t = ap (λ (x : Upstream). k * x.weight) v in
          let l = ap (λ (x : ℕ). x * w) (length-same cs cs' q) in
          (omega (arith, s.0, s.1, t), omega (arith, s.1, g, f.even, t, l))),
    )
