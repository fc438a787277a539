-- ===== src/Balancer/Selector/Chosen.antt =====
-- internal/balancer/selector.go: whatever the algorithm, the choice is one of the candidates.
use ponz_proxy.Prelude.{
  ℕ, zero, suc, ◌%◌, ◌≡◌, subst, ◌≢◌, ◌⊎◌, inl, inr, Option, none, some, List, [], ◌∷◌, arith,
  get_elem?, length, Bool-cases, Option-cases,
}
use ponz_proxy.Prelude.Text.{Text}
use ponz_proxy.Balancer.Backend.{Backend}
use ponz_proxy.Balancer.Selector.Candidates.{At, In-At}
use ponz_proxy.Balancer.Selector.Weighted.{raise_all-At, empty_select, weighted_select_lem}
use ponz_proxy.Balancer.Selector.Least.{least_select-best}
use ponz_proxy.Balancer.Selector.{
  Candidate, Selector, rotating, weighted, least_conns, hashed, Floats, rotate, weighted_select,
  least_select, weighted_score, higher, hash_scan, hash_select, select,
}

get_elem?-At :
    (cs : List Candidate) (n i : ℕ) (b : Backend) → get_elem? cs n ≡ some (i, b) → At i cs
get_elem?-At [] n i b e = cc
get_elem?-At ((j, d) ∷ cs) zero i b e = inl (cc)
get_elem?-At ((j, d) ∷ cs) (suc n) i b e = inr (get_elem?-At cs n i b e)

rotate-At : (n i m : ℕ) (cs : List Candidate) → rotate n cs ≡ some (i, m) → At i cs
unfolding rotate
rotate-At n i m cs e = elim (Option-cases (get_elem? cs (n % length cs))) [
  | inl g ↦ absurd (ground arith)
  | inr ((j, b), g) ↦ get_elem?-At cs (n % length cs) i b (ground arith)
]

weighted_select-At :
    (cs cs' : List Candidate) (i : ℕ) → weighted_select cs ≡ some (i, cs') → At i cs
weighted_select-At [] cs' i e = absurd (empty_select cs' i e)
weighted_select-At ((j, b) ∷ cs) cs' i e =
    let (k, d, m, a, g) = weighted_select_lem j b cs in
    subst (λ x. At x ((j, b) ∷ cs)) (cc) (raise_all-At k ((j, b) ∷ cs) (In-At k d _ m))

no_least : (i : ℕ) → least_select [] ≢ some i
unfolding least_select
no_least i e = cc

least_select-At : (cs : List Candidate) (i : ℕ) → least_select cs ≡ some i → At i cs
least_select-At [] i e = absurd (no_least i e)
least_select-At ((j, b) ∷ cs) i e =
    let (k, d, g, a, m) = least_select-best j b cs in
    subst (λ x. At x ((j, b) ∷ cs)) {x = k} (cc) (In-At k d ((j, b) ∷ cs) m)

module _ (hash : Text → ℕ) (fl : Floats) where
  hash_scan-At :
      (cs : List Candidate) (ip i : ℕ) (best : Option ℕ) (x : fl.Score)
      → hash_scan hash fl ip (best, x) cs ≡ some i
      → (best ≡ some i) ⊎ At i cs
  unfolding hash_scan higher
  hash_scan-At [] ip i best x e = inl e
  hash_scan-At ((j, b) ∷ cs) ip i best x e =
      elim (Bool-cases (fl.gt (weighted_score hash fl ip b) x)) [
        | inl g ↦ elim (hash_scan-At cs ip i (some j) (weighted_score hash fl ip b) (rw g at e)) [
          | inl h ↦ inr (inl (cc))
          | inr h ↦ inr (inr h)
        ]
        | inr g ↦ elim (hash_scan-At cs ip i best x (rw g at e)) [
          | inl h ↦ inl h
          | inr h ↦ inr (inr h)
        ]
      ]

  hash_select-At :
      (cs : List Candidate) (ip : Text) (i : ℕ) → hash_select hash fl cs ip ≡ some i → At i cs
  unfolding hash_select
  hash_select-At cs ip i e = elim (hash_scan-At cs (hash ip) i none fl.neg_inf e) [
    | inl h ↦ absurd (cc)
    | inr h ↦ h
  ]

  -- What `Select` returns is a candidate.
  pub select-At :
      (s s' : Selector) (cs cs' : List Candidate) (ip : Text) (i : ℕ)
      → select hash fl s cs ip ≡ some (i, cs', s')
      → At i cs
  unfolding select
  select-At (rotating n) s' cs cs' ip i e = elim (Option-cases (rotate n cs)) [
    | inl g ↦ absurd (ground arith)
    | inr ((j, m), g) ↦ rotate-At n i m cs (ground arith)
  ]
  select-At weighted s' cs cs' ip i e = elim (Option-cases (weighted_select cs)) [
    | inl g ↦ absurd (ground arith)
    | inr ((j, ds), g) ↦ weighted_select-At cs ds i (ground arith)
  ]
  select-At least_conns s' cs cs' ip i e = elim (Option-cases (least_select cs)) [
    | inl g ↦ absurd (ground arith)
    | inr (j, g) ↦ least_select-At cs i (ground arith)
  ]
  select-At hashed s' cs cs' ip i e = elim (Option-cases (hash_select hash fl cs ip)) [
    | inl g ↦ absurd (ground arith)
    | inr (j, g) ↦ hash_select-At cs ip i (ground arith)
  ]
