-- ===== src/Balancer/Pool/Choice.antt =====
-- internal/balancer/pool.go, `Pick`: the backend that a request gets may serve it.
use ponz_proxy.Prelude.{
  ℕ, suc, ◌+◌, ◌≡◌, refl, subst, ◌⊎◌, inl, inr, true, false, some, List, [], ◌∷◌, arith, get_elem?,
  Option-cases, List-cases,
}
use ponz_proxy.Prelude.Text.{Text}
use ponz_proxy.Balancer.Backend.{Backend, available, has_capacity}
use ponz_proxy.Balancer.Selector.{Candidate, Floats, select}
use ponz_proxy.Balancer.Selector.Candidates.{At}
use ponz_proxy.Balancer.Selector.Chosen.{select-At}
use ponz_proxy.Balancer.Pool.{Pool, picked, contains_backend, eligible, gather, choose, pick}

-- The backend at position `i` of the pool may serve a request that has tried `exclude`.
abbrev pub MayServe : List ℕ → ℕ → ℕ → Backend → Type 0
MayServe exclude now i b =
    (b.upstream.enabled ≡ true)
    × (available b now ≡ true)
    × (has_capacity b ≡ true)
    × (contains_backend exclude i ≡ false)

gather_step :
    (exclude : List ℕ) (now i j : ℕ) (b : Backend) (bs : List Backend)
    → At j (gather exclude now i (b ∷ bs)).1
    → ((j ≡ i) × MayServe exclude now i b) ⊎ At j (gather exclude now (suc i) bs).1
unfolding gather eligible
gather_step exclude now i j b bs m = ground arith

no_candidate : (exclude : List ℕ) (now i j : ℕ) → ¬ At j (gather exclude now i []).1
unfolding gather
no_candidate exclude now i j m = m

pub gather-MayServe :
    (exclude : List ℕ) (now i j : ℕ) (bs : List Backend)
    → At j (gather exclude now i bs).1
    → (n : ℕ) × (b : Backend) × (j ≡ n + i) × (get_elem? bs n ≡ some b) × MayServe exclude now j b
gather-MayServe exclude now i j [] m = absurd (no_candidate exclude now i j m)
gather-MayServe exclude now i j (b ∷ bs) m = elim (gather_step exclude now i j b bs m) [
  | inl (e, h) ↦ (0, b, omega arith, refl, rw e h)
  | inr t ↦
      let (n, d, e, g, h) = gather-MayServe exclude now (suc i) j bs t in
      (suc n, d, omega arith, g, h)
]

module _ (hash : Text → ℕ) (fl : Floats) where
  choose-At :
      (p p' : Pool) (cs : List Candidate) (ip : Text) (i : ℕ)
      → choose hash fl p cs ip ≡ picked i p'
      → At i cs
  unfolding choose
  choose-At p p' cs ip i e = elim (Option-cases (select hash fl p.selector cs ip)) [
    | inl g ↦ absurd (ground arith)
    | inr ((j, cs', s), g) ↦ select-At hash fl p.selector s cs cs' ip i (ground arith)
  ]

  pick-At :
      (p p' : Pool) (now : ℕ) (ip : Text) (exclude : List ℕ) (i : ℕ)
      → pick hash fl p now ip exclude ≡ picked i p'
      → At i (gather exclude now 0 p.backends).1
  unfolding pick
  pick-At p p' now ip exclude i e = elim (List-cases p.backends) [
    | inl g ↦ absurd (ground arith)
    | inr (b, bs, g) ↦ elim (List-cases (gather exclude now 0 p.backends).1) [
      | inl h ↦ absurd (ground arith)
      | inr (c, cs, h) ↦ rw h (choose-At p p' (c ∷ cs) ip i (ground arith))
    ]
  ]

  -- A backend that `Pick` returns stands in the pool, is enabled, available at that time, below
  -- its connection limit, and not among those already tried.
  pub pick-MayServe :
      (p p' : Pool) (now : ℕ) (client_ip : Text) (exclude : List ℕ) (i : ℕ)
      → pick hash fl p now client_ip exclude ≡ picked i p'
      → (b : Backend) × (get_elem? p.backends i ≡ some b) × MayServe exclude now i b
  pick-MayServe p p' now ip exclude i e =
      let m = pick-At p p' now ip exclude i e in
      let (n, b, q, g, h) = gather-MayServe exclude now 0 i p.backends m in
      let k : n ≡ i = omega arith in (b, subst (λ x. get_elem? p.backends x ≡ some b) k g, h)
