-- ===== src/Balancer/Pool/Errors.antt =====
-- internal/balancer/pool.go, `Pick`: when a request gets no backend, and which error it gets.
use ponz_proxy.Prelude.{
  ℕ, zero, suc, ◌+◌, ◌≡◌, refl, sym, subst, ◌≢◌, ◌↔◌, ◌⊎◌, inl, inr, false, some, List, [], ◌∷◌,
  arith, get_elem?, List-cases,
}
use ponz_proxy.Prelude.Text.{Text}
use native.Mathlib.Decide.{ℕ_discrete}
use ponz_proxy.Balancer.Backend.{Backend}
use ponz_proxy.Balancer.Selector.{Candidate, Floats}
use ponz_proxy.Balancer.Selector.Candidates.{At}
use ponz_proxy.Balancer.Pool.Choice.{MayServe, gather-MayServe}
use ponz_proxy.Balancer.Pool.{
  Pool, PickError, failed, no_backends, no_healthy_backend, eligible, gather, choose, pick,
}

abbrev pub AllDisabled : List Backend → Type 0
AllDisabled bs = (n : ℕ) (b : Backend) → get_elem? bs n ≡ some b → b.upstream.enabled ≡ false

abbrev pub NoneServes : List ℕ → ℕ → List Backend → Type 0
NoneServes exclude now bs =
    (n : ℕ) (b : Backend) → get_elem? bs n ≡ some b → ¬ MayServe exclude now n b

module _ (exclude : List ℕ) (now : ℕ) where
  pub gather-none-disabled :
      (i : ℕ) (bs : List Backend) → (gather exclude now i bs).0 ≡ 0 → AllDisabled bs
  unfolding gather
  gather-none-disabled i [] e n b g = cc
  gather-none-disabled i (d ∷ bs) e zero b g = ground arith
  gather-none-disabled i (d ∷ bs) e (suc n) b g =
      gather-none-disabled (suc i) bs (ground arith) n b g

  disabled-gather-none :
      (i : ℕ) (bs : List Backend) → AllDisabled bs → (gather exclude now i bs).0 ≡ 0
  unfolding gather
  disabled-gather-none i [] a = refl
  disabled-gather-none i (d ∷ bs) a =
      ground (arith, a 0 d refl, disabled-gather-none (suc i) bs (λ n b g. a (suc n) b g))

  gather_head :
      (i : ℕ) (d : Backend) (bs : List Backend)
      → MayServe exclude now i d
      → At i (gather exclude now i (d ∷ bs)).1
  unfolding gather eligible
  gather_head i d bs h = ground arith

  gather_tail :
      (i j : ℕ) (d : Backend) (bs : List Backend)
      → At j (gather exclude now (suc i) bs).1
      → At j (gather exclude now i (d ∷ bs)).1
  unfolding gather
  gather_tail i j d bs h = ground arith

  MayServe-At :
      (bs : List Backend) (i j n : ℕ) (b : Backend)
      → get_elem? bs n ≡ some b
      → j ≡ n + i
      → MayServe exclude now j b
      → At j (gather exclude now i bs).1
  MayServe-At [] i j n b g e h = cc
  MayServe-At (d ∷ bs) i j zero b g e h =
      let k : j ≡ i = omega arith in
      let q : d ≡ b = cc in
      subst (λ x. At x (gather exclude now i (d ∷ bs)).1) (sym k)
        (gather_head i d bs (rw (q, ← k) h))
  MayServe-At (d ∷ bs) i j (suc n) b g e h =
      gather_tail i j d bs (MayServe-At bs (suc i) j n b g (omega arith) h)

  pub gather-nil-NoneServes :
      (bs : List Backend) → (gather exclude now 0 bs).1 ≡ [] → NoneServes exclude now bs
  gather-nil-NoneServes bs e n b g h = subst (At n) e (MayServe-At bs 0 n n b g (omega arith) h)

  NoneServes-gather-nil :
      (bs : List Backend) → NoneServes exclude now bs → (gather exclude now 0 bs).1 ≡ []
  NoneServes-gather-nil bs none_serves = elim (List-cases (gather exclude now 0 bs).1) [
    | inl e ↦ e
    | inr ((i, c), cs, e) ↦
        let (n, b, q, g, h) = gather-MayServe exclude now 0 i bs (rw e (inl refl)) in
        let k : i ≡ n = omega arith in absurd (none_serves n b g (rw (← k) h))
  ]

module _ (hash : Text → ℕ) (fl : Floats) where
  choose-ne-failed :
      (p : Pool) (cs : List Candidate) (ip : Text) (x : PickError)
      → choose hash fl p cs ip ≢ failed x
  unfolding choose
  choose-ne-failed p cs ip x e = ground arith

  module _ (p : Pool) (now : ℕ) (ip : Text) (exclude : List ℕ) where
    pub pick_cases :
        ((gather exclude now 0 p.backends).0 ≡ 0
          × pick hash fl p now ip exclude ≡ failed no_backends)
        ⊎ ((gather exclude now 0 p.backends).0 ≢ 0
            × (gather exclude now 0 p.backends).1 ≡ []
            × pick hash fl p now ip exclude ≡ failed no_healthy_backend)
        ⊎ ((c : Candidate) × (cs : List Candidate) × (gather exclude now 0 p.backends).0 ≢ 0
            × (gather exclude now 0 p.backends).1 ≡ c ∷ cs
            × pick hash fl p now ip exclude ≡ choose hash fl p (c ∷ cs) ip)
    unfolding pick
    pick_cases = elim (List-cases p.backends) [
      | inl g ↦ inl (disabled-gather-none exclude now 0 p.backends (λ n b h. cc), ground arith)
      | inr (b, bs, g) ↦ elim (ℕ_discrete (gather exclude now 0 p.backends).0 0) [
        | yes z ↦ inl (z, ground arith)
        | no z ↦ elim (List-cases (gather exclude now 0 p.backends).1) [
          | inl h ↦ inr (inl (z, h, ground arith))
          | inr (c, cs, h) ↦ inr (inr (c, cs, z, h, ground arith))
        ]
      ]
    ]

    -- `Pick` fails with ErrNoBackends exactly when every backend of the pool is disabled (an
    -- empty pool included).
    pub pick-no_backends :
        (pick hash fl p now ip exclude ≡ failed no_backends) ↔ AllDisabled p.backends
    pick-no_backends = elim pick_cases [
      | inl (z, e) ↦ ((λ _. gather-none-disabled exclude now 0 p.backends z), (λ _. e))
      | inr (inl (z, h, e)) ↦
          ((λ g. cc), (λ a. absurd (z (disabled-gather-none exclude now 0 p.backends a))))
      | inr (inr (c, cs, z, h, e)) ↦ (
        (λ g. absurd (choose-ne-failed p (c ∷ cs) ip no_backends (cc))),
        (λ a. absurd (z (disabled-gather-none exclude now 0 p.backends a))),
      )
    ]

    -- `Pick` fails with ErrNoHealthyBackend exactly when some backend is enabled and none may
    -- serve the request: each is disabled, unavailable, at its limit, or already tried.
    pub pick-no_healthy_backend :
        (pick hash fl p now ip exclude ≡ failed no_healthy_backend)
        ↔ ((¬ AllDisabled p.backends) × NoneServes exclude now p.backends)
    pick-no_healthy_backend = elim pick_cases [
      | inl (z, e) ↦
          ((λ g. cc), (λ a. absurd (a.0 (gather-none-disabled exclude now 0 p.backends z))))
      | inr (inl (z, h, e)) ↦ (
        (λ _. (
          (λ a. z (disabled-gather-none exclude now 0 p.backends a)),
          gather-nil-NoneServes exclude now p.backends h,
        )),
        (λ _. e),
      )
      | inr (inr (c, cs, z, h, e)) ↦ (
        (λ g. absurd (choose-ne-failed p (c ∷ cs) ip no_healthy_backend (cc))),
        (λ a. cc (NoneServes-gather-nil exclude now p.backends a.1)),
      )
    ]
