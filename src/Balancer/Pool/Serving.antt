-- ===== src/Balancer/Pool/Serving.antt =====
-- internal/balancer/pool.go and selector.go: when a request gets a backend.
use ponz_proxy.Prelude.{
  ℕ, zero, suc, ◌+◌, ◌%◌, ◌<◌, ◌≡◌, refl, ◌≢◌, ap, ◌∙◌, inl, inr, none, some, List, [], ◌∷◌, arith,
  get_elem?, length, Bool-cases, Option-cases,
}
use native.Mathlib.Omega.{mod_fact}
use ponz_proxy.Prelude.Int.{ltb_ℤ}
use ponz_proxy.Prelude.Text.{Text}
use ponz_proxy.Balancer.Backend.{Backend}
use ponz_proxy.Balancer.Selector.{
  Candidate, Selector, rotating, weighted, least_conns, hashed, Floats, rotate, raise, challenge,
  weight_of, weighted_scan, weighted_select, least_select, select,
}
use ponz_proxy.Balancer.Pool.{Pool, picked, choose, pick, write_back}
use ponz_proxy.Balancer.Pool.Choice.{MayServe}
use ponz_proxy.Balancer.Pool.Errors.{pick_cases, gather-none-disabled, gather-nil-NoneServes}

get_elem?-some {ℓ} :
    {A : Type ℓ} (xs : List A) (i : ℕ) → i < length xs → (x : A) × (get_elem? xs i ≡ some x)
get_elem?-some [] i h = absurd (omega arith)
get_elem?-some (x ∷ xs) zero h = (x, refl)
get_elem?-some (x ∷ xs) (suc i) h = get_elem?-some xs i (omega arith)

challenge-some : (c d : Candidate) → (b : Candidate) × (challenge (some c) d ≡ some b)
unfolding challenge
challenge-some (j, c) (i, d) = elim (Bool-cases (ltb_ℤ c.current_weight d.current_weight)) [
  | inl e ↦ ((i, d), rw e refl)
  | inr e ↦ ((j, c), rw e refl)
]

weighted_scan-some :
    (c : Candidate) (total : ℕ) (cs : List Candidate)
    → (b : Candidate) × ((weighted_scan (some c) total cs).0 ≡ some b)
unfolding weighted_scan
weighted_scan-some c total [] = (c, refl)
weighted_scan-some c total ((i, b) ∷ cs) =
    let (d, e) = challenge-some c (i, raise b) in
    let (f, g) = weighted_scan-some d (total + weight_of b) cs in
    (f, ap (λ o. (weighted_scan o (total + weight_of b) cs).0) e ∙ g)

module _ (hash : Text → ℕ) (fl : Floats) where
  -- Every selector but one chooses a candidate if there is one.
  select-ne-none :
      (s : Selector) (c : Candidate) (cs : List Candidate) (ip : Text)
      → s ≢ hashed
      → select hash fl s (c ∷ cs) ip ≢ none
  unfolding select rotate weighted_select weighted_scan challenge least_select
  select-ne-none (rotating n) c cs ip h q =
      let (x, e) = get_elem?-some (c ∷ cs) (n % suc (length cs)) (mod_fact n (length cs)) in
      ground (arith, rw (select, rotate, e) at q)
  select-ne-none weighted (i, b) cs ip h q =
      let (x, e) = weighted_scan-some (i, raise b) (0 + weight_of b) cs in
      ground (arith, rw (select, weighted_select, weighted_scan, challenge, e) at q)
  select-ne-none least_conns (i, b) cs ip h q = ground (arith, q)
  select-ne-none hashed c cs ip h q = absurd (h refl)

  choose-some :
      (p : Pool) (c : Candidate) (cs : List Candidate) (ip : Text)
      → p.selector ≢ hashed
      → (i : ℕ) × (p' : Pool) × (choose hash fl p (c ∷ cs) ip ≡ picked i p')
  unfolding choose
  choose-some p c cs ip h = elim (Option-cases (select hash fl p.selector (c ∷ cs) ip)) [
    | inl e ↦ absurd (select-ne-none p.selector c cs ip h e)
    | inr ((i, cs', s), e) ↦
        (i, record p { backends = write_back cs' p.backends; selector = s }, rw (choose, e) refl)
  ]

  -- `Pick` returns a backend of the pool whenever one of them is enabled, available, under its limit
  -- and not yet tried, for every algorithm but the hash of the client's address.
  pub pick-serves :
      (p : Pool) (now : ℕ) (ip : Text) (exclude : List ℕ) (n : ℕ) (b : Backend)
      → p.selector ≢ hashed
      → get_elem? p.backends n ≡ some b
      → MayServe exclude now n b
      → (i : ℕ) × (p' : Pool) × (pick hash fl p now ip exclude ≡ picked i p')
  pick-serves p now ip exclude n b h g m = elim (pick_cases hash fl p now ip exclude) [
    | inl (z, e) ↦ ground (arith, m.0, gather-none-disabled exclude now 0 p.backends z n b g)
    | inr (inl (z, nil, e)) ↦ absurd (gather-nil-NoneServes exclude now p.backends nil n b g m)
    | inr (inr (c, cs, z, q, e)) ↦ let (i, p', f) = choose-some p c cs ip h in (i, p', e ∙ f)
  ]
