-- ===== src/Balancer/Pool/Frame.antt =====
-- internal/balancer/pool.go, `Pick`: choosing a backend changes only the selector's own state.
use ponz_proxy.Prelude.{
  ℕ, zero, suc, ◌+◌, ◌≡◌, refl, ap, sym, subst, ◌∙◌, inl, inr, some, List, [], ◌∷◌, map, arith,
  get_elem?, set, Option-cases, List-cases,
}
use ponz_proxy.Prelude.Text.{Text}
use ponz_proxy.Balancer.Backend.{Backend}
use ponz_proxy.Balancer.Selector.{
  Candidate, Selector, rotating, weighted, least_conns, hashed, Floats, weighted_select, select,
}
use ponz_proxy.Balancer.Selector.Weighted.Kept.{unscored, kept, weighted_select-kept}
use ponz_proxy.Balancer.Pool.{Pool, picked, gather, write_back, choose, pick}

-- Each candidate is the backend at its position, up to the score.
abbrev Placed : List Backend → List (ℕ × Backend) → Type 0
Placed xs [] = Unit {0}
Placed xs ((i, b) ∷ cs) = (get_elem? xs i ≡ some b) × Placed xs cs

set_same : (xs : List Backend) (i : ℕ) (b : Backend) → get_elem? xs i ≡ some b → set xs i b ≡ xs
set_same [] i b e = refl
set_same (x ∷ xs) zero b e = cc
set_same (x ∷ xs) (suc i) b e = ap (◌∷◌ x) (set_same xs i b e)

map-set :
    (xs : List Backend) (i : ℕ) (b : Backend)
    → map unscored (set xs i b) ≡ set (map unscored xs) i (unscored b)
map-set [] i b = refl
map-set (x ∷ xs) zero b = refl
map-set (x ∷ xs) (suc i) b = ap (◌∷◌ (unscored x)) (map-set xs i b)

write_back-unscored :
    (cs : List Candidate) (bs : List Backend)
    → Placed (map unscored bs) (map kept cs)
    → map unscored (write_back cs bs) ≡ map unscored bs
unfolding write_back
write_back-unscored [] bs h = refl
write_back-unscored ((i, b) ∷ cs) bs h =
    let e = map-set bs i b ∙ set_same (map unscored bs) i (unscored b) h.0 in
    write_back-unscored cs (set bs i b) (subst (λ xs. Placed xs (map kept cs)) (sym e) h.1) ∙ e

get_elem?-map :
    (xs : List Backend) (n : ℕ) (b : Backend)
    → get_elem? xs n ≡ some b
    → get_elem? (map unscored xs) n ≡ some (unscored b)
get_elem?-map [] n b e = cc
get_elem?-map (x ∷ xs) zero b e = cc
get_elem?-map (x ∷ xs) (suc n) b e = get_elem?-map xs n b e

gather-Placed :
    (exclude : List ℕ) (now : ℕ) (all : List Backend) (i : ℕ) (bs : List Backend)
    → ((n : ℕ) (b : Backend) → get_elem? bs n ≡ some b → get_elem? all (n + i) ≡ some b)
    → Placed (map unscored all) (map kept (gather exclude now i bs).1)
unfolding gather
gather-Placed exclude now all i [] h = tt
gather-Placed exclude now all i (b ∷ bs) h =
    let rest =
      gather-Placed exclude now all (suc i) bs
        (λ n d e. subst (λ x. get_elem? all x ≡ some d) (omega arith) (h (suc n) d e)) in
    let here =
      get_elem?-map all i b (subst (λ x. get_elem? all x ≡ some b) (omega arith) (h 0 b refl)) in
    ground arith

module _ (hash : Text → ℕ) (fl : Floats) where
  select-kept :
      (s s' : Selector) (cs cs' : List Candidate) (ip : Text) (i : ℕ)
      → select hash fl s cs ip ≡ some (i, cs', s')
      → map kept cs' ≡ map kept cs
  unfolding select
  select-kept (rotating n) s' cs cs' ip i e = ap (map kept) (ground arith)
  select-kept weighted s' cs cs' ip i e = elim (Option-cases (weighted_select cs)) [
    | inl g ↦ absurd (ground arith)
    | inr ((j, ds), g) ↦
        let q : ds ≡ cs' = ground arith in ap (map kept) (sym q) ∙ weighted_select-kept cs ds j g
  ]
  select-kept least_conns s' cs cs' ip i e = ap (map kept) (ground arith)
  select-kept hashed s' cs cs' ip i e = ap (map kept) (ground arith)

  choose-unscored :
      (p p' : Pool) (cs : List Candidate) (ip : Text) (i : ℕ)
      → Placed (map unscored p.backends) (map kept cs)
      → choose hash fl p cs ip ≡ picked i p'
      → (p'.host_id ≡ p.host_id)
        × (p'.algorithm ≡ p.algorithm)
        × (map unscored p'.backends ≡ map unscored p.backends)
  unfolding choose
  choose-unscored p p' cs ip i h e = elim (Option-cases (select hash fl p.selector cs ip)) [
    | inl g ↦ absurd (ground arith)
    | inr ((j, cs', s), g) ↦
        let q = select-kept p.selector s cs cs' ip j g in
        let w = write_back-unscored cs' p.backends (rw q h) in ground arith
  ]

  -- `Pick` leaves the pool as it was but for the selector's counter and the backends' scores.
  pub pick-unscored :
      (p p' : Pool) (now : ℕ) (ip : Text) (exclude : List ℕ) (i : ℕ)
      → pick hash fl p now ip exclude ≡ picked i p'
      → (p'.host_id ≡ p.host_id)
        × (p'.algorithm ≡ p.algorithm)
        × (map unscored p'.backends ≡ map unscored p.backends)
  unfolding pick
  pick-unscored p p' now ip exclude i e = elim (List-cases p.backends) [
    | inl g ↦ absurd (ground arith)
    | inr (b, bs, g) ↦ elim (List-cases (gather exclude now 0 p.backends).1) [
      | inl h ↦ absurd (ground arith)
      | inr (c, cs, h) ↦
          choose-unscored p p' (c ∷ cs) ip i
            (subst (λ ds. Placed (map unscored p.backends) (map kept ds)) h
              (gather-Placed exclude now p.backends 0 p.backends
                (λ n d q. subst (λ x. get_elem? p.backends x ≡ some d) (omega arith) q)))
            (ground arith)
    ]
  ]
