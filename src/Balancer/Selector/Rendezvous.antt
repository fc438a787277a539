-- ===== src/Balancer/Selector/Rendezvous.antt =====
-- internal/balancer/selector.go, `ipHash`: a client keeps its backend when another one leaves.
use ponz_proxy.Prelude.{
  ℕ, ◌≡◌, refl, ◌≢◌, ◌⊎◌, inl, inr, true, false, Option, some, List, [], ◌∷◌, arith, ◌==◌,
  Bool-cases,
}
use ponz_proxy.Prelude.Text.{Text}
use ponz_proxy.Balancer.Backend.{Backend}
use ponz_proxy.Balancer.Selector.Candidates.{without}
use ponz_proxy.Balancer.Selector.{Candidate, Floats, weighted_score, higher, hash_scan, hash_select}

-- The order of the float64 values that are no NaN, as IEEE 754 documents it.
pub record FloatOrder (fl : Floats) : Type 0 where
  pub asym : (a b : fl.Score) → fl.gt a b ≡ true → fl.gt b a ≡ false
  pub trans : (a b c : fl.Score) → fl.gt a b ≡ false → fl.gt b c ≡ false → fl.gt a c ≡ false
  pub least : (a : fl.Score) → fl.gt fl.neg_inf a ≡ false

module _ (hash : Text → ℕ) (fl : Floats) (order : FloatOrder fl) (ip : ℕ) where
  open fl use {Score, gt}

  abbrev score_of : Backend → Score
  score_of b = weighted_score hash fl ip b

  -- The scan with the candidate `i`, and the one without it: equal so far, or the first is at `i`.
  abbrev Apart : ℕ → Option ℕ × Score → Option ℕ × Score → Type 0
  Apart i s s' = ((s.0 ≡ s'.0) × (s.1 ≡ s'.1)) ⊎ ((s.0 ≡ some i) × (gt s'.1 s.1 ≡ false))

  beats : (a b c : Score) → gt a b ≡ true → gt c b ≡ false → gt a c ≡ true
  beats a b c h k = elim (Bool-cases (gt a c)) [ inl e ↦ e | inr e ↦ cc (h, order.trans a c b e k) ]

  module _ (i : ℕ) (best best' : Option ℕ) (x y : Score) (j : ℕ) (b : Backend) where
    skip_step :
        j ≡ i
        → Apart i (best, x) (best', y)
        → Apart i (higher hash fl ip (best, x) (j, b)) (best', y)
    unfolding higher
    skip_step e a = elim (Bool-cases (gt (score_of b) x)) [
      | inl g ↦ ground (arith, order.asym (score_of b) x g, order.trans y x (score_of b))
      | inr g ↦ ground arith
    ]

    both_step :
        Apart i (best, x) (best', y)
        → Apart i (higher hash fl ip (best, x) (j, b)) (higher hash fl ip (best', y) (j, b))
    unfolding higher
    both_step a = ground (arith, beats (score_of b) x y)

  scan_without :
      (cs : List Candidate) (i w : ℕ) (s s' : Option ℕ × Score)
      → Apart i s s'
      → w ≢ i
      → hash_scan hash fl ip s cs ≡ some w
      → hash_scan hash fl ip s' (without i cs) ≡ some w
  unfolding hash_scan
  scan_without [] i w (best, x) (best', y) a n e = ground arith
  scan_without ((j, b) ∷ cs) i w (best, x) (best', y) a n e = elim (Bool-cases (j == i)) [
    | inl k ↦
        rw k
          (scan_without cs i w _ (best', y) (skip_step i best best' x y j b (ground arith) a) n e)
    | inr k ↦ rw k (scan_without cs i w _ _ (both_step i best best' x y j b a) n e)
  ]

module _ (hash : Text → ℕ) (fl : Floats) (order : FloatOrder fl) where
  -- A client that `ipHash` sends to backend `w` is still sent to `w` when another backend `i`
  -- leaves the candidates, for any scores that are ordered as floating-point numbers are.
  pub hash_select-without :
      (cs : List Candidate) (client_ip : Text) (i w : ℕ)
      → hash_select hash fl cs client_ip ≡ some w
      → w ≢ i
      → hash_select hash fl (without i cs) client_ip ≡ some w
  unfolding hash_select
  hash_select-without cs client_ip i w e n =
      scan_without hash fl order (hash client_ip) cs i w _ _ (inl (refl, refl)) n e
