-- ===== src/Balancer/Selector/Weighted/Kept.antt =====
-- internal/balancer/selector.go: a selection changes nothing of the candidates but their scores.
use ponz_proxy.Prelude.{ℕ, ◌≡◌, refl, ap, ◌∙◌, some, List, [], ◌∷◌, map, arith}
use ponz_proxy.Prelude.Int.{pos}
use ponz_proxy.Balancer.Backend.{Backend}
use ponz_proxy.Balancer.Selector.{Candidate, raise, settle, weighted_select}
use ponz_proxy.Balancer.Selector.Weighted.{
  raise_all, total_weight, weighted_select_lem, empty_select,
}

-- A backend without its score.
abbrev pub unscored : Backend → Backend
unscored b = record b { current_weight = pos 0 }

abbrev pub kept : Candidate → ℕ × Backend
kept (i, b) = (i, unscored b)

settle-kept : (j w : ℕ) (cs : List Candidate) → map kept (settle j w (raise_all cs)) ≡ map kept cs
unfolding settle raise_all raise
settle-kept j w [] = refl
settle-kept j w ((i, b) ∷ cs) = ground (arith, settle-kept j w cs)

pub weighted_select-kept :
    (cs cs' : List Candidate) (i : ℕ)
    → weighted_select cs ≡ some (i, cs')
    → map kept cs' ≡ map kept cs
weighted_select-kept [] cs' i e = absurd (empty_select cs' i e)
weighted_select-kept ((j, b) ∷ cs) cs' i e =
    let (k, d, m, a, g) = weighted_select_lem j b cs in
    ap (map kept) (cc) ∙ settle-kept k (total_weight ((j, b) ∷ cs)) ((j, b) ∷ cs)
