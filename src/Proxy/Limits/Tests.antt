-- ===== src/Proxy/Limits/Tests.antt =====
-- internal/proxy/limits.go: a request that is too large.
use ponz_proxy.Prelude.{ℕ, ◌≡◌, ◌⊎◌, refl, true, false, Option, none, some, List, [], ◌∷◌}
use ponz_proxy.Prelude.Text.{text_eq}
use ponz_proxy.Proxy.Limits.{
  block, mode_enabled, TrafficLimits, Answer, enforce_limits, is_exempt, any_contains, check_body,
  apply_limit, status_of,
}
use ponz_proxy.Proxy.Limits.Refusals.{Told, enforce_limits-refused}

abbrev limits : TrafficLimits
limits = record {
  mode = block;
  requests_per_second = 2;
  burst = 2;
  max_concurrent = 0;
  max_body_bytes = 100;
  exempt = (λ ip. false) ∷ [];
}

abbrev local : Option (List ℕ)
local = some (127 ∷ 0 ∷ 0 ∷ 1 ∷ [])

too_large : (enforce_limits 1 limits local (some 101) true 5 []).answer ≡ Answer.refuse 413 none
unfolding enforce_limits mode_enabled is_exempt any_contains check_body apply_limit status_of
    text_eq
too_large = refl

abbrev too_long : ℕ
too_long = 413

abbrev no_retry : Option ℕ
no_retry = none

enforce_limits-refused_example :
    let r = enforce_limits 1 limits local (some 101) true 5 [] in
    (block ≡ block)
    × (r.ticket.slot ≡ none)
    × (((too_long ≡ 413) × (no_retry ≡ none) × (r.shard ≡ [])) ⊎ Told too_long no_retry)
enforce_limits-refused_example =
    enforce_limits-refused 1 limits local (some 101) true 5 [] 413 none too_large
