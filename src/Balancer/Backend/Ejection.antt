-- ===== src/Balancer/Backend/Ejection.antt =====
-- internal/balancer/backend.go, `RecordProxyResult`, `Ejected` and `Available`: what a run of
-- connection failures does.
use ponz_proxy.Prelude.{
  ℕ, ◌+◌, ◌≤◌, ◌<◌, ◌≡◌, refl, ◌∙◌, ◌++◌, true, false, ◌&&◌, List, [], ◌∷◌, arith, leb,
  if◌then◌else◌, length,
}
use ponz_proxy.Balancer.Backend.{Backend, PassiveHealth, available, record_proxy_result}

pub available_lem :
    (b : Backend) (now : ℕ) → available b now ≡ (b.healthy && leb b.ejected_until now)
unfolding available
available_lem b now = ground arith

-- Failed requests at the given times, oldest first.
pub failures : Backend → PassiveHealth → List ℕ → Backend
failures b cfg [] = b
failures b cfg (t ∷ ts) = failures (record_proxy_result b false cfg t).0 cfg ts

-- How many of those calls report that the ejection state changed.
pub reports : Backend → PassiveHealth → List ℕ → ℕ
reports b cfg [] = 0
reports b cfg (t ∷ ts) =
    (if (record_proxy_result b false cfg t).1 then 1 else 0)
    + reports (record_proxy_result b false cfg t).0 cfg ts

abbrev pub Within : ℕ → ℕ → List ℕ → Type 0
Within lo hi [] = Unit {0}
Within lo hi (t ∷ ts) = ((lo ≤ t) × (t < hi)) × Within lo hi ts

module _ (cfg : PassiveHealth) (on : cfg.enabled ≡ true) where
  reports_quiet :
      (b : Backend) (t₀ : ℕ) (ts : List ℕ)
      → t₀ + cfg.eject_for ≤ b.ejected_until
      → Within t₀ (t₀ + cfg.eject_for) ts
      → reports b cfg ts ≡ 0
  unfolding reports record_proxy_result
  reports_quiet b t₀ [] h w = refl
  reports_quiet b t₀ (t ∷ ts) h w =
      ground (arith, reports_quiet (record_proxy_result b false cfg t).0 t₀ ts)

  -- With passive health on, no ejection in force at `t₀` and fewer than `max_fails` failures
  -- recorded, failures that all fall within one ejection window from `t₀` are reported as a
  -- change exactly once if they reach `max_fails`, and never if they do not.
  pub reports_lem :
      (b : Backend) (t₀ : ℕ) (ts : List ℕ)
      → b.ejected_until ≤ t₀
      → b.proxy_fails < cfg.max_fails
      → Within t₀ (t₀ + cfg.eject_for) ts
      → reports b cfg ts ≡ (if leb cfg.max_fails (b.proxy_fails + length ts) then 1 else 0)
  unfolding reports record_proxy_result
  reports_lem b t₀ [] h l w = ground arith
  reports_lem b t₀ (t ∷ ts) h l w = ground (
    arith,
    reports_quiet (record_proxy_result b false cfg t).0 t₀ ts,
    reports_lem (record_proxy_result b false cfg t).0 t₀ ts,
  )

  failures_below :
      (b : Backend) (ts : List ℕ)
      → b.proxy_fails + length ts < cfg.max_fails
      → ((failures b cfg ts).proxy_fails ≡ b.proxy_fails + length ts)
        × ((failures b cfg ts).ejected_until ≡ b.ejected_until)
        × ((failures b cfg ts).healthy ≡ b.healthy)
  unfolding failures record_proxy_result
  failures_below b [] l = ground arith
  failures_below b (t ∷ ts) l =
      ground (arith, failures_below (record_proxy_result b false cfg t).0 ts)

  failures-append :
      (b : Backend) (ts us : List ℕ)
      → failures b cfg (ts ++ us) ≡ failures (failures b cfg ts) cfg us
  unfolding failures
  failures-append b [] us = refl
  failures-append b (t ∷ ts) us = failures-append (record_proxy_result b false cfg t).0 ts us

  last_failure :
      (b : Backend) (t : ℕ)
      → b.proxy_fails + 1 ≡ cfg.max_fails
      → ((failures b cfg (t ∷ [])).ejected_until ≡ t + cfg.eject_for)
        × ((failures b cfg (t ∷ [])).healthy ≡ b.healthy)
  unfolding failures record_proxy_result
  last_failure b t e = ground arith

  -- With passive health on, `max_fails - 1` failures in a row (counting those recorded already)
  -- leave the availability at every instant as it was, and one more, at time `t`, takes the
  -- backend out exactly until `t + eject_for`.
  pub failures-available :
      (b : Backend) (ts : List ℕ) (t now : ℕ)
      → b.proxy_fails + length ts + 1 ≡ cfg.max_fails
      → (available (failures b cfg ts) now ≡ available b now)
        × (available (failures b cfg (ts ++ t ∷ [])) now
            ≡ (b.healthy && leb (t + cfg.eject_for) now))
  failures-available b ts t now e =
      let below = failures_below b ts (omega arith) in
      let last = last_failure (failures b cfg ts) t (omega arith) in
      (
        rw (available_lem (failures b cfg ts) now, available_lem b now, below.1, below.2),
        rw (failures-append b ts (t ∷ [])) (available_lem _ now ∙ rw (last.0, last.1, below.2)),
      )
