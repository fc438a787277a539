-- ===== src/Balancer/Backend/Probes.antt =====
-- internal/balancer/backend.go, `RecordProbe`: the streak counters against the plain history of
-- probe results, newest first.
use ponz_proxy.Prelude.{
  ℕ, suc, ◌<◌, ◌≡◌, refl, Bool, true, false, not, List, [], ◌∷◌, arith, leb, bool_ne, if◌then◌else◌,
}
use ponz_proxy.Balancer.Backend.{Backend, Upstream, new_backend, record_probe}

-- How many of the newest results are all `v`.
abbrev pub streak : Bool → List Bool → ℕ
streak v [] = 0
streak v (r ∷ h) = if bool_ne v r then 0 else suc (streak v h)

module _ (healthy_threshold unhealthy_threshold : ℕ) where
  -- What an operator reads off the history: down after so many failures in a row, up again after
  -- so many successes in a row.
  unfoldable pub up_after : List Bool → Bool
  up_after [] = true
  up_after (r ∷ h) =
      if up_after h
      then not (leb unhealthy_threshold (streak false (r ∷ h)))
      else leb healthy_threshold (streak true (r ∷ h))

  pub probe_all : Backend → List Bool → Backend
  probe_all b [] = b
  probe_all b (r ∷ h) = (record_probe (probe_all b h) r healthy_threshold unhealthy_threshold).0

  abbrev Tracks : Backend → List Bool → Type 0
  Tracks b h =
      (b.consecutive_ok ≡ streak true h)
      × (b.consecutive_fail ≡ streak false h)
      × (b.healthy ≡ up_after h)

  record_probe-Tracks :
      (b : Backend) (r : Bool) (h : List Bool)
      → 0 < healthy_threshold
      → 0 < unhealthy_threshold
      → Tracks b h
      → Tracks (record_probe b r healthy_threshold unhealthy_threshold).0 (r ∷ h)
  unfolding record_probe up_after
  record_probe-Tracks b true h p q t = ground arith
  record_probe-Tracks b false h p q t = ground arith

  probe_all-Tracks :
      (u : Upstream) (h : List Bool)
      → 0 < healthy_threshold
      → 0 < unhealthy_threshold
      → Tracks (probe_all (new_backend u) h) h
  unfolding probe_all new_backend up_after
  probe_all-Tracks u [] p q = (refl, refl, refl)
  probe_all-Tracks u (r ∷ h) p q = record_probe-Tracks _ r h p q (probe_all-Tracks u h p q)

  -- With positive thresholds, the health flag after any history of probe results is what the
  -- history itself says: down after `unhealthy_threshold` failures in a row while up, up again
  -- after `healthy_threshold` successes in a row while down, up at the start.
  pub probe_all-healthy :
      (u : Upstream) (h : List Bool)
      → 0 < healthy_threshold
      → 0 < unhealthy_threshold
      → (probe_all (new_backend u) h).healthy ≡ up_after h
  probe_all-healthy u h p q = (probe_all-Tracks u h p q).2
