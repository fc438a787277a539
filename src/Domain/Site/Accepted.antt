-- ===== src/Domain/Site/Accepted.antt =====
-- internal/domain/host.go: what holds of a host that `Validate` accepts.
use ponz_proxy.Prelude.{
  ℕ, suc, ◌≤◌, ◌≡◌, ◌≢◌, refl, inl, inr, Bool, true, false, not, Option, none, List, [], ◌∷◌, map,
  arith, ltb, ◌==◌, length, append-empty, Option-cases,
}
use ponz_proxy.Prelude.Text.{Text, codes, text_eq, text_eq_iff}
use ponz_proxy.Prelude.Strings.{has_prefix}
use ponz_proxy.Prelude.Entries.{member}
use ponz_proxy.Balancer.Backend.{Upstream, PassiveHealth}
use ponz_proxy.Balancer.Selector.{Algorithm}
use ponz_proxy.Proxy.Routing.Prefix.{slash}
use ponz_proxy.Cache.Setting.{second, hour}
use ponz_proxy.Domain.Names.{validate_domain}
use ponz_proxy.Domain.Upstreams.{UpstreamProblem, validate_upstreams}
use ponz_proxy.Domain.Upstreams.Valid.{AllUsable, validate_upstreams-AllUsable}
use ponz_proxy.Domain.Options.{Report, report_if}
use ponz_proxy.Domain.Rewriting.{validate_headers}
use ponz_proxy.Domain.Site.{SiteLocation, Site}
use ponz_proxy.Domain.Site.Reports.{
  valid_algorithm, upstream_field, domains_report, has_space, has_empty_segment, location_field,
  upstreams_report, location_report, locations_report, name_report, tls_report, health_report,
  passive_report, validate_site,
}

abbrev pub AllAccepted : List Text → Type 0
AllAccepted [] = Unit {0}
AllAccepted (d ∷ ds) = (validate_domain d ≡ none) × AllAccepted ds

domains_report-AllAccepted : (i : ℕ) (ds : List Text) → domains_report i ds ≡ [] → AllAccepted ds
unfolding domains_report
domains_report-AllAccepted i [] e = tt
domains_report-AllAccepted i (d ∷ ds) e = elim (Option-cases (validate_domain d)) [
  | inl f ↦ (f, domains_report-AllAccepted (suc i) ds (ground (arith, e, f)))
  | inr (bad, f) ↦ ground (arith, e, f)
]

map-empty :
    (prefix : Text) (ps : List UpstreamProblem) → map (upstream_field prefix) ps ≡ [] → ps ≡ []
map-empty prefix [] e = refl
map-empty prefix (p ∷ ps) e = ground (arith, e)

length-nonempty {ℓ} :
    {A : Type ℓ} (xs : List A) (f : Text) → report_if (length xs == 0) f ≡ [] → xs ≢ []
length-nonempty [] f e n = ground (arith, e)
length-nonempty (x ∷ xs) f e n = ground (arith, n)

module _ (split_host_port : Text → Option (Text × Text)) (is_ip : Text → Bool) where
  -- A location that routing can work with.
  abbrev pub Mountable : SiteLocation → Type 0
  Mountable l =
      (has_prefix l.route.path slash ≡ true)
      × (has_space l.route.path ≡ false)
      × (has_empty_segment l.route.path ≡ false)
      × (l.route.path ≢ slash)
      × (l.route.upstreams ≢ [])
      × AllUsable split_host_port is_ip [] l.route.upstreams

  -- Each can be mounted, and no path comes twice or is one of `seen`.
  abbrev pub AllMountable : List Text → List SiteLocation → Type 0
  AllMountable seen [] = Unit {0}
  AllMountable seen (l ∷ ls) =
      Mountable l × (member l.route.path seen ≡ false) × AllMountable (l.route.path ∷ seen) ls

  upstreams-AllUsable :
      (prefix : Text) (us : List Upstream)
      → upstreams_report split_host_port is_ip prefix us ≡ []
      → AllUsable split_host_port is_ip [] us
  unfolding upstreams_report
  upstreams-AllUsable prefix us e =
      validate_upstreams-AllUsable split_host_port is_ip us
        (map-empty prefix (validate_upstreams split_host_port is_ip us) e)

  location-Mountable :
      (i : ℕ) (l : SiteLocation) → location_report split_host_port is_ip i l ≡ [] → Mountable l
  unfolding location_report
  location-Mountable i l e =
      let path = location_field i (codes ".path") in
      let us = location_field i (codes ".upstreams") in
      let (a, r1) = append-empty (report_if (not (has_prefix l.route.path slash)) path) _ e in
      let (b, r2) = append-empty (report_if (has_space l.route.path) path) _ r1 in
      let (c, r3) = append-empty (report_if (has_empty_segment l.route.path) path) _ r2 in
      let (d, r4) = append-empty (report_if (text_eq l.route.path slash) path) _ r3 in
      let (f, r5) = append-empty (report_if (length l.route.upstreams == 0) us) _ r4 in
      let (g, _) =
        append-empty (upstreams_report split_host_port is_ip us l.route.upstreams) _ r5 in
      (
        ground (arith, a),
        ground (arith, b),
        ground (arith, c),
        (λ p. ground (arith, d, p, text_eq_iff l.route.path slash)),
        length-nonempty l.route.upstreams us f,
        upstreams-AllUsable us l.route.upstreams g,
      )

  locations-AllMountable :
      (i : ℕ) (seen : List Text) (ls : List SiteLocation)
      → locations_report split_host_port is_ip i seen ls ≡ []
      → AllMountable seen ls
  unfolding locations_report
  locations-AllMountable i seen [] e = tt
  locations-AllMountable i seen (l ∷ ls) e =
      let (a, r1) = append-empty (location_report split_host_port is_ip i l) _ e in
      let (b, r2) =
        append-empty (report_if (member l.route.path seen) (location_field i (codes ".path"))) _
          r1 in
      (
        location-Mountable i l a,
        ground (arith, b),
        locations-AllMountable (suc i) (l.route.path ∷ seen) ls r2,
      )

  passive-range :
      (ph : PassiveHealth)
      → passive_report ph ≡ []
      → (1 ≤ ph.max_fails) × (ph.max_fails ≤ 100) × (second ≤ ph.eject_for) × (ph.eject_for ≤ hour)
  unfolding passive_report
  passive-range ph e = ground (arith, e)

  algorithm-known :
      (a : Algorithm) (f : Text)
      → report_if (not (valid_algorithm a)) f ≡ []
      → valid_algorithm a ≡ true
  algorithm-known a f e = ground (arith, e)

  -- A host that validation accepts has domains, all of them valid, an algorithm that is known and
  -- upstreams that each pass validation, no two for one backend; its locations have distinct absolute paths
  -- without empty segments, none of them `/`, and upstreams as good; passive health ejects after 1
  -- to 100 failures, for a second to an hour.
  pub validate_site-accepts :
      (settings compression : Report) (h : Site)
      → validate_site split_host_port is_ip settings compression h ≡ []
      → (h.domains ≢ [])
        × AllAccepted h.domains
        × (valid_algorithm h.algorithm ≡ true)
        × (h.upstreams ≢ [])
        × AllUsable split_host_port is_ip [] h.upstreams
        × AllMountable [] h.locations
        × (1 ≤ h.passive_health.max_fails)
        × (h.passive_health.max_fails ≤ 100)
        × (second ≤ h.passive_health.eject_for)
        × (h.passive_health.eject_for ≤ hour)
  unfolding validate_site
  validate_site-accepts settings compression h e =
      let (_, r1) = append-empty (name_report h.name) _ e in
      let (a, r2) = append-empty (report_if (length h.domains == 0) (codes "domains")) _ r1 in
      let (b, r3) = append-empty (domains_report 0 h.domains) _ r2 in
      let (c, r4) =
        append-empty (report_if (not (valid_algorithm h.algorithm)) (codes "algorithm")) _ r3 in
      let (d, r5) = append-empty (report_if (length h.upstreams == 0) (codes "upstreams")) _ r4 in
      let (u, r6) =
        append-empty (upstreams_report split_host_port is_ip (codes "upstreams") h.upstreams) _
          r5 in
      let (_, r7) = append-empty (tls_report h) _ r6 in
      let (_, r8) = append-empty (health_report h.health_check) _ r7 in
      let (_, r9) = append-empty settings _ r8 in
      let (_, r10) = append-empty (validate_headers (codes "headers") h.headers) _ r9 in
      let (_, r11) = append-empty compression _ r10 in
      let (_, r12) =
        append-empty (report_if (ltb 32 (length h.locations)) (codes "locations")) _ r11 in
      let (l, p) = append-empty (locations_report split_host_port is_ip 0 [] h.locations) _ r12 in
      let (p1, p2, p3, p4) = passive-range h.passive_health p in
      (
        length-nonempty h.domains (codes "domains") a,
        domains_report-AllAccepted 0 h.domains b,
        algorithm-known h.algorithm (codes "algorithm") c,
        length-nonempty h.upstreams (codes "upstreams") d,
        upstreams-AllUsable (codes "upstreams") h.upstreams u,
        locations-AllMountable 0 [] h.locations l,
        p1,
        p2,
        p3,
        p4,
      )
