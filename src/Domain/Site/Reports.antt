-- ===== src/Domain/Site/Reports.antt =====
-- internal/domain/host.go and location.go: what `Validate` reports of a host.
use ponz_proxy.Prelude.{
  ℕ, suc, Bool, true, false, not, ◌&&◌, ◌||◌, Option, none, some, List, [], ◌∷◌, ◌++◌, map, ltb,
  ◌==◌, if◌then◌else◌, length,
}
use ponz_proxy.Prelude.Int.{pos, ltb_ℤ}
use ponz_proxy.Prelude.Text.{Text, codes, text_eq}
use ponz_proxy.Prelude.Strings.{has_prefix}
use ponz_proxy.Prelude.Fields.{itoa}
use ponz_proxy.Prelude.Entries.{member}
use ponz_proxy.Balancer.Backend.{Upstream, PassiveHealth}
use ponz_proxy.Balancer.Selector.{Algorithm}
use ponz_proxy.Proxy.Routing.Prefix.{slash}
use ponz_proxy.Cache.Setting.{second, hour}
use ponz_proxy.Domain.Names.{validate_domain}
use ponz_proxy.Domain.Upstreams.{UpstreamProblem, validate_upstreams}
use ponz_proxy.Domain.Options.{Report, report_if}
use ponz_proxy.Domain.Rewriting.{validate_headers}
use ponz_proxy.Domain.Site.{HealthCheck, SiteLocation, Site}

unfoldable pub valid_algorithm : Algorithm → Bool
valid_algorithm (Algorithm.other s) = false
valid_algorithm a = true

abbrev indexed : Text → ℕ → Text
indexed prefix i = prefix ++ codes "[" ++ itoa i ++ codes "]"

unfoldable pub upstream_field : Text → UpstreamProblem → Text
upstream_field prefix (UpstreamProblem.bad_scheme i) = indexed prefix i ++ codes ".scheme"
upstream_field prefix (UpstreamProblem.bad_address i e) = indexed prefix i ++ codes ".address"
upstream_field prefix (UpstreamProblem.bad_weight i) = indexed prefix i ++ codes ".weight"
upstream_field prefix (UpstreamProblem.duplicate i) = indexed prefix i ++ codes ".address"

unfoldable pub domains_report : ℕ → List Text → Report
domains_report i [] = []
domains_report i (d ∷ ds) =
    let rest = domains_report (suc i) ds in
    elim (validate_domain d) [ none ↦ rest | some e ↦ indexed (codes "domains") i ∷ rest ]

unfoldable pub has_space : Text → Bool
has_space [] = false
has_space (c ∷ s) = (c == 32) || (c == 9) || (c == 13) || (c == 10) || has_space s

unfoldable pub has_empty_segment : Text → Bool
has_empty_segment [] = false
has_empty_segment (c ∷ s) = has_prefix (c ∷ s) (codes "//") || has_empty_segment s

abbrev pub location_field : ℕ → Text → Text
location_field i name = indexed (codes "locations") i ++ name

unfoldable pub name_report : Text → Report
name_report name =
    if length name == 0 then codes "name" ∷ [] else report_if (ltb 100 (length name)) (codes "name")

abbrev unset_certificate : Site → Bool
unset_certificate h = elim h.certificate_id [ none ↦ true | some _ ↦ false ]

unfoldable pub tls_report : Site → Report
tls_report h =
    report_if (ltb_ℤ h.hsts_max_age (pos 0)) (codes "hstsMaxAge")
    ++ (report_if (ltb_ℤ (pos 0) h.hsts_max_age && unset_certificate h) (codes "hstsMaxAge")
        ++ report_if (h.force_https && unset_certificate h) (codes "forceHttps"))

unfoldable pub health_report : HealthCheck → Report
health_report hc =
    report_if
      (not (hc.expect_status == 0) && (ltb hc.expect_status 100 || ltb 599 hc.expect_status))
      (codes "healthCheck.expectStatus")

unfoldable pub passive_report : PassiveHealth → Report
passive_report ph =
    report_if (ltb ph.max_fails 1 || ltb 100 ph.max_fails) (codes "passiveHealth.maxFails")
    ++ report_if (ltb ph.eject_for second || ltb hour ph.eject_for) (codes "passiveHealth.ejectFor")

module _ (split_host_port : Text → Option (Text × Text)) (is_ip : Text → Bool) where
  unfoldable pub upstreams_report : Text → List Upstream → Report
  upstreams_report prefix us =
      map (upstream_field prefix) (validate_upstreams split_host_port is_ip us)

  unfoldable pub location_report : ℕ → SiteLocation → Report
  location_report i l =
      let path = location_field i (codes ".path") in
      report_if (not (has_prefix l.route.path slash)) path
      ++ (report_if (has_space l.route.path) path
          ++ (report_if (has_empty_segment l.route.path) path
              ++ (report_if (text_eq l.route.path slash) path
                  ++ (report_if (length l.route.upstreams == 0)
                        (location_field i (codes ".upstreams"))
                      ++ (upstreams_report (location_field i (codes ".upstreams")) l.route.upstreams
                          ++ validate_headers (location_field i (codes ".headers")) l.headers)))))

  unfoldable pub locations_report : ℕ → List Text → List SiteLocation → Report
  locations_report i seen [] = []
  locations_report i seen (l ∷ ls) =
      location_report i l
      ++ (report_if (member l.route.path seen) (location_field i (codes ".path"))
          ++ locations_report (suc i) (l.route.path ∷ seen) ls)

  -- `settings` are the reports of the guardian, the cache, the limits, the pages and the budget of the
  -- host, and `compression` those of its compression, in their places; Site/Complete fills them in.
  unfoldable pub validate_site : Report → Report → Site → Report
  validate_site settings compression h =
      name_report h.name
      ++ (report_if (length h.domains == 0) (codes "domains")
          ++ (domains_report 0 h.domains
              ++ (report_if (not (valid_algorithm h.algorithm)) (codes "algorithm")
                  ++ (report_if (length h.upstreams == 0) (codes "upstreams")
                      ++ (upstreams_report (codes "upstreams") h.upstreams
                          ++ (tls_report h
                              ++ (health_report h.health_check
                                  ++ (settings
                                      ++ (validate_headers (codes "headers") h.headers
                                          ++ (compression
                                              ++ (report_if (ltb 32 (length h.locations))
                                                    (codes "locations")
                                                  ++ (locations_report 0 [] h.locations
                                                      ++ passive_report h.passive_health))))))))))))
