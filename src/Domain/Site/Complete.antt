-- ===== src/Domain/Site/Complete.antt =====
-- internal/domain/host.go: `Host.Validate` with the settings of the host that have rules of their own.
use ponz_proxy.Prelude.{◌≢◌, Bool, Option, none, some, ◌++◌, map, arith}
use ponz_proxy.Prelude.Text.{Text, codes}
use ponz_proxy.Cache.Setting as Setting
use ponz_proxy.Cache.Setting.{
  Problem, no_paths, too_many_paths, path_too_long, not_a_path, not_an_extension,
  matches_everything, ttl_range, max_ttl_short, max_ttl_long, object_range, budget_small,
  budget_large,
}
use ponz_proxy.Cache.Setting.Valid.{validate-normalize}
use ponz_proxy.Domain.Options.{
  Report, Guardian, Limits, Maintenance, validate_guardian, validate_limits, validate_maintenance,
}
use ponz_proxy.Domain.Rewriting.{
  Compression, ErrorPages, Budget, validate_compression, validate_pages, validate_budget,
}
use ponz_proxy.Domain.Site.{Site}
use ponz_proxy.Domain.Site.Reports.{validate_site}

pub record Settings : Type 0 where
  pub guardian : Guardian
  pub cache : Setting.Setting
  pub limits : Limits
  pub maintenance : Maintenance
  pub error_pages : ErrorPages
  pub usage_alert : Budget
  pub compression : Compression

-- The field that a problem of the cache setting is reported for.
unfoldable pub cache_field : Problem → Text
cache_field no_paths = codes "cache.paths"
cache_field too_many_paths = codes "cache.paths"
cache_field (path_too_long p) = codes "cache.paths"
cache_field (not_a_path p) = codes "cache.paths"
cache_field (not_an_extension p) = codes "cache.paths"
cache_field (matches_everything p) = codes "cache.paths"
cache_field ttl_range = codes "cache.ttl"
cache_field max_ttl_short = codes "cache.maxTtl"
cache_field max_ttl_long = codes "cache.maxTtl"
cache_field object_range = codes "cache.maxObjectBytes"
cache_field budget_small = codes "cache.maxBytes"
cache_field budget_large = codes "cache.maxBytes"

module _ (split_host_port : Text → Option (Text × Text)) (is_ip is_cidr : Text → Bool) where
  -- None where the validation of the cache setting panics.
  unfoldable pub validate_host : Settings → Site → Option Report
  validate_host s h = elim (Setting.validate s.cache) [
    | none ↦ none
    | some problems ↦ some (
        validate_site split_host_port is_ip
          (validate_guardian s.guardian
            ++ (map cache_field problems
                ++ (validate_limits is_cidr s.limits
                    ++ (validate_maintenance is_cidr s.maintenance
                        ++ (validate_pages s.error_pages ++ validate_budget s.usage_alert)))))
          (validate_compression s.compression) h)
  ]

  -- Once the cache setting is normalised there is no panic.
  pub validate_host-normalize :
      (s : Settings) (h : Site)
      → validate_host (record s { cache = Setting.normalize s.cache }) h ≢ none
  unfolding validate_host
  validate_host-normalize s h q =
      let (problems, e) = validate-normalize s.cache in ground (arith, rw (validate_host, e) at q)
