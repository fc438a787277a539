-- ===== src/Domain/Options.antt =====
-- internal/domain: what a host may switch on beside balancing, from mode.go, guardian.go,
-- trafficlimit.go and maintenance.go.
--
-- A validation error is the list of the fields that it names. The wording of the messages is left
-- out.
use ponz_proxy.Prelude.{
  ℕ, ◌^◌, Bool, true, false, not, ◌&&◌, ◌||◌, Option, none, some, List, [], ◌∷◌, ◌++◌, ltb, ◌==◌,
  if◌then◌else◌, length,
}
use ponz_proxy.Prelude.Text.{Text, codes, text_eq}
use ponz_proxy.Prelude.Strings.{trim_space, to_lower, cut}
use ponz_proxy.Prelude.Fields.{itoa}
use ponz_proxy.Proxy.Limits.{normalize_mode, mode_enabled}
use ponz_proxy.Prelude.Entries.{member, cleaned}

abbrev pub Report : Type 0
Report = List Text

abbrev pub report_if : Bool → Text → Report
report_if b f = if b then f ∷ [] else []

unfoldable pub valid_mode : Text → Bool
valid_mode m = text_eq m (codes "off") || text_eq m (codes "detect") || text_eq m (codes "block")

pub record Guardian : Type 0 where
  pub mode : Text
  pub rules : List Text
  pub max_uri_length : ℕ

abbrev pub guardian_rules : List Text
guardian_rules =
    codes "path_traversal"
    ∷ codes "sensitive_files"
    ∷ codes "control_characters"
    ∷ codes "scanner_agents"
    ∷ codes "sql_injection"
    ∷ codes "shell_injection"
    ∷ []

abbrev pub clean_rule : Text → Text
clean_rule r = to_lower (trim_space r)

unfoldable pub normalize_guardian : Guardian → Guardian
normalize_guardian g = record g {
  mode = normalize_mode g.mode;
  rules = cleaned clean_rule [] g.rules;
}

unfoldable pub unknown_rules : List Text → Report
unknown_rules [] = []
unknown_rules (r ∷ rs) =
    report_if (not (member r guardian_rules)) (codes "guardian.rules") ++ unknown_rules rs

unfoldable pub validate_guardian : Guardian → Report
validate_guardian g =
    report_if (not (valid_mode g.mode)) (codes "guardian.mode")
    ++ (unknown_rules g.rules
        ++ (report_if (mode_enabled g.mode && (length g.rules == 0)) (codes "guardian.rules")
            ++ report_if
                (not (g.max_uri_length == 0)
                  && (ltb g.max_uri_length 256 || ltb 65536 g.max_uri_length))
                (codes "guardian.maxUriLength")))

pub record Limits : Type 0 where
  pub mode : Text
  pub requests_per_second : ℕ
  pub burst : ℕ
  pub max_concurrent : ℕ
  pub max_body_bytes : ℕ
  pub exempt : List Text

abbrev has_byte : ℕ → Text → Bool
has_byte c s = elim (cut s c) [ none ↦ false | some _ ↦ true ]

pub record Maintenance : Type 0 where
  pub enabled : Bool
  pub status_code : ℕ
  pub title : Text
  pub message : Text
  pub retry_after_seconds : ℕ
  pub allow_from : List Text

-- `ip_width` is `net.ParseIP` with `To4`: 32 for an IPv4 address and 128 for another. `is_cidr` tells
-- whether `net.ParseCIDR` reads a range.
module _ (ip_width : Text → Option ℕ) where
  -- A bare address is widened to a range.
  unfoldable pub clean_cidr : Text → Text
  clean_cidr raw =
      let entry = trim_space raw in
      if has_byte 47 entry || (length entry == 0)
      then entry
      else elim (ip_width entry) [ none ↦ entry | some w ↦ entry ++ codes "/" ++ itoa w ]

  -- The text of `parseCIDRList`.
  unfoldable pub parse_cidr_list : List Text → List Text
  parse_cidr_list entries = cleaned clean_cidr [] entries

  unfoldable pub normalize_limits : Limits → Limits
  normalize_limits t = record t {
    mode = normalize_mode t.mode;
    burst = if ltb t.burst t.requests_per_second then t.requests_per_second else t.burst;
    exempt = parse_cidr_list t.exempt;
  }

  unfoldable pub normalize_maintenance : Maintenance → Maintenance
  normalize_maintenance m = record m {
    title = trim_space m.title;
    message = trim_space m.message;
    status_code = if m.status_code == 0 then 503 else m.status_code;
    allow_from = parse_cidr_list m.allow_from;
  }

module _ (is_cidr : Text → Bool) where
  unfoldable pub bad_ranges : Text → List Text → Report
  bad_ranges field [] = []
  bad_ranges field (e ∷ es) = report_if (not (is_cidr e)) field ++ bad_ranges field es

  unfoldable pub validate_limits : Limits → Report
  validate_limits t =
      report_if (not (valid_mode t.mode)) (codes "trafficLimits.mode")
      ++ (report_if (ltb (10 ^ 6) t.requests_per_second) (codes "trafficLimits.requestsPerSecond")
          ++ (report_if (ltb (10 ^ 6) t.burst) (codes "trafficLimits.burst")
              ++ (report_if (ltb (10 ^ 5) t.max_concurrent) (codes "trafficLimits.maxConcurrent")
                  ++ (report_if (ltb (2 ^ 40) t.max_body_bytes) (codes "trafficLimits.maxBodyBytes")
                      ++ (report_if (ltb 64 (length t.exempt)) (codes "trafficLimits.exempt")
                          ++ (bad_ranges (codes "trafficLimits.exempt") t.exempt
                              ++ report_if
                                  (mode_enabled t.mode
                                    && (t.requests_per_second == 0)
                                    && (t.max_concurrent == 0)
                                    && (t.max_body_bytes == 0))
                                  (codes "trafficLimits.mode")))))))

  unfoldable pub validate_maintenance : Maintenance → Report
  validate_maintenance m =
      report_if (not ((m.status_code == 200) || (m.status_code == 307) || (m.status_code == 503)))
        (codes "maintenance.statusCode")
      ++ (report_if (ltb 120 (length m.title)) (codes "maintenance.title")
          ++ (report_if (ltb 2000 (length m.message)) (codes "maintenance.message")
              ++ (report_if (ltb 86400 m.retry_after_seconds)
                    (codes "maintenance.retryAfterSeconds")
                  ++ (report_if (ltb 32 (length m.allow_from)) (codes "maintenance.allowFrom")
                      ++ (bad_ranges (codes "maintenance.allowFrom") m.allow_from
                          ++ report_if (m.enabled && (length m.title == 0))
                              (codes "maintenance.title"))))))
