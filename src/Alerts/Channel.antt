-- ===== src/Alerts/Channel.antt =====
-- internal/domain/alert.go: events, alerts, and the channels that alerts go to.
--
-- An event is a text, as in the source. `parse_url` is `url.Parse`.
use ponz_proxy.Prelude.{
  ℕ, ◌*◌, Bool, false, not, ◌&&◌, ◌||◌, Option, none, some, List, [], ◌∷◌, ◌++◌, ltb, ◌==◌,
  if◌then◌else◌, length,
}
use ponz_proxy.Prelude.Text.{Text, codes, text_eq}
use ponz_proxy.Prelude.Strings.{trim_space, to_lower}
use ponz_proxy.Prelude.Entries.{member, cleaned}
use ponz_proxy.Domain.Options.{Report, report_if}
use ponz_proxy.Domain.Redirect.{Url}

abbrev pub upstream_recovered : Text
upstream_recovered = codes "upstream_recovered"

abbrev pub certificate_expiring : Text
certificate_expiring = codes "certificate_expiring"

abbrev pub usage_exceeded : Text
usage_exceeded = codes "usage_exceeded"

abbrev pub alert_events : List Text
alert_events =
    codes "upstream_down"
    ∷ upstream_recovered
    ∷ codes "upstream_ejected"
    ∷ codes "host_unavailable"
    ∷ certificate_expiring
    ∷ codes "certificate_failed"
    ∷ usage_exceeded
    ∷ []

unfoldable pub event_valid : Text → Bool
event_valid e = member e alert_events

unfoldable pub severity : Text → Text
severity e =
    if text_eq e upstream_recovered
    then codes "info"
    else if text_eq e certificate_expiring || text_eq e usage_exceeded
    then codes "warning"
    else codes "critical"

pub record Alert : Type 0 where
  pub event : Text
  pub severity : Text
  pub timestamp : ℕ
  pub subject : Text
  pub title : Text
  pub detail : Text
  pub host : Text
  pub upstream : Text

unfoldable pub new_alert : ℕ → Text → Text → Text → Text → Alert
new_alert now event subject title detail = record {
  event = event;
  severity = severity event;
  timestamp = now;
  subject = subject;
  title = title;
  detail = detail;
  host = [];
  upstream = [];
}

pub record Channel : Type 0 where
  pub id : ℕ
  pub name : Text
  pub kind : Text
  pub enabled : Bool
  pub url : Text
  pub events : List Text
  pub min_interval : ℕ

abbrev pub webhook : Text
webhook = codes "webhook"

unfoldable pub wants : Channel → Text → Bool
wants c e = if not c.enabled then false else member e c.events

abbrev pub minute : ℕ
minute = 60_000_000_000

abbrev pub day : ℕ
day = 86_400_000_000_000

unfoldable pub clean_event : Text → Text
clean_event e = to_lower (trim_space e)

unfoldable pub normalize_channel : Channel → Channel
normalize_channel c = record c {
  name = trim_space c.name;
  url = trim_space c.url;
  kind = if length c.kind == 0 then webhook else c.kind;
  min_interval = if c.min_interval == 0 then 5 * minute else c.min_interval;
  events = cleaned clean_event [] c.events;
}

unfoldable pub unknown_events : List Text → Report
unknown_events [] = []
unknown_events (e ∷ es) = report_if (not (event_valid e)) (codes "events") ++ unknown_events es

module _ (parse_url : Text → Option Url) where
  -- Whether an alert can be posted to it.
  unfoldable pub webhook_url_valid : Text → Bool
  webhook_url_valid raw = if length raw == 0 then false else elim (parse_url raw) [
    | none ↦ false
    | some u ↦
        (text_eq u.scheme (codes "http") || text_eq u.scheme (codes "https"))
        && not (length u.host == 0)
  ]

  unfoldable pub validate_channel : Channel → Report
  validate_channel c =
      report_if (length c.name == 0) (codes "name")
      ++ (report_if (not (text_eq c.kind webhook)) (codes "type")
          ++ (report_if (not (webhook_url_valid c.url)) (codes "url")
              ++ (report_if (length c.events == 0) (codes "events")
                  ++ (unknown_events c.events
                      ++ report_if (ltb c.min_interval minute || ltb day c.min_interval)
                          (codes "minInterval")))))
