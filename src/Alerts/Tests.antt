-- ===== src/Alerts/Tests.antt =====
-- internal/alerts/usage.go: a budget switched off and on again; dispatcher.go: a repeat held back.
use ponz_proxy.Prelude.{ℕ, ◌*◌, ◌≡◌, refl, Bool, true, false, some, List, [], ◌∷◌, map, arith, ◌==◌}
use ponz_proxy.Prelude.Text.{Text, codes, text_eq}
use ponz_proxy.Prelude.Entries.{member}
use ponz_proxy.Alerts.Channel.{Alert, Channel, webhook, upstream_recovered, minute, wants}
use ponz_proxy.Alerts.Dispatcher.{
  Dispatcher, Event, raised, received, reloaded, sweep_tick, Send, new_dispatcher, raise, reload,
  fired, too_soon, throttled, swept, sweep_throttle, key_eq, outcome, count_post, post, deliver_to,
  deliver_each, deliver, receive_next, handle, handle_all,
}
use ponz_proxy.Alerts.Dispatcher.Spacing.{Spaced, Timely, dispatched-Spaced}
use ponz_proxy.Prelude.Maps.{lookup, insert, keep}
use ponz_proxy.Alerts.Usage.{Budget, Usage, host_key, should_alert, forget, check_host}
use ponz_proxy.Alerts.Usage.Repeats.{reports, check_all, findings, check_all-reports}

abbrev channel : Channel
channel = record {
  id = 1;
  name = codes "ops";
  kind = webhook;
  enabled = true;
  url = codes "https://hooks.example.com/x";
  events = upstream_recovered ∷ [];
  min_interval = 5 * minute;
}

abbrev alert_at : ℕ → Text → Alert
alert_at n subject = record {
  event = upstream_recovered;
  severity = codes "info";
  timestamp = n;
  subject = subject;
  title = codes "back";
  detail = [];
  host = [];
  upstream = [];
}

abbrev alert_a : Alert
alert_a = alert_at 1 (codes "a")

abbrev alert_b : Alert
alert_b = alert_at 2 (codes "b")

-- The second alert on one subject comes too soon, the one after six minutes does not.
abbrev deliveries : List Event
deliveries =
    reloaded (some (channel ∷ []))
    ∷ raised alert_a
    ∷ raised alert_a
    ∷ raised alert_b
    ∷ received 10
    ∷ received 20
    ∷ received 30
    ∷ sweep_tick 40
    ∷ raised alert_a
    ∷ received (6 * minute)
    ∷ []

abbrev attempt : Channel → Alert → ℕ → ℕ → Bool
attempt c a now n = n == 1

abbrev cancelled : Channel → Alert → ℕ → Bool
cancelled c a now = false

deliveries-Timely : Timely 0 deliveries
deliveries-Timely = ground arith

dispatched-Spaced_example : Spaced (handle_all attempt cancelled deliveries new_dispatcher).sends
dispatched-Spaced_example = dispatched-Spaced attempt cancelled deliveries 0 deliveries-Timely

program : Unit {0}
unfolding handle_all handle raise reload receive_next deliver deliver_each deliver_to throttled
    too_soon fired key_eq post count_post outcome sweep_throttle swept wants member text_eq
program = tt

sent_at :
    map (λ (s : Send). s.at) (handle_all attempt cancelled deliveries new_dispatcher).sends
    ≡ 6 * minute ∷ 30 ∷ 10 ∷ []
unfolding program
sent_at = refl

abbrev delivered : Dispatcher
delivered = handle_all attempt cancelled deliveries new_dispatcher

abbrev used : ℕ → Usage
used n days = some (λ host. n)

abbrev budget : Budget
budget = record { host_id = 1; enabled = true; bytes = 10; period_days = 30 }

abbrev switched_off : Budget
switched_off = record budget { enabled = false }

abbrev checks : List (Usage × ℕ × Budget)
checks =
    (used 11, 1, budget)
    ∷ (used 9, 2, budget)
    ∷ (used 12, 3, budget)
    ∷ (used 12, 4, switched_off)
    ∷ (used 12, 5, budget)
    ∷ []

check_all-reports_example :
    check_all 1 checks [] ≡ reports (lookup (host_key 1) []) (findings 1 checks)
check_all-reports_example = check_all-reports 1 checks [] tt

-- Switching the budget off and on does not make the host news.
reported : check_all 1 checks [] ≡ 1 ∷ 3 ∷ []
unfolding check_all check_host should_alert forget lookup insert keep text_eq
reported = refl
