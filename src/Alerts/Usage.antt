-- ===== src/Alerts/Usage.antt =====
-- internal/alerts/usage.go: the watcher that compares each host's traffic with its budget.
--
-- Hosts are visited in the order of the list; the source groups them by window, and what it does
-- for a host depends on no other host.
pub mod Repeats
use ponz_proxy.Prelude.{
  ℕ, ◌+◌, ◌-◌, Bool, true, false, not, ◌||◌, Option, none, some, List, [], ◌∷◌, ◌++◌, ltb, ◌==◌,
  if◌then◌else◌,
}
use ponz_proxy.Prelude.Text.{Text}
use ponz_proxy.Prelude.Maps.{lookup, insert, delete, keep}

-- `usageRepeat`: a day in nanoseconds.
abbrev pub usage_repeat : ℕ
usage_repeat = 86_400_000_000_000

-- What the watcher reads of a host and its `UsageAlert`.
pub record Budget : Type 0 where
  pub host_id : ℕ
  pub enabled : Bool
  pub bytes : ℕ
  pub period_days : ℕ

-- When each host was last reported.
abbrev pub LastAlert : Type 0
LastAlert = List (Text × ℕ)

abbrev pub host_key : ℕ → Text
host_key host_id = host_id ∷ []

unfoldable pub should_alert : ℕ → ℕ → LastAlert → LastAlert × Bool
should_alert host_id at m = elim (lookup (host_key host_id) m) [
  | none ↦ (insert (host_key host_id) at m, true)
  | some last ↦
      if ltb (at - last) usage_repeat then (m, false) else (insert (host_key host_id) at m, true)
]

unfoldable pub forget : ℕ → LastAlert → LastAlert
forget host_id m = delete (host_key host_id) m

-- `usage` is the answer of the metrics store for a number of days: what each host transferred, or
-- none where the query failed.
abbrev pub Usage : Type 0
Usage = ℕ → Option (ℕ → ℕ)

unfoldable pub check_host : Usage → ℕ → Budget → LastAlert → LastAlert × Bool
check_host usage now h m =
    let (told, alert) = should_alert h.host_id now m in
    if not h.enabled || (h.bytes == 0) then (m, false) else elim (usage h.period_days) [
      | none ↦ (m, false)
      | some used ↦
          if ltb (used h.host_id) h.bytes then (forget h.host_id m, false) else (told, alert)
    ]

-- The hosts that are reported, in turn.
unfoldable pub check : Usage → ℕ → List Budget → LastAlert → LastAlert × List ℕ
check usage now [] m = (m, [])
check usage now (h ∷ hs) m =
    let (m', alert) = check_host usage now h m in
    let (last, reported) = check usage now hs m' in
    (last, if alert then h.host_id ∷ reported else reported)
