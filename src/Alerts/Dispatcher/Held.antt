-- ===== src/Alerts/Dispatcher/Held.antt =====
-- internal/alerts/dispatcher.go: which alerts are held back.
use ponz_proxy.Prelude.{ℕ, ◌≡◌, some, List, get_elem?}
use ponz_proxy.Alerts.Channel.{Channel}
use ponz_proxy.Alerts.Dispatcher.{ThrottleKey, Throttle, Send, Dispatcher}
use ponz_proxy.Alerts.Dispatcher.Spacing.{send_key}

-- A send with that key came at that time.
abbrev pub Told : ThrottleKey → ℕ → List Send → Type 0
Told k at ps = (i : ℕ) × (p : Send) × (get_elem? ps i ≡ some p) × (send_key p ≡ k) × (p.at ≡ at)

-- All that is remembered was sent.
abbrev Backed : Throttle → List Send → Type 0
Backed t ps = (k : ThrottleKey) (last : ℕ) → t k ≡ some last → Told k last ps

abbrev Remembers : Dispatcher → Type 0
Remembers d = Backed d.throttle d.sends
