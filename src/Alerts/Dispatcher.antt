-- ===== src/Alerts/Dispatcher.antt =====
-- internal/alerts/dispatcher.go: the queue of alerts and their delivery to the channels.
--
-- A time is a number of nanoseconds. The loop of Run is a function of the cases that its `select`
-- takes; an alert that is raised is an event between two of them. `sends` stands for the network:
-- the alerts that the dispatcher has begun to post to a channel, newest first, each with the time
-- that `deliver` read before the first channel, which is the one that the throttle goes by. A second
-- attempt belongs to the same send.
pub mod Spacing
pub mod Held
use ponz_proxy.Prelude.{
  ℕ, ◌+◌, ◌-◌, ◌%◌, ◌^◌, Bool, true, false, not, ◌&&◌, Option, none, some, List, [], ◌∷◌, ◌++◌, ltb,
  ◌==◌, if◌then◌else◌, length,
}
use ponz_proxy.Prelude.Text.{Text, codes, text_eq}
use ponz_proxy.Alerts.Channel.{Alert, Channel, wants, day}

abbrev pub queue_size : ℕ
queue_size = 256

pub record ThrottleKey : Type 0 where
  pub channel_id : ℕ
  pub event : Text
  pub subject : Text

unfoldable pub key_eq : ThrottleKey → ThrottleKey → Bool
key_eq j k =
    (j.channel_id == k.channel_id) && text_eq j.event k.event && text_eq j.subject k.subject

-- When each key last fired, as a function on the keys.
abbrev pub Throttle : Type 0
Throttle = ThrottleKey → Option ℕ

pub record Send : Type 0 where
  pub channel : Channel
  pub alert : Alert
  pub at : ℕ

pub record Dispatcher : Type 0 where
  pub queue : List Alert
  pub dropped : ℕ
  pub sent : ℕ
  pub failed : ℕ
  pub channels : List Channel
  pub throttle : Throttle
  pub sends : List Send

abbrev pub new_dispatcher : Dispatcher
new_dispatcher = record {
  queue = [];
  dropped = 0;
  sent = 0;
  failed = 0;
  channels = [];
  throttle = λ k. none;
  sends = [];
}

unfoldable pub raise : Alert → Dispatcher → Dispatcher
raise a d =
    if ltb (length d.queue) queue_size
    then record d { queue = d.queue ++ (a ∷ []) }
    else record d { dropped = (d.dropped + 1) % 2 ^ 64 }

-- The answer of the repository is none where it failed.
unfoldable pub reload : Option (List Channel) → Dispatcher → Dispatcher
reload none d = d
reload (some channels) d = record d { channels = channels }

abbrev pub key_of : Channel → Alert → ThrottleKey
key_of c a = record { channel_id = c.id; event = a.event; subject = a.subject }

unfoldable pub fired : ThrottleKey → ℕ → Throttle → Throttle
fired k now t j = if key_eq j k then some now else t j

unfoldable pub too_soon : Option ℕ → ℕ → ℕ → Bool
too_soon none now interval = false
too_soon (some last) now interval = ltb (now - last) interval

-- Whether the alert is held back, and what is remembered otherwise.
unfoldable pub throttled : Channel → Alert → ℕ → Throttle → Throttle × Bool
throttled c a now t =
    if too_soon (t (key_of c a)) now c.min_interval
    then (t, true)
    else (fired (key_of c a) now t, false)

unfoldable pub swept : ℕ → Option ℕ → Option ℕ
swept now none = none
swept now (some at) = if ltb (at + day) now then none else some at

unfoldable pub sweep_throttle : ℕ → Dispatcher → Dispatcher
sweep_throttle now d = record d { throttle = λ k. swept now (d.throttle k) }

-- What the two attempts on a webhook come to: the first that succeeds ends them, and a shutdown
-- between them leaves the alert neither sent nor failed.
pub data Outcome : Type 0 where
  succeeded : Outcome
  errored : Outcome
  shut_down : Outcome

unfoldable pub outcome : Bool → Bool → Bool → Outcome
outcome first cancelled second =
    if first
    then succeeded
    else if cancelled
    then shut_down
    else if second
    then succeeded
    else errored

unfoldable pub count_post : Outcome → Dispatcher → Dispatcher
count_post succeeded d = record d { sent = (d.sent + 1) % 2 ^ 64 }
count_post errored d = record d { failed = (d.failed + 1) % 2 ^ 64 }
count_post shut_down d = d

unfoldable pub alert_text : Alert → Text
alert_text a =
    if length a.detail == 0
    then a.title
    else a.title ++ ((32 ∷ 0xE2 ∷ 0x80 ∷ 0x94 ∷ 32 ∷ []) ++ a.detail)

pub data Event : Type 0 where
  raised : Alert → Event
  received : ℕ → Event
  reloaded : Option (List Channel) → Event
  sweep_tick : ℕ → Event

-- `attempt` is whether a webhook takes an alert, in the first or the second attempt at a time, and
-- `cancelled` whether the program is shut down between the two.
module _ (attempt : Channel → Alert → ℕ → ℕ → Bool) (cancelled : Channel → Alert → ℕ → Bool) where
  unfoldable pub post : Channel → Alert → ℕ → Dispatcher → Dispatcher
  post c a now d =
      count_post (outcome (attempt c a now 0) (cancelled c a now) (attempt c a now 1)) d

  unfoldable pub deliver_to : Channel → Alert → ℕ → Dispatcher → Dispatcher
  deliver_to c a now d =
      let (t, held) = throttled c a now d.throttle in
      let send : Send = record { channel = c; alert = a; at = now } in
      if not (wants c a.event)
      then d
      else if held
      then record d { throttle = t }
      else post c a now (record d { throttle = t; sends = send ∷ d.sends })

  unfoldable pub deliver_each : List Channel → Alert → ℕ → Dispatcher → Dispatcher
  deliver_each [] a now d = d
  deliver_each (c ∷ cs) a now d = deliver_each cs a now (deliver_to c a now d)

  unfoldable pub deliver : Alert → ℕ → Dispatcher → Dispatcher
  deliver a now d = deliver_each d.channels a now d

  unfoldable pub receive_next : List Alert → ℕ → Dispatcher → Dispatcher
  receive_next [] now d = d
  receive_next (a ∷ queue) now d = deliver a now (record d { queue = queue })

  unfoldable pub handle : Event → Dispatcher → Dispatcher
  handle (raised a) d = raise a d
  handle (received now) d = receive_next d.queue now d
  handle (reloaded answer) d = reload answer d
  handle (sweep_tick now) d = sweep_throttle now d

  unfoldable pub handle_all : List Event → Dispatcher → Dispatcher
  handle_all [] d = d
  handle_all (e ∷ es) d = handle_all es (handle e d)
