-- ===== src/Limiter/Tests.antt =====
-- internal/limiter: runs of the limiter at concrete numbers.
use ponz_proxy.Prelude.{
  ℕ, ◌+◌, ◌-◌, ◌*◌, ◌≤◌, ◌≡◌, refl, some, List, [], ◌∷◌, arith, replicate, ◌++◌,
}
use ponz_proxy.Prelude.Text.{Text, text_eq}
use ponz_proxy.Prelude.Maps.{Distinct, lookup, insert, keep}
use ponz_proxy.Limiter.Bucket.{unit, Rules, Client, burst_of, judge, spend, refill}
use ponz_proxy.Limiter.Bucket.Rate.{judge_all, judge_all-rate}
use ponz_proxy.Limiter.Table.{
  Shard, key_of, addr_key, to4, find, make_room, acquire, give_back, release, sweep_once,
}
use ponz_proxy.Limiter.Table.Counts.{active_of}
use ponz_proxy.Limiter.Table.Tickets.{Event, step, run, outstanding, run-active}
use ponz_proxy.Limiter.Table.Sweeping.{acquire-sweep}

-- Two requests a second, bursts of three, two at a time.
abbrev rules : Rules
rules = record { requests_per_second = 2; burst = 3; max_concurrent = 2 }

abbrev full_client : Client
full_client = record { tokens = 3 * unit; last = 0; active = 0; seen = 0 }

abbrev empty_client : Client
empty_client = record { tokens = 0; last = 0; active = 0; seen = 0 }

abbrev local : List ℕ
local = 127 ∷ 0 ∷ 0 ∷ 1 ∷ []

abbrev local_v6 : List ℕ
local_v6 = replicate 10 0 ++ (255 ∷ 255 ∷ local)

abbrev local_key : Text
local_key = 1 ∷ local_v6

burst_then_refused : judge_all full_client rules ((0, 0) ∷ (0, 0) ∷ (0, 0) ∷ (0, 0) ∷ []) ≡ 3
unfolding judge_all judge refill spend burst_of
burst_then_refused = refl

mapped_address : addr_key local ≡ addr_key local_v6
unfolding addr_key to4 text_eq
mapped_address = refl

judge_all-rate_example :
    judge_all full_client rules ((unit, 0) ∷ (unit, 1) ∷ (unit, 2) ∷ []) * unit
    ≤ burst_of rules * unit + (unit - unit) * 2
unfolding burst_of
judge_all-rate_example =
    judge_all-rate full_client rules unit unit ((unit, 0) ∷ (unit, 1) ∷ (unit, 2) ∷ [])
      (omega arith) (omega arith) (omega arith)
      (omega arith, omega arith, (omega arith, omega arith, (omega arith, omega arith, tt)))

abbrev visits : List Event
visits =
    Event.arrive 1 (some local) rules 0
    ∷ Event.arrive 1 (some local_v6) rules 0
    ∷ Event.arrive 1 (some local) rules 0
    ∷ Event.finish 0
    ∷ Event.finish 0
    ∷ []

run-active_example :
    active_of local_key (run visits ([], [])).0 ≡ outstanding local_key (run visits ([], [])).1
run-active_example = run-active visits local_key

one_left : outstanding local_key (run visits ([], [])).1 ≡ 1
unfolding run step acquire release give_back make_room find judge refill spend burst_of addr_key to4
    lookup insert text_eq
one_left = refl

abbrev idle : Shard
idle = (local_key, full_client) ∷ []

idle-Distinct : Distinct idle
unfolding lookup
idle-Distinct = (refl, tt)

abbrev an_hour : ℕ
an_hour = 3600 * unit

acquire-sweep_example :
    let swept = acquire 1 (some local) rules an_hour (sweep_once an_hour idle) in
    let kept = acquire 1 (some local) rules an_hour idle in
    (swept.1 ≡ kept.1)
    × (swept.2 ≡ kept.2)
    × (lookup (key_of 1 local) swept.0 ≡ lookup (key_of 1 local) kept.0)
unfolding burst_of
acquire-sweep_example =
    acquire-sweep 1 local rules an_hour an_hour idle (omega arith) (omega arith) idle-Distinct
      (omega arith, tt) (omega arith)

sweep_drops : sweep_once an_hour idle ≡ []
unfolding sweep_once keep
sweep_drops = refl
