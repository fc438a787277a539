-- ===== src/Limiter/Bucket/Retry.antt =====
-- internal/limiter/limiter.go, `judge`: what a refused client is told.
use ponz_proxy.Prelude.{
  ℕ, ◌+◌, ◌-◌, ◌*◌, ◌≤◌, ◌<◌, ◌≡◌, sym, ◌∙◌, ap, Bool, true, false, ◌&&◌, arith, ltb, leb,
}
use native.Mathlib.Nat.{mul-le-mul_right, div-le_self}
use ponz_proxy.Limiter.Bucket.{unit, Reason, Rules, Client, burst_of, refill, spend, judge}

unit_le : (r : ℕ) → 0 < r → unit ≤ unit * r
unit_le r p = omega arith

burst_pos : (rules : Rules) → unit ≤ burst_of rules * unit
unfolding burst_of
burst_pos rules = ground arith

second_mul : (a b r : ℕ) → 0 < r → a + unit ≤ b → unit ≤ (b - a) * r
second_mul a b r p h = omega (arith, unit_le r p, mul-le-mul_right r (second_le h))
  where
    second_le : a + unit ≤ b → unit ≤ b - a
    second_le h = omega arith

-- After a second the bucket holds a request.
refill-second :
    (c : Client) (rules : Rules) (now : ℕ)
    → 0 < rules.requests_per_second
    → c.last + unit ≤ now
    → unit ≤ (refill c rules now).tokens
unfolding refill
refill-second c rules now p h =
    ground (arith, burst_pos rules, second_mul c.last now rules.requests_per_second p h)

refill-active : (c : Client) (rules : Rules) (now : ℕ) → (refill c rules now).active ≡ c.active
unfolding refill
refill-active c rules now = ground arith

refill-last :
    (c : Client) (rules : Rules) (now : ℕ) → c.last ≤ now → (refill c rules now).last ≤ now
unfolding refill
refill-last c rules now h = ground arith

spend-refused :
    (c : Client) (rules : Rules)
    → (spend c rules).1.limited ≡ true
    → ((spend c rules).0 ≡ c) × ((spend c rules).1.retry_after ≡ unit)
unfolding spend
spend-refused c rules h = ground (arith, div-le_self (unit - c.tokens) rules.requests_per_second)

spend-passed : (c : Client) (rules : Rules) → unit ≤ c.tokens → (spend c rules).1.limited ≡ false
unfolding spend
spend-passed c rules h = ground arith

abbrev pub full : Rules → ℕ → Bool
full rules n = ltb 0 rules.max_concurrent && leb rules.max_concurrent n

spend-reason :
    (c : Client) (rules : Rules)
    → (spend c rules).1.reason ≡ Reason.rate
    → (spend c rules).1.limited ≡ true
unfolding spend
spend-reason c rules h = ground arith

pub judge-free :
    (c : Client) (rules : Rules) (now : ℕ)
    → 0 < rules.requests_per_second
    → full rules c.active ≡ false
    → judge c rules now ≡ spend (refill c rules now) rules
unfolding judge
judge-free c rules now p h = ground (arith, h)

judge-rate :
    (c : Client) (rules : Rules) (now : ℕ)
    → (judge c rules now).1.reason ≡ Reason.rate
    → (0 < rules.requests_per_second) × (full rules c.active ≡ false)
unfolding judge
judge-rate c rules now h = ground arith

judge-second :
    (c : Client) (rules : Rules) (now : ℕ)
    → 0 < rules.requests_per_second
    → full rules c.active ≡ false
    → c.last + unit ≤ now
    → (judge c rules now).1.limited ≡ false
judge-second c rules now p free h =
    ap (λ x. x.1.limited) (judge-free c rules now p free)
    ∙ spend-passed (refill c rules now) rules (refill-second c rules now p h)

-- A client refused for its rate is told to come back after one second, and when it does so it is
-- let through.
pub judge-retry :
    (c : Client) (rules : Rules) (now later : ℕ)
    → c.last ≤ now
    → (judge c rules now).1.reason ≡ Reason.rate
    → now + (judge c rules now).1.retry_after ≤ later
    → ((judge c rules now).1.retry_after ≡ unit)
      × ((judge (judge c rules now).0 rules later).1.limited ≡ false)
judge-retry c rules now later h r l =
    let (p, free) = judge-rate c rules now r in
    let e = judge-free c rules now p free in
    let refused =
      spend-refused (refill c rules now) rules
        (spend-reason (refill c rules now) rules (ap (λ x. x.1.reason) (sym e) ∙ r)) in
    let waits = ap (λ x. x.1.retry_after) e ∙ refused.1 in
    let e0 = ap (λ x. x.0) e ∙ refused.0 in
    let slot = ap (full rules) (refill-active c rules now) ∙ free in
    (
      waits,
      ap (λ x. (judge x rules later).1.limited) e0
          ∙ judge-second (refill c rules now) rules later p slot
              (omega (arith, refill-last c rules now h, waits, l)),
    )
