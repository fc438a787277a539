-- ===== src/Limiter/Bucket.antt =====
-- internal/limiter/limiter.go: the record of one client and `judge`.
--
-- Times are nanoseconds. The bucket level, a float64 number of requests in the source, is held in
-- billionths of a request: `elapsed.Seconds() * rate` is then the exact product of two numbers.
-- Rounding of float64 is left out.
pub mod Rate
pub mod Retry
use ponz_proxy.Prelude.{
  ℕ, ◌+◌, ◌-◌, ◌*◌, ◌/◌, Bool, true, false, ◌&&◌, ltb, leb, ◌==◌, if◌then◌else◌,
}

-- One request, in billionths; also one second, in nanoseconds.
abbrev pub unit : ℕ
unit = 1_000_000_000

pub data Reason : Type 0 where
  none rate concurrency body_size : Reason

pub record Verdict : Type 0 where
  pub limited : Bool
  pub reason : Reason
  pub retry_after : ℕ

abbrev pub pass : Verdict
pass = record { limited = false; reason = Reason.none; retry_after = 0 }

-- After `TrafficLimits.Normalize`: no number is negative.
pub record Rules : Type 0 where
  pub requests_per_second : ℕ
  pub burst : ℕ
  pub max_concurrent : ℕ

pub record Client : Type 0 where
  pub tokens : ℕ
  pub last : ℕ
  pub active : ℕ
  pub seen : ℕ

unfoldable pub burst_of : Rules → ℕ
burst_of rules =
    if ltb rules.requests_per_second rules.burst
    then rules.burst
    else if ltb 0 rules.requests_per_second
    then rules.requests_per_second
    else 1

abbrev pub at_most : ℕ → ℕ → ℕ
at_most limit n = if ltb limit n then limit else n

-- What has flowed into the bucket since `last`.
unfoldable pub refill : Client → Rules → ℕ → Client
refill c rules now =
    if ltb c.last now
    then record c {
      tokens =
          at_most (burst_of rules * unit) (c.tokens + (now - c.last) * rules.requests_per_second);
      last = now;
    }
    else c

abbrev pub at_least : ℕ → ℕ → ℕ
at_least limit n = if ltb n limit then limit else n

-- A token is taken only from a client that is let through.
unfoldable pub spend : Client → Rules → Client × Verdict
spend c rules =
    if ltb c.tokens unit
    then (
      c,
      record {
        limited = true;
        reason = Reason.rate;
        retry_after = at_least unit ((unit - c.tokens) / rules.requests_per_second);
      },
    )
    else (record c { tokens = c.tokens - unit }, pass)

unfoldable pub judge : Client → Rules → ℕ → Client × Verdict
judge c rules now =
    if ltb 0 rules.max_concurrent && leb rules.max_concurrent c.active
    then (c, record { limited = true; reason = Reason.concurrency; retry_after = 0 })
    else if rules.requests_per_second == 0
    then (c, pass)
    else spend (refill c rules now) rules
