-- ===== src/Proxy/Limits.antt =====
-- internal/proxy/limits.go, with internal/domain/trafficlimit.go and mode.go: a host's traffic
-- limits, applied to one request.
pub mod Refusals
mod Tests
use ponz_proxy.Prelude.{
  ℕ, ◌+◌, ◌/◌, Bool, true, false, not, ◌&&◌, ◌||◌, Option, none, some, List, [], ◌∷◌, ltb, leb,
  ◌==◌, if◌then◌else◌, length,
}
use ponz_proxy.Prelude.Text.{Text, codes, text_eq}
use ponz_proxy.Prelude.Strings.{trim_space, to_lower}
use ponz_proxy.Limiter.Bucket.{unit, Reason, Verdict, pass, Rules}
use ponz_proxy.Limiter.Table.{Shard, Ticket, no_slot, acquire}

-- `Mode` is a string.
abbrev pub off : Text
off = codes "off"

abbrev pub detect : Text
detect = codes "detect"

abbrev pub block : Text
block = codes "block"

unfoldable pub mode_valid : Text → Bool
mode_valid m = text_eq m off || (text_eq m detect || text_eq m block)

unfoldable pub mode_enabled : Text → Bool
mode_enabled m = text_eq m detect || text_eq m block

unfoldable pub normalize_mode : Text → Text
normalize_mode m = let m' = to_lower (trim_space m) in if length m' == 0 then off else m'

-- After `Normalize`. `exempt` has the parsed ranges, by what addresses they contain.
pub record TrafficLimits : Type 0 where
  pub mode : Text
  pub requests_per_second : ℕ
  pub burst : ℕ
  pub max_concurrent : ℕ
  pub max_body_bytes : ℕ
  pub exempt : List (List ℕ → Bool)

unfoldable pub any_contains : List ℕ → List (List ℕ → Bool) → Bool
any_contains ip [] = false
any_contains ip (n ∷ ns) = n ip || any_contains ip ns

unfoldable pub is_exempt : TrafficLimits → Option (List ℕ) → Bool
is_exempt t none = false
is_exempt t (some ip) = any_contains ip t.exempt

abbrev pub rules_of : TrafficLimits → Rules
rules_of t = record {
  requests_per_second = t.requests_per_second;
  burst = t.burst;
  max_concurrent = t.max_concurrent;
}

-- The declared length, or none where it is unknown (-1).
unfoldable pub check_body : Option ℕ → ℕ → Verdict
check_body none max = pass
check_body (some n) max =
    if (max == 0) || leb n max
    then pass
    else record { limited = true; reason = Reason.body_size; retry_after = 0 }

-- What the client is told: nothing, or a status with a Retry-After in seconds.
pub data Answer : Type 0 where
  proceed : Answer
  refuse : ℕ → Option ℕ → Answer

unfoldable pub retry_seconds : ℕ → Option ℕ
retry_seconds wait =
    if ltb 0 wait then some (if ltb (wait / unit) 1 then 1 else wait / unit) else none

unfoldable pub status_of : Verdict → Answer
status_of v = elim (v.reason) [
  | Reason.body_size ↦ refuse 413 none
  | _ ↦ refuse 429 (retry_seconds v.retry_after)
]

unfoldable pub apply_limit : Verdict → Text → Answer
apply_limit v mode = if text_eq mode block then status_of v else proceed

-- `capped`: the body is cut off at `MaxBodyBytes` as it is read.
pub record Enforced : Type 0 where
  pub shard : Shard
  pub answer : Answer
  pub ticket : Ticket
  pub capped : Bool

unfoldable pub enforce_limits :
    ℕ → TrafficLimits → Option (List ℕ) → Option ℕ → Bool → ℕ → Shard → Enforced
enforce_limits host_id t ip content_length has_body now s =
    let untouched : Enforced = record {
      shard = s;
      answer = proceed;
      ticket = no_slot;
      capped = false;
    } in
    let body = check_body content_length t.max_body_bytes in
    let (s', v, ticket) = acquire host_id ip (rules_of t) now s in
    if not (mode_enabled t.mode)
    then untouched
    else if is_exempt t ip
    then untouched
    else if body.limited
    then record untouched { answer = apply_limit body t.mode }
    else if not v.limited
    then record {
      shard = s';
      answer = proceed;
      ticket = ticket;
      capped = ltb 0 t.max_body_bytes && has_body;
    }
    else record { shard = s'; answer = apply_limit v t.mode; ticket = ticket; capped = false }
