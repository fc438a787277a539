-- ===== src/Proxy/Limits/Refusals.antt =====
-- internal/proxy/limits.go: what the limits refuse, and how.
use ponz_proxy.Prelude.{
  ℕ, ◌-◌, ◌≡◌, ◌≢◌, refl, ◌⊎◌, inl, inr, Bool, true, Option, none, some, List, arith,
}
use ponz_proxy.Prelude.Text.{Text, text_eq_iff}
use native.Mathlib.Nat.{div-le_self}
use ponz_proxy.Limiter.Bucket.{unit, Reason, Verdict, Rules, Client, refill, spend, judge}
use ponz_proxy.Limiter.Table.{Shard, key_of, find, acquire}
use ponz_proxy.Proxy.Limits.{
  block, TrafficLimits, rules_of, check_body, Answer, retry_seconds, status_of, apply_limit,
  enforce_limits,
}

judge-wait :
    (c : Client) (rules : Rules) (now : ℕ)
    → let v = (judge c rules now).1 in
      (v.reason ≢ Reason.body_size) × ((v.retry_after ≡ 0) ⊎ (v.retry_after ≡ unit))
unfolding judge spend
judge-wait c rules now =
    ground (arith, div-le_self (unit - (refill c rules now).tokens) rules.requests_per_second)

acquire-refused :
    (host_id : ℕ) (ip : Option (List ℕ)) (rules : Rules) (now : ℕ) (s : Shard)
    → let (_, v, ticket) = acquire host_id ip rules now s in
      v.limited ≡ true
      → (ticket.slot ≡ none)
        × (v.reason ≢ Reason.body_size)
        × ((v.retry_after ≡ 0) ⊎ (v.retry_after ≡ unit))
unfolding acquire
acquire-refused host_id none rules now s h = ground (arith, h)
acquire-refused host_id (some ip) rules now s h =
    ground (
      arith,
      h,
      judge-wait (record (find (key_of host_id ip) rules now s) { seen = now }) rules now,
    )

retry-one :
    (wait : ℕ)
    → (wait ≡ 0) ⊎ (wait ≡ unit)
    → (retry_seconds wait ≡ none) ⊎ (retry_seconds wait ≡ some 1)
unfolding retry_seconds
retry-one wait (inl e) = inl (rw e refl)
retry-one wait (inr e) = inr (rw e refl)

abbrev pub Told : ℕ → Option ℕ → Type 0
Told status retry = (status ≡ 429) × ((retry ≡ none) ⊎ (retry ≡ some 1))

status_of-Told :
    (v : Verdict) (status : ℕ) (retry : Option ℕ)
    → v.reason ≢ Reason.body_size
    → (v.retry_after ≡ 0) ⊎ (v.retry_after ≡ unit)
    → status_of v ≡ Answer.refuse status retry
    → Told status retry
unfolding status_of
status_of-Told v status retry n w e = ground (arith, n, e, retry-one v.retry_after w)

apply_limit-block :
    (v : Verdict) (mode : Text) (status : ℕ) (retry : Option ℕ)
    → apply_limit v mode ≡ Answer.refuse status retry
    → (mode ≡ block) × (status_of v ≡ Answer.refuse status retry)
unfolding apply_limit
apply_limit-block v mode status retry e = ground (arith, e, text_eq_iff mode block)

check_body-limited :
    (n : Option ℕ) (max status : ℕ) (retry : Option ℕ)
    → (check_body n max).limited ≡ true
    → status_of (check_body n max) ≡ Answer.refuse status retry
    → (status ≡ 413) × (retry ≡ none)
unfolding check_body status_of
check_body-limited none max status retry h e = ground (arith, h)
check_body-limited (some n) max status retry h e = ground (arith, h, e)

-- A request is only refused in block mode, and takes no slot. It is told 413 for its declared
-- length, and then the limiter has not heard of it; or else 429, with one second to wait or none.
pub enforce_limits-refused :
    (host_id : ℕ) (t : TrafficLimits) (ip : Option (List ℕ)) (content_length : Option ℕ)
    (has_body : Bool) (now : ℕ) (s : Shard) (status : ℕ) (retry : Option ℕ)
    → let r = enforce_limits host_id t ip content_length has_body now s in
      r.answer ≡ Answer.refuse status retry
      → (t.mode ≡ block)
        × (r.ticket.slot ≡ none)
        × (((status ≡ 413) × (retry ≡ none) × (r.shard ≡ s)) ⊎ Told status retry)
unfolding enforce_limits
enforce_limits-refused host_id t ip content_length has_body now s status retry e =
    let body = check_body content_length t.max_body_bytes in
    let r = acquire host_id ip (rules_of t) now s in
    ground (
      arith,
      e,
      apply_limit-block body t.mode status retry,
      apply_limit-block r.1 t.mode status retry,
      check_body-limited content_length t.max_body_bytes status retry,
      status_of-Told r.1 status retry,
      acquire-refused host_id ip (rules_of t) now s,
    )
