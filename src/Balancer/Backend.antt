-- ===== src/Balancer/Backend.antt =====
-- internal/balancer/backend.go: one upstream and what the proxy learns about it at runtime.
--
-- A method returns the new backend beside its result. Times are Unix nanoseconds. Each call is one
-- step: the atomics and the mutex of the source make a call's effect on its fields indivisible.
pub mod Probes
pub mod Ejection
use ponz_proxy.Prelude.{
  ℕ, suc, ◌+◌, ◌-◌, ◌*◌, ◌%◌, ◌^◌, Bool, true, false, not, ◌&&◌, ◌||◌, Option, none, some, ◌++◌,
  ltb, leb, ◌==◌, bool_ne, if◌then◌else◌,
}
use ponz_proxy.Prelude.Int.{ℤ, pos, ◌+ℤ◌, ◌-ℤ◌, ltb_ℤ}
use ponz_proxy.Prelude.Text.{Text, codes}

-- domain.Upstream, after `NormalizeUpstreams`: the weight and the limit are not negative.
pub record Upstream : Type 0 where
  pub id : ℕ
  pub host_id : ℕ
  pub scheme : Text
  pub address : Text
  pub weight : ℕ
  pub max_conns : ℕ
  pub enabled : Bool
  pub skip_tls_verify : Bool

-- domain.PassiveHealth, after `Host.Normalize`. `eject_for` is in nanoseconds.
pub record PassiveHealth : Type 0 where
  pub enabled : Bool
  pub max_fails : ℕ
  pub eject_for : ℕ

pub record Backend : Type 0 where
  pub upstream : Upstream
  pub key : Text
  pub healthy : Bool
  pub active_conns : ℤ
  pub total_requests : ℕ
  pub total_latency : ℕ
  pub last_error : Option Text
  pub consecutive_ok : ℕ
  pub consecutive_fail : ℕ
  pub ejected_until : ℕ
  pub proxy_fails : ℕ
  pub current_weight : ℤ

unfoldable pub backend_key : Upstream → Text
backend_key u = u.scheme ++ codes "://" ++ u.address

unfoldable pub new_backend : Upstream → Backend
new_backend u = record {
  upstream = u;
  key = backend_key u;
  healthy = true;
  active_conns = pos 0;
  total_requests = 0;
  total_latency = 0;
  last_error = none;
  consecutive_ok = 0;
  consecutive_fail = 0;
  ejected_until = 0;
  proxy_fails = 0;
  current_weight = pos 0;
}

-- Whether passive health has the backend out of rotation, and for how much longer.
unfoldable pub ejected : Backend → ℕ → Bool × ℕ
ejected b now =
    if b.ejected_until == 0
    then (false, 0)
    else let left = b.ejected_until - now in if left == 0 then (false, 0) else (true, left)

unfoldable pub available : Backend → ℕ → Bool
unfolding ejected
available b now = if not b.healthy then false else not (ejected b now).0

unfoldable pub record_proxy_result : Backend → Bool → PassiveHealth → ℕ → Backend × Bool
unfolding ejected
record_proxy_result b success cfg now =
    if not cfg.enabled
    then (b, false)
    else if success
    then (record b { proxy_fails = 0; ejected_until = 0 }, not (b.ejected_until == 0))
    else if ltb (b.proxy_fails + 1) cfg.max_fails
    then (record b { proxy_fails = b.proxy_fails + 1 }, false)
    else (record b { proxy_fails = 0; ejected_until = now + cfg.eject_for }, not (ejected b now).0)

unfoldable pub clear_ejection : Backend → Backend
clear_ejection b = record b { proxy_fails = 0; ejected_until = 0 }

unfoldable pub set_healthy : Backend → Bool → Backend × Bool
set_healthy b v = (record b { healthy = v }, bool_ne b.healthy v)

unfoldable pub acquire : Backend → Backend
acquire b = record b { active_conns = b.active_conns +ℤ pos 1 }

-- The counters are uint64 and wrap. `latency` is in milliseconds.
unfoldable pub release : Backend → ℕ → Backend
release b latency = record b {
  active_conns = b.active_conns -ℤ pos 1;
  total_requests = (b.total_requests + 1) % 2 ^ 64;
  total_latency = (b.total_latency + latency) % 2 ^ 64;
}

unfoldable pub has_capacity : Backend → Bool
has_capacity b = b.upstream.max_conns == 0 || ltb_ℤ b.active_conns (pos b.upstream.max_conns)

unfoldable pub record_error : Backend → Option Text → Backend
record_error b err = record b { last_error = err }

unfoldable pub record_probe : Backend → Bool → ℕ → ℕ → Backend × Bool
unfolding set_healthy record_error
record_probe b success healthy_threshold unhealthy_threshold =
    if success
    then (let up = record b { consecutive_fail = 0; consecutive_ok = b.consecutive_ok + 1 } in
        if not up.healthy && leb healthy_threshold up.consecutive_ok
        then set_healthy (record_error up none) true
        else (up, false))
    else (let down = record b { consecutive_ok = 0; consecutive_fail = b.consecutive_fail + 1 } in
        if down.healthy && leb unhealthy_threshold down.consecutive_fail
        then set_healthy down false
        else (down, false))

-- `active_conns` starts at zero: requests in flight stay counted against the old backend.
unfoldable pub inherit_from : Backend → Backend → Backend
inherit_from b old = record b {
  healthy = old.healthy;
  total_requests = old.total_requests;
  total_latency = old.total_latency;
  last_error = old.last_error;
  ejected_until = old.ejected_until;
  proxy_fails = old.proxy_fails;
  consecutive_ok = old.consecutive_ok;
  consecutive_fail = old.consecutive_fail;
}
