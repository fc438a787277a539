-- ===== src/Proxy/Tests.antt =====
-- internal/proxy: the theorems at concrete inputs.
use ponz_proxy.Prelude.{
  ℕ, ◌≡◌, refl, true, false, Option, none, some, [], ◌∷◌, ltb, ◌==◌, if◌then◌else◌,
}
use ponz_proxy.Prelude.Int.{pos, ◌+ℤ◌, ◌-ℤ◌}
use ponz_proxy.Prelude.Text.{Text, codes}
use ponz_proxy.Balancer.Backend.{
  Backend, PassiveHealth, new_backend, available, has_capacity, acquire, release, record_error,
  record_proxy_result,
}
use ponz_proxy.Balancer.Selector.{Floats, Algorithm, rotating, select, rotate}
use ponz_proxy.Balancer.Pool.{Pool, pick, choose, gather, eligible, contains_backend, write_back}
use ponz_proxy.Proxy.Forward.{
  Request, Attempt, Outcome, served, abort, can_replay, modify, ejects, settled, forward_loop,
  forward,
}
use ponz_proxy.Proxy.Forward.Attempts.{Sound, forward-Sound}
use ponz_proxy.Proxy.Forward.Slots.{in_flight, slots_after, forward-in_flight}

abbrev server : Text → Backend
server address = new_backend (record {
  id = 1;
  host_id = 1;
  scheme = codes "http";
  address = address;
  weight = 1;
  max_conns = 0;
  enabled = true;
  skip_tls_verify = false;
})

abbrev two_servers : Pool
two_servers = record {
  host_id = 1;
  algorithm = Algorithm.round_robin;
  backends = server (codes "a:1") ∷ server (codes "b:1") ∷ [];
  selector = rotating 0;
}

abbrev numbers : Floats
numbers = record { Score = ℕ; neg_inf = 0; score = λ bits weight. bits; gt = λ a b. ltb b a }

abbrev request : Request
request = record { client_ip = codes "10.0.0.9"; content_length = pos 0; has_body = false }

abbrev passive : PassiveHealth
passive = record { enabled = true; max_fails = 3; eject_for = 30 }

-- The first backend refuses connections.
abbrev refusing : ℕ → ℕ → Attempt
refusing n i = record {
  ended_at = 100;
  latency = 5;
  upstream_err = if i == 0 then some (codes "connection refused") else none;
  dirty = false;
  aborted = false;
}

-- The second backend breaks off its response.
abbrev breaking : ℕ → ℕ → Attempt
breaking n i = record (refusing n i) { aborted = i == 1 }

abbrev answer : Option Outcome
answer = forward (λ s. 0) numbers passive 2 request (λ n. 100) refusing (λ n p. p) two_servers

forward-Sound_example :
    (o : Outcome) × (forward
        (λ s. 0)
        numbers
        passive
        2
        request
        (λ n. 100)
        refusing
        (λ n p. p)
        two_servers
      ≡ some o)
    × Sound (λ s. 0) numbers passive 2 request (λ n. 100) refusing (λ n p. p) o
forward-Sound_example =
    forward-Sound (λ s. 0) numbers passive 2 request (λ n. 100) refusing (λ n p. p) two_servers

program : Unit {0}
unfolding new_backend available has_capacity acquire release record_error record_proxy_result select
    rotate pick choose gather eligible contains_backend write_back can_replay modify ejects settled
    forward_loop forward ◌+ℤ◌ ◌-ℤ◌
program = tt

abbrev outcome : Outcome
outcome = record {
  pool = record two_servers {
    backends =
        record (server (codes "a:1")) {
          total_requests = 1;
          total_latency = 5;
          last_error = some (codes "connection refused");
          proxy_fails = 1;
        }
        ∷ record (server (codes "b:1")) { total_requests = 1; total_latency = 5 }
        ∷ [];
    selector = rotating 2;
  };
  tried = 0 ∷ 1 ∷ [];
  alerts = [];
  reply = served 1;
}

forward_retries : answer ≡ some outcome
unfolding program
forward_retries = refl

abbrev broken : Outcome
broken = record outcome {
  pool = record outcome.pool {
    backends =
        record (server (codes "a:1")) {
          total_requests = 1;
          total_latency = 5;
          last_error = some (codes "connection refused");
          proxy_fails = 1;
        }
        ∷ record (server (codes "b:1")) { active_conns = pos 1 }
        ∷ [];
  };
  reply = abort 1;
}

-- The slot at the second backend is not given back.
forward-in_flight_example :
    in_flight broken.pool.backends ≡ slots_after broken.reply (in_flight two_servers.backends)
unfolding program
forward-in_flight_example =
    forward-in_flight (λ s. 0) numbers passive 2 request (λ n. 100) breaking (λ n p. p)
      (λ n p. refl) two_servers broken refl
