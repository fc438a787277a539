-- ===== src/Proxy/Forward.antt =====
-- internal/proxy/handler.go, `forward`: the pick-and-proxy loop of one request.
--
-- The reverse proxy's round trip is the parameter `world`: what attempt number `n` at backend `i`
-- came to; `clock` is the time at which attempt number `n` picks its backend. What other requests
-- and the health checker do to the shared pool between two attempts is the parameter `others`.
-- Recursion is on fuel: one unit for each attempt that may be made.
pub mod Attempts
pub mod Slots
use ponz_proxy.Prelude.{
  ℕ, zero, suc, ◌+◌, Bool, true, false, not, ◌&&◌, Option, none, some, List, [], ◌∷◌, ◌++◌, ltb,
  if◌then◌else◌, length,
}
use ponz_proxy.Prelude.Int.{ℤ, pos, eqb_ℤ}
use ponz_proxy.Prelude.Text.{Text}
use ponz_proxy.Balancer.Backend.{
  Backend, PassiveHealth, acquire, release, record_error, record_proxy_result,
}
use ponz_proxy.Balancer.Selector.{Floats}
use ponz_proxy.Balancer.Pool.{Pool, PickError, picked, nil_backend, failed, pick}

-- What the loop reads of a request.
pub record Request : Type 0 where
  pub client_ip : Text
  pub content_length : ℤ
  pub has_body : Bool

unfoldable pub can_replay : Request → Bool
can_replay r = eqb_ℤ r.content_length (pos 0) && not r.has_body

-- `NewEngine`: how many additional backends a request may be tried against.
unfoldable pub max_retries : ℕ → ℕ
max_retries zero = 2
max_retries (suc n) = suc n

-- One attempt: when it ended, its latency in milliseconds, the connection error, and whether the
-- client has received anything by then. An attempt is aborted where `ReverseProxy.ServeHTTP` panics
-- with `http.ErrAbortHandler`, which it does when the copy of a response body fails.
pub record Attempt : Type 0 where
  pub ended_at : ℕ
  pub latency : ℕ
  pub upstream_err : Option Text
  pub dirty : Bool
  pub aborted : Bool

-- `bad_gateway` carries the backend that failed last, and whether the response had begun. `panic`
-- is the dereference of a nil backend, and `abort` a panic of the reverse proxy.
pub data Reply : Type 0 where
  served : ℕ → Reply
  bad_gateway : ℕ → Bool → Reply
  unavailable : PickError → ℕ → Reply
  panic : Reply
  abort : ℕ → Reply

pub record Outcome : Type 0 where
  pub pool : Pool
  pub tried : List ℕ
  pub alerts : List ℕ
  pub reply : Reply

unfoldable pub modify : ℕ → (Backend → Backend) → List Backend → List Backend
modify i f [] = []
modify zero f (b ∷ bs) = f b ∷ bs
modify (suc i) f (b ∷ bs) = b ∷ modify i f bs

abbrev pub at : ℕ → (Backend → Backend) → Pool → Pool
at i f p = record p { backends = modify i f p.backends }

-- Whether the ejection state of backend `i` would change.
unfoldable pub ejects : ℕ → PassiveHealth → ℕ → List Backend → Bool
ejects i cfg now [] = false
ejects zero cfg now (b ∷ bs) = (record_proxy_result b false cfg now).1
ejects (suc i) cfg now (b ∷ bs) = ejects i cfg now bs

module _ (hash : Text → ℕ) (fl : Floats) (cfg : PassiveHealth) (retries : ℕ) (r : Request)
    (clock : ℕ → ℕ) (world : ℕ → ℕ → Attempt) (others : ℕ → Pool → Pool) where
  -- The pool once attempt `n` at backend `i` has ended. A panic of the reverse proxy skips all of this
  -- but `Acquire`, since `Release` is not deferred.
  unfoldable pub settled : ℕ → ℕ → Pool → Pool
  settled n i p =
      let a = world n i in
      at i
        (λ b.
          (record_proxy_result (record_error b a.upstream_err)
            (elim a.upstream_err [ none ↦ true | some _ ↦ false ]) cfg a.ended_at).0)
        (at i (λ b. release b a.latency) (at i acquire p))

  unfoldable pub forward_loop : ℕ → ℕ → Pool → List ℕ → List ℕ → Option ℕ → Option Outcome
  forward_loop zero n pool tried alerts last = none
  forward_loop (suc fuel) n pool tried alerts last =
      let now = others n pool in
      elim (pick hash fl now (clock n) r.client_ip tried) [
        | failed e ↦ some (record {
          pool = now;
          tried = tried;
          alerts = alerts;
          reply = elim last [ none ↦ unavailable e (length tried) | some l ↦ bad_gateway l false ];
        })
        | nil_backend ↦ some (record { pool = now; tried = tried; alerts = alerts; reply = panic })
        | picked i p ↦
            let a = world n i in
            let after = settled n i p in
            let tried' = tried ++ i ∷ [] in
            let raised = if ejects i cfg a.ended_at p.backends then alerts ++ i ∷ [] else alerts in
            let rest = forward_loop fuel (n + 1) after tried' raised (some i) in
            if a.aborted
            then some
                (record { pool = at i acquire p; tried = tried'; alerts = alerts; reply = abort i })
            else elim a.upstream_err [
              | none ↦
                  some (record { pool = after; tried = tried'; alerts = alerts; reply = served i })
              | some err ↦
                  if not a.dirty && (can_replay r && ltb n retries)
                  then rest
                  else some (record {
                    pool = after;
                    tried = tried';
                    alerts = raised;
                    reply = bad_gateway i a.dirty;
                  })
            ]
      ]

  unfoldable pub forward : Pool → Option Outcome
  forward pool = forward_loop (suc retries) 0 pool [] [] none
