-- ===== src/Proxy/Forward/Slots.antt =====
-- internal/proxy/handler.go, `forward`: the slots that its attempts take and give back.
use ponz_proxy.Prelude.{
  ℕ, zero, suc, ◌+◌, ◌≡◌, refl, ap, sym, ◌∙◌, inl, inr, Bool, false, not, ◌&&◌, Option, none, some,
  List, [], ◌∷◌, map, arith, ltb, length, subst, Bool-cases, Option-cases,
}
use ponz_proxy.Prelude.Int.{ℤ, pos, ◌+ℤ◌, ◌-ℤ◌, +ℤ_parts, -ℤ_parts, eq_of_parts}
use ponz_proxy.Prelude.Text.{Text}
use ponz_proxy.Balancer.Backend.{
  Backend, PassiveHealth, acquire, release, record_error, record_proxy_result,
}
use ponz_proxy.Balancer.Selector.{Floats}
use ponz_proxy.Balancer.Selector.Weighted.Kept.{unscored}
use ponz_proxy.Balancer.Pool.{Pool, PickError, picked, pick, Pick-cases}
use ponz_proxy.Balancer.Pool.Frame.{pick-unscored}
use ponz_proxy.Proxy.Forward.{
  Request, Attempt, Reply, served, bad_gateway, unavailable, panic, abort, Outcome, can_replay,
  modify, settled, forward_loop, forward,
}

-- The requests in flight at each backend.
abbrev pub in_flight : List Backend → List ℤ
in_flight = map (λ b. b.active_conns)

in_flight-modify :
    (i : ℕ) (f : Backend → Backend) (bs : List Backend)
    → ((b : Backend) → (f b).active_conns ≡ b.active_conns)
    → in_flight (modify i f bs) ≡ in_flight bs
unfolding modify
in_flight-modify i f [] h = refl
in_flight-modify zero f (b ∷ bs) h = rw (h b)
in_flight-modify (suc i) f (b ∷ bs) h = rw (in_flight-modify i f bs h)

in_flight-acquire-release :
    (i latency : ℕ) (bs : List Backend)
    → in_flight (modify i (λ b. release b latency) (modify i acquire bs)) ≡ in_flight bs
unfolding modify acquire release
in_flight-acquire-release i latency [] = refl
in_flight-acquire-release zero latency (b ∷ bs) = rw (
    eq_of_parts (b.active_conns +ℤ pos 1 -ℤ pos 1) b.active_conns
      (omega (arith, +ℤ_parts b.active_conns (pos 1), -ℤ_parts (b.active_conns +ℤ pos 1) (pos 1))))
in_flight-acquire-release (suc i) latency (b ∷ bs) = rw (in_flight-acquire-release i latency bs)

record_proxy_result-active :
    (b : Backend) (success : Bool) (cfg : PassiveHealth) (now : ℕ)
    → (record_proxy_result b success cfg now).0.active_conns ≡ b.active_conns
unfolding record_proxy_result
record_proxy_result-active b success cfg now = ground arith

-- One request more at a position.
abbrev pub one_more : ℕ → List ℤ → List ℤ
one_more i [] = []
one_more zero (n ∷ ns) = (n +ℤ pos 1) ∷ ns
one_more (suc i) (n ∷ ns) = n ∷ one_more i ns

in_flight-acquire :
    (i : ℕ) (bs : List Backend) → in_flight (modify i acquire bs) ≡ one_more i (in_flight bs)
unfolding modify acquire
in_flight-acquire i [] = refl
in_flight-acquire zero (b ∷ bs) = refl
in_flight-acquire (suc i) (b ∷ bs) = rw (in_flight-acquire i bs) refl

-- What a request leaves behind of the requests in flight: itself, at the backend whose attempt was
-- aborted, and nothing otherwise.
abbrev pub slots_after : Reply → List ℤ → List ℤ
slots_after (abort i) ns = one_more i ns
slots_after (served i) ns = ns
slots_after (bad_gateway i d) ns = ns
slots_after (unavailable e k) ns = ns
slots_after panic ns = ns

left_behind :
    (x o : Outcome) (ns : List ℤ)
    → some x ≡ some o
    → in_flight x.pool.backends ≡ slots_after x.reply ns
    → in_flight o.pool.backends ≡ slots_after o.reply ns
left_behind x o ns e h =
    let q : x ≡ o = ground (arith, e) in
    subst (λ (y : Outcome). in_flight y.pool.backends ≡ slots_after y.reply ns) q h

in_flight-unscored : (bs : List Backend) → in_flight (map unscored bs) ≡ in_flight bs
in_flight-unscored [] = refl
in_flight-unscored (b ∷ bs) = rw (in_flight-unscored bs)

module _ (hash : Text → ℕ) (fl : Floats) (cfg : PassiveHealth) (retries : ℕ) (r : Request)
    (clock : ℕ → ℕ) (world : ℕ → ℕ → Attempt) (others : ℕ → Pool → Pool)
    (balanced : (n : ℕ) (p : Pool) → in_flight (others n p).backends ≡ in_flight p.backends) where
  settled-in_flight :
      (n i : ℕ) (p : Pool)
      → in_flight (settled hash fl cfg retries r clock world others n i p).backends
        ≡ in_flight p.backends
  unfolding settled record_error
  settled-in_flight n i p =
      in_flight-modify i _ _ (λ b. record_proxy_result-active _ _ cfg (world n i).ended_at)
      ∙ in_flight-acquire-release i (world n i).latency p.backends

  picked-in_flight :
      (n : ℕ) (p p' : Pool) (tried : List ℕ) (i : ℕ)
      → pick hash fl (others n p) (clock n) r.client_ip tried ≡ picked i p'
      → in_flight p'.backends ≡ in_flight p.backends
  picked-in_flight n p p' tried i e =
      let u = (pick-unscored hash fl (others n p) p' (clock n) r.client_ip tried i e).2 in
      sym (in_flight-unscored p'.backends)
      ∙ ap in_flight u
      ∙ in_flight-unscored (others n p).backends
      ∙ balanced n p

  unserved :
      (x : PickError) (last : Option ℕ) (tried : List ℕ) (pool : Pool) (n : ℕ)
      → in_flight (others n pool).backends
        ≡ slots_after
            (elim last [ none ↦ unavailable x (length tried) | some l ↦ bad_gateway l false ])
            (in_flight pool.backends)
  unserved x none tried pool n = balanced n pool
  unserved x (some l) tried pool n = balanced n pool

  loop-in_flight :
      (fuel n : ℕ) (pool : Pool) (tried alerts : List ℕ) (last : Option ℕ) (o : Outcome)
      → forward_loop hash fl cfg retries r clock world others fuel n pool tried alerts last ≡ some o
      → in_flight o.pool.backends ≡ slots_after o.reply (in_flight pool.backends)
  unfolding forward_loop
  loop-in_flight zero n pool tried alerts last o e = cc
  loop-in_flight (suc fuel) n pool tried alerts last o e =
      let ns = in_flight pool.backends in
      elim (Pick-cases (pick hash fl (others n pool) (clock n) r.client_ip tried)) [
        | inl (x, g) ↦ left_behind _ o ns (rw (g, forward_loop) at e) (unserved x last tried pool n)
        | inr (inl g) ↦ left_behind _ o ns (rw (g, forward_loop) at e) (balanced n pool)
        | inr (inr (i, p, g)) ↦
            let picked = picked-in_flight n pool p tried i g in
            let s = settled-in_flight n i p ∙ picked in
            elim (Bool-cases (world n i).aborted) [
              | inl gone ↦
                  left_behind _ o ns (rw (g, forward_loop, gone) at e)
                    (in_flight-acquire i p.backends ∙ ap (one_more i) picked)
              | inr here ↦ elim (Option-cases (world n i).upstream_err) [
                | inl ok ↦ left_behind _ o ns (rw (g, forward_loop, here, ok) at e) s
                | inr (err, bad) ↦
                    elim (Bool-cases (not (world n i).dirty && (can_replay r && ltb n retries))) [
                      | inl again ↦
                          loop-in_flight fuel (n + 1) _ _ _ (some i) o
                            (rw (g, forward_loop, here, bad, again) at e)
                          ∙ ap (slots_after o.reply) s
                      | inr stop ↦ left_behind _ o ns (rw (g, forward_loop, here, bad, stop) at e) s
                    ]
              ]
            ]
      ]

  -- If others leave the in-flight counts as they are between two attempts, then after `forward` each
  -- backend of the pool has as many requests in flight as before, however many attempts there were;
  -- but where the reverse proxy aborts an attempt, its backend keeps one more, for good.
  pub forward-in_flight :
      (pool : Pool) (o : Outcome)
      → forward hash fl cfg retries r clock world others pool ≡ some o
      → in_flight o.pool.backends ≡ slots_after o.reply (in_flight pool.backends)
  unfolding forward
  forward-in_flight pool o e = loop-in_flight (suc retries) 0 pool [] [] none o e
