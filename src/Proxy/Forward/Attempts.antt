-- ===== src/Proxy/Forward/Attempts.antt =====
-- internal/proxy/handler.go, `forward`: which backends one request is sent to, and what the client
-- gets.
use ponz_proxy.Prelude.{
  ℕ, zero, suc, ◌+◌, ◌≤◌, ◌≡◌, refl, ap, sym, subst, ◌⊎◌, inl, inr, true, false, not, ◌&&◌, ◌||◌,
  Option, none, some, List, [], ◌∷◌, ◌++◌, arith, length, length-append, ltb, ◌==◌, Bool-cases,
  Option-cases,
}
use ponz_proxy.Prelude.Text.{Text}
use ponz_proxy.Balancer.Backend.{PassiveHealth}
use ponz_proxy.Balancer.Selector.{Floats}
use ponz_proxy.Balancer.Pool.{Pool, PickError, pick, contains_backend, Pick-cases}
use ponz_proxy.Balancer.Pool.Choice.{pick-MayServe}
use ponz_proxy.Proxy.Forward.{
  Request, Attempt, Reply, served, bad_gateway, unavailable, panic, abort, Outcome, can_replay,
  forward_loop, forward,
}

-- No position occurs twice.
abbrev pub NoRepeat : List ℕ → Type 0
NoRepeat [] = Unit {0}
NoRepeat (x ∷ xs) = (contains_backend xs x ≡ false) × NoRepeat xs

contains-append :
    (xs : List ℕ) (i x : ℕ) → contains_backend (xs ++ i ∷ []) x ≡ (contains_backend xs x || i == x)
unfolding contains_backend
contains-append [] i x = ground arith
contains-append (y ∷ ys) i x = ground (arith, contains-append ys i x)

NoRepeat-append :
    (xs : List ℕ) (i : ℕ) → NoRepeat xs → contains_backend xs i ≡ false → NoRepeat (xs ++ i ∷ [])
unfolding contains_backend
NoRepeat-append [] i h c = (refl, tt)
NoRepeat-append (x ∷ xs) i h c =
    (ground (arith, contains-append xs i x), NoRepeat-append xs i h.1 (ground arith))

module _ (world : ℕ → ℕ → Attempt) where
  -- Attempts number `n`, `n + 1`, … at the given backends all failed to connect.
  abbrev pub AllFailed : ℕ → List ℕ → Type 0
  AllFailed n [] = Unit {0}
  AllFailed n (x ∷ xs) =
      ((err : Text) × ((world n x).upstream_err ≡ some err)) × AllFailed (suc n) xs

  AllFailed-append :
      (xs : List ℕ) (n m i : ℕ) (err : Text)
      → AllFailed n xs
      → m ≡ n + length xs
      → (world m i).upstream_err ≡ some err
      → AllFailed n (xs ++ i ∷ [])
  AllFailed-append [] n m i err h e q =
      ((err, subst (λ k. (world k i).upstream_err ≡ some err) (omega arith) q), tt)
  AllFailed-append (x ∷ xs) n m i err h e q =
      (h.0, AllFailed-append xs (suc n) m i err h.1 (omega arith) q)

  -- What the reply says of the attempts that were made.
  abbrev pub Explains : Reply → List ℕ → Type 0
  Explains (served i) tried =
      (xs : List ℕ) × (tried ≡ xs ++ i ∷ [])
      × AllFailed 0 xs
      × ((world (length xs) i).aborted ≡ false)
      × ((world (length xs) i).upstream_err ≡ none)
  Explains (bad_gateway i d) tried = (xs : List ℕ) × (tried ≡ xs ++ i ∷ []) × AllFailed 0 tried
  Explains (unavailable e k) tried = (tried ≡ []) × (k ≡ 0)
  Explains panic tried = AllFailed 0 tried
  Explains (abort i) tried =
      (xs : List ℕ) × (tried ≡ xs ++ i ∷ [])
      × AllFailed 0 xs
      × ((world (length xs) i).aborted ≡ true)

  abbrev Last : Option ℕ → List ℕ → Type 0
  Last none tried = tried ≡ []
  Last (some i) tried = (xs : List ℕ) × (tried ≡ xs ++ i ∷ [])

give_up :
    (world : ℕ → ℕ → Attempt) (e : PickError) (last : Option ℕ) (tried : List ℕ)
    → Last world last tried
    → AllFailed world 0 tried
    → Explains world
        (elim last [ none ↦ unavailable e (length tried) | some l ↦ bad_gateway l false ])
        tried
give_up world e none tried z a = (z, ap length z)
give_up world e (some i) tried z a = (z.0, z.1, a)

module _ (hash : Text → ℕ) (fl : Floats) (cfg : PassiveHealth) (retries : ℕ) (r : Request)
    (clock : ℕ → ℕ) (world : ℕ → ℕ → Attempt) (others : ℕ → Pool → Pool) where
  abbrev pub Sound : Outcome → Type 0
  Sound o =
      NoRepeat o.tried
      × (length o.tried ≤ retries + 1)
      × ((can_replay r ≡ true) ⊎ (length o.tried ≤ 1))
      × Explains world o.reply o.tried

  abbrev run : ℕ → ℕ → Pool → List ℕ → List ℕ → Option ℕ → Option Outcome
  run = forward_loop hash fl cfg retries r clock world others

  loop-Sound :
      (fuel n : ℕ) (pool : Pool) (tried alerts : List ℕ) (last : Option ℕ)
      → fuel + n ≡ retries + 1
      → n ≤ retries
      → ((can_replay r ≡ true) ⊎ (n ≡ 0))
      → NoRepeat tried
      → length tried ≡ n
      → AllFailed world 0 tried
      → Last world last tried
      → (o : Outcome) × (run fuel n pool tried alerts last ≡ some o) × Sound o
  unfolding forward_loop
  loop-Sound zero n pool tried alerts last b c d u l a z = absurd (omega arith)
  loop-Sound (suc fuel) n pool tried alerts last b c d u l a z =
      elim (Pick-cases (pick hash fl (others n pool) (clock n) r.client_ip tried)) [
        | inl (e, g) ↦
            rw (g, forward_loop)
              (_, refl, (u, omega arith, ground arith, give_up world e last tried z a))
        | inr (inl g) ↦ rw (g, forward_loop) (_, refl, (u, omega arith, ground arith, a))
        | inr (inr (i, p, g)) ↦
            let m = pick-MayServe hash fl (others n pool) p (clock n) r.client_ip tried i g in
            let v = NoRepeat-append tried i u m.2.3 in
            let k = length-append tried (i ∷ []) in
            elim (Bool-cases (world n i).aborted) [
              | inl gone ↦
                  rw (g, forward_loop, gone)
                    (
                      _,
                      refl,
                      (
                        v,
                        omega (arith, k),
                        ground (arith, k),
                        (tried, refl, a, subst (λ t. (world t i).aborted ≡ true) (sym l) gone),
                      ),
                    )
              | inr here ↦ elim (Option-cases (world n i).upstream_err) [
                | inl ok ↦
                    rw (g, forward_loop, here, ok)
                      (
                        _,
                        refl,
                        (
                          v,
                          omega (arith, k),
                          ground (arith, k),
                          (
                            tried,
                            refl,
                            a,
                            subst (λ t. (world t i).aborted ≡ false) (sym l) here,
                            subst (λ t. (world t i).upstream_err ≡ none) (sym l) ok,
                          ),
                        ),
                      )
                | inr (err, bad) ↦
                    let a' = AllFailed-append world tried 0 n i err a (omega arith) bad in
                    elim (Bool-cases (not (world n i).dirty && (can_replay r && ltb n retries))) [
                      | inl again ↦
                          rw (g, forward_loop, here, bad, again)
                            (loop-Sound fuel (n + 1) _ (tried ++ i ∷ []) _ (some i) (omega arith)
                              (ground arith) (ground arith) v (omega (arith, k)) a' (tried, refl))
                      | inr stop ↦
                          rw (g, forward_loop, here, bad, stop)
                            (_, refl, (v, omega (arith, k), ground (arith, k), (tried, refl, a')))
                    ]
              ]
            ]
      ]

  -- Whatever the attempts come to and whatever others do to the pool in between, the loop of
  -- `forward` ends, by a return or a panic; it tries no backend twice, at most `retries + 1` backends, and only one where the
  -- request cannot be replayed or no retry is needed. A served request names the last backend
  -- tried, which connected, while all earlier ones failed; a bad gateway means that every backend
  -- tried failed; and an unavailable reply means that none was tried. The reverse proxy aborts only
  -- in the last attempt, after failures, and a nil backend is dereferenced only where every backend
  -- tried before it failed.
  pub forward-Sound :
      (pool : Pool)
      → (o : Outcome) × (forward hash fl cfg retries r clock world others pool ≡ some o) × Sound o
  unfolding forward
  forward-Sound pool =
      loop-Sound (suc retries) 0 pool [] [] none (omega arith) (omega arith) (inr refl) tt refl tt
        refl
