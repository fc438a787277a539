-- ===== src/Alerts/Dispatcher/Spacing.antt =====
-- internal/alerts/dispatcher.go: how often a channel is told of one subject.
use ponz_proxy.Prelude.{
  ℕ, ◌+◌, ◌≤◌, ◌<◌, ◌≡◌, refl, sym, ◌∙◌, ap, ◌⊎◌, inl, inr, Bool, true, false, none, some, List, [],
  ◌∷◌, arith, ltb, Bool-cases, length,
}
use ponz_proxy.Prelude.Text.{text_eq_iff}
use ponz_proxy.Alerts.Channel.{Alert, Channel, wants, day}
use ponz_proxy.Alerts.Dispatcher.{
  ThrottleKey, key_eq, Throttle, Send, Dispatcher, new_dispatcher, queue_size, raise, reload,
  key_of, fired, too_soon, throttled, swept, sweep_throttle, Outcome, succeeded, errored, shut_down,
  count_post, Event, raised, received, reloaded, sweep_tick, post, deliver_to, deliver_each,
  deliver, receive_next, handle, handle_all,
}

abbrev pub Each {ℓ} : {A : Type ℓ} → (A → Type 0) → List A → Type 0
Each P [] = Unit {0}
Each P (x ∷ xs) = P x × Each P xs

Each-map {ℓ} :
    {A : Type ℓ} {P Q : A → Type 0} (xs : List A) → ((x : A) → P x → Q x) → Each P xs → Each Q xs
Each-map [] f t = tt
Each-map {P} {Q} (x ∷ xs) f (p, ps) = (f x p, Each-map {P = P} {Q = Q} xs f ps)

abbrev pub send_key : Send → ThrottleKey
send_key p = key_of p.channel p.alert

-- Every send comes at least the interval of its channel after each earlier one with its key.
abbrev pub Spaced : List Send → Type 0
Spaced [] = Unit {0}
Spaced (p ∷ ps) =
    Each (λ (q : Send). send_key q ≡ send_key p → q.at + p.channel.min_interval ≤ p.at) ps
    × Spaced ps

abbrev pub Bounded : List Channel → Type 0
Bounded cs = Each (λ (c : Channel). c.min_interval ≤ day) cs

-- The clock does not go back, and no interval of a channel is above a day, which
-- `AlertChannel.Validate` demands.
abbrev pub Timely : ℕ → List Event → Type 0
Timely now [] = Unit {0}
Timely now (raised a ∷ es) = Timely now es
Timely now (received at ∷ es) = (now ≤ at) × Timely at es
Timely now (reloaded none ∷ es) = Timely now es
Timely now (reloaded (some cs) ∷ es) = Bounded cs × Timely now es
Timely now (sweep_tick at ∷ es) = (now ≤ at) × Timely at es

-- A send is remembered, or was forgotten after a day.
abbrev Remembered : ℕ → Throttle → Send → Type 0
Remembered now t p =
    (p.at ≤ now)
    × (((last : ℕ) × (t (send_key p) ≡ some last) × (p.at ≤ last)) ⊎ (p.at + day < now))

apart :
    (now : ℕ) (t : Throttle) (k : ThrottleKey) (i : ℕ) (p : Send)
    → Remembered now t p
    → too_soon (t k) now i ≡ false
    → i ≤ day
    → send_key p ≡ k
    → p.at + i ≤ now
unfolding too_soon
apart now t k i p (h, inl (last, e, l)) f b q =
    ground (arith, sym (ap (λ o. too_soon o now i) (ap t (sym q) ∙ e)) ∙ f)
apart now t k i p (h, inr far) f b q = omega arith

fired-Remembered :
    (now : ℕ) (t : Throttle) (k : ThrottleKey) (p : Send)
    → Remembered now t p
    → Remembered now (fired k now t) p
unfolding fired
fired-Remembered now t k p (h, inr far) = (h, inr far)
fired-Remembered now t k p (h, inl (last, e, l)) = elim (Bool-cases (key_eq (send_key p) k)) [
  | inl f ↦ (h, inl (now, rw f refl, h))
  | inr f ↦ (h, inl (last, rw f e, l))
]

swept-Remembered :
    (now at : ℕ) (t : Throttle) (p : Send)
    → now ≤ at
    → Remembered now t p
    → Remembered at (λ k. swept at (t k)) p
unfolding swept
swept-Remembered now at t p m (h, inr far) = (omega arith, inr (omega arith))
swept-Remembered now at t p m (h, inl (last, e, l)) = elim (Bool-cases (ltb (last + day) at)) [
  | inl f ↦ (omega arith, inr (ground (arith, f)))
  | inr f ↦ (omega arith, inl (last, rw (e, f) refl, l))
]

later-Remembered :
    (now at : ℕ) (t : Throttle) (p : Send) → now ≤ at → Remembered now t p → Remembered at t p
later-Remembered now at t p m (h, inl r) = (omega arith, inl r)
later-Remembered now at t p m (h, inr far) = (omega arith, inr (omega arith))

abbrev Sound : ℕ → Dispatcher → Type 0
Sound now d = Spaced d.sends × Each (Remembered now d.throttle) d.sends × Bounded d.channels

count_post-Sound :
    (o : Outcome) (now : ℕ) (d : Dispatcher) → Sound now d → Sound now (count_post o d)
unfolding count_post
count_post-Sound succeeded now d s = s
count_post-Sound errored now d s = s
count_post-Sound shut_down now d s = s

key_eq_refl : (k : ThrottleKey) → key_eq k k ≡ true
unfolding key_eq
key_eq_refl k =
    ground (arith, (text_eq_iff k.event k.event).1 refl, (text_eq_iff k.subject k.subject).1 refl)

fired_self : (k : ThrottleKey) (now : ℕ) (t : Throttle) → fired k now t k ≡ some now
unfolding fired
fired_self k now t = rw (key_eq_refl k) refl

module _ (attempt : Channel → Alert → ℕ → ℕ → Bool) (cancelled : Channel → Alert → ℕ → Bool) where
  post-Sound :
      (c : Channel) (a : Alert) (now : ℕ) (d : Dispatcher)
      → Sound now d
      → Sound now (post attempt cancelled c a now d)
  unfolding post
  post-Sound c a now d s = count_post-Sound _ now d s

  deliver_to-Sound :
      (c : Channel) (a : Alert) (now : ℕ) (d : Dispatcher)
      → c.min_interval ≤ day
      → Sound now d
      → Sound now (deliver_to attempt cancelled c a now d)
  unfolding deliver_to throttled
  deliver_to-Sound c a now d b (spaced, r, bs) = elim (Bool-cases (wants c a.event)) [
    | inr w ↦ rw w (spaced, r, bs)
    | inl w ↦ elim (Bool-cases (too_soon (d.throttle (key_of c a)) now c.min_interval)) [
      | inl f ↦ rw (w, f) (spaced, r, bs)
      | inr f ↦
          rw (w, f)
            (post-Sound c a now _ (
              (
                Each-map d.sends (λ q m. apart now d.throttle (key_of c a) c.min_interval q m f b)
                    r,
                spaced,
              ),
              (
                (omega arith, inl (now, fired_self (key_of c a) now d.throttle, omega arith)),
                Each-map d.sends (λ q m. fired-Remembered now d.throttle (key_of c a) q m) r,
              ),
              bs,
            ))
    ]
  ]

  deliver_each-Sound :
      (cs : List Channel) (a : Alert) (now : ℕ) (d : Dispatcher)
      → Bounded cs
      → Sound now d
      → Sound now (deliver_each attempt cancelled cs a now d)
  unfolding deliver_each
  deliver_each-Sound [] a now d b s = s
  deliver_each-Sound (c ∷ cs) a now d (b, bs) s =
      deliver_each-Sound cs a now (deliver_to attempt cancelled c a now d) bs
        (deliver_to-Sound c a now d b s)

  later-Sound : (now at : ℕ) (d : Dispatcher) → now ≤ at → Sound now d → Sound at d
  later-Sound now at d m (spaced, r, b) =
      (spaced, Each-map d.sends (λ p. later-Remembered now at d.throttle p m) r, b)

  receive_next-Sound :
      (queue : List Alert) (now : ℕ) (d : Dispatcher)
      → Sound now d
      → Sound now (receive_next attempt cancelled queue now d)
  unfolding receive_next deliver
  receive_next-Sound [] now d s = s
  receive_next-Sound (a ∷ queue) now d (spaced, r, b) =
      deliver_each-Sound d.channels a now (record d { queue = queue }) b (spaced, r, b)

  raise-Sound : (a : Alert) (now : ℕ) (d : Dispatcher) → Sound now d → Sound now (raise a d)
  unfolding raise
  raise-Sound a now d s = elim (Bool-cases (ltb (length d.queue) queue_size)) [
    | inl f ↦ rw f s
    | inr f ↦ rw f s
  ]

  handle_all-Spaced :
      (es : List Event) (now : ℕ) (d : Dispatcher)
      → Timely now es
      → Sound now d
      → Spaced (handle_all attempt cancelled es d).sends
  unfolding handle_all handle reload sweep_throttle
  handle_all-Spaced [] now d t (spaced, r, b) = spaced
  handle_all-Spaced (raised a ∷ es) now d t s =
      handle_all-Spaced es now (raise a d) t (raise-Sound a now d s)
  handle_all-Spaced (received at ∷ es) now d (m, t) s =
      handle_all-Spaced es at (receive_next attempt cancelled d.queue at d) t
        (receive_next-Sound d.queue at d (later-Sound now at d m s))
  handle_all-Spaced (reloaded none ∷ es) now d t s = handle_all-Spaced es now d t s
  handle_all-Spaced (reloaded (some cs) ∷ es) now d (b, t) (spaced, r, b') =
      handle_all-Spaced es now (record d { channels = cs }) t (spaced, r, b)
  handle_all-Spaced (sweep_tick at ∷ es) now d (m, t) (spaced, r, b) =
      handle_all-Spaced es at (sweep_throttle at d) t
        (spaced, Each-map d.sends (λ p. swept-Remembered now at d.throttle p m) r, b)

  -- Whatever is raised, reloaded and swept in between, and whether the attempts succeed, a channel is
  -- not told of one event about one subject again within its interval, where the clock does not go
  -- back and no interval is above a day.
  pub dispatched-Spaced :
      (es : List Event) (now : ℕ)
      → Timely now es
      → Spaced (handle_all attempt cancelled es new_dispatcher).sends
  dispatched-Spaced es now t = handle_all-Spaced es now new_dispatcher t (tt, tt, tt)
