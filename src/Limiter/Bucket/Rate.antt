-- ===== src/Limiter/Bucket/Rate.antt =====
-- internal/limiter/limiter.go, `judge`: how many requests a bucket lets through.
use ponz_proxy.Prelude.{
  ℕ, ◌+◌, ◌-◌, ◌*◌, ◌≤◌, ◌<◌, ◌≡◌, ap, ◌∙◌, ◌⊎◌, inl, inr, List, [], ◌∷◌, arith, if◌then◌else◌,
}
use native.Mathlib.Nat.{mul-le-mul_right}
use ponz_proxy.Limiter.Bucket.{unit, Verdict, Rules, Client, burst_of, refill, spend, judge}

-- The bucket is never above its burst.
abbrev pub Bounded : Rules → Client → Type 0
Bounded rules c = c.tokens ≤ burst_of rules * unit

-- `c'` has more in its bucket than `c` by what `c'.last - c.last` lets in, at most.
abbrev pub Refilled : Rules → Client → Client → Type 0
Refilled rules c c' =
    (c.last ≤ c'.last) × (c'.tokens ≤ c.tokens + (c'.last - c.last) * rules.requests_per_second)

refill-Refilled : (c : Client) (rules : Rules) (now : ℕ) → Refilled rules c (refill c rules now)
unfolding refill
refill-Refilled c rules now = ground arith

refill-Bounded :
    (c : Client) (rules : Rules) (now : ℕ) → Bounded rules c → Bounded rules (refill c rules now)
unfolding refill
refill-Bounded c rules now h = ground arith

spend_lem :
    (c : Client) (rules : Rules)
    → let r = spend c rules in
      (r.0.last ≡ c.last) × ((if r.1.limited then 0 else unit) + r.0.tokens ≡ c.tokens)
unfolding spend
spend_lem c rules = ground arith

abbrev cost : Verdict → ℕ
cost v = if v.limited then 0 else unit

-- One request takes from the bucket what it costs, whatever the branch.
judge-Paid :
    (c : Client) (rules : Rules) (now : ℕ)
    → 0 < rules.requests_per_second
    → let r = judge c rules now in
      (c.last ≤ r.0.last)
      × (cost r.1 + r.0.tokens ≤ c.tokens + (r.0.last - c.last) * rules.requests_per_second)
unfolding judge
judge-Paid c rules now p =
    ground (arith, refill-Refilled c rules now, spend_lem (refill c rules now) rules)

judge-Bounded :
    (c : Client) (rules : Rules) (now : ℕ)
    → 0 < rules.requests_per_second
    → Bounded rules c
    → let r = judge c rules now in cost r.1 + r.0.tokens ≤ burst_of rules * unit
unfolding judge
judge-Bounded c rules now p h =
    ground (arith, refill-Bounded c rules now h, spend_lem (refill c rules now) rules)

le_or_lt : (a b : ℕ) → (a ≤ b) ⊎ (b < a)
le_or_lt a b = ground arith

-- A request judged at `now`, no earlier than the last refill, either spends nothing or has the
-- bucket refilled up to `now`.
judge-last :
    (c : Client) (rules : Rules) (now : ℕ)
    → 0 < rules.requests_per_second
    → c.last ≤ now
    → let r = judge c rules now in
      ((r.0.tokens ≡ c.tokens) × (r.0.last ≡ c.last) × (cost r.1 ≡ 0)) ⊎ (r.0.last ≡ now)
unfolding judge refill
judge-last c rules now p h = ground (arith, spend_lem (refill c rules now) rules)

-- A request: when it comes, and how many of the client's requests are then in flight.
abbrev pub Request : Type 0
Request = ℕ × ℕ

-- The requests in turn: the record after them, and how many were let through.
unfoldable pub judge_all : Client → Rules → List Request → ℕ
judge_all c rules [] = 0
judge_all c rules ((now, active) ∷ rest) =
    let r = judge (record c { active = active }) rules now in
    (if r.1.limited then 0 else 1) + judge_all r.0 rules rest

-- Every request comes between `lo` and `hi`.
abbrev pub Within : ℕ → ℕ → List Request → Type 0
Within lo hi [] = Unit {0}
Within lo hi ((now, _) ∷ rest) = (lo ≤ now) × (now ≤ hi) × Within lo hi rest

add_mul : (a b r : ℕ) → a * r + b * r ≡ (a + b) * r
add_mul a b r = omega arith

window_split : (a b c r : ℕ) → a ≤ b → b ≤ c → (b - a) * r + (c - b) * r ≡ (c - a) * r
window_split a b c r h k = add_mul (b - a) (c - b) r ∙ ap (λ z. z * r) (omega arith)

window_le : (a b c r : ℕ) → a ≤ b → (c - b) * r ≤ (c - a) * r
window_le a b c r h = mul-le-mul_right r (omega arith)

judge-last_le :
    (c : Client) (rules : Rules) (now : ℕ) (hi : ℕ)
    → c.last ≤ hi
    → now ≤ hi
    → (judge c rules now).0.last ≤ hi
unfolding judge refill
judge-last_le c rules now hi h k = ground (arith, spend_lem (refill c rules now) rules)

judge_all-tokens :
    (c : Client) (rules : Rules) (lo hi : ℕ) (rs : List Request)
    → 0 < rules.requests_per_second
    → Within lo hi rs
    → c.last ≤ hi
    → judge_all c rules rs * unit ≤ c.tokens + (hi - c.last) * rules.requests_per_second
unfolding judge_all
judge_all-tokens c rules lo hi [] p w h = omega arith
judge_all-tokens c rules lo hi ((now, active) ∷ rest) p (_, k, w) h =
    let c1 = record c { active = active } in
    let c2 = (judge c1 rules now).0 in
    let paid = judge-Paid c1 rules now p in
    let le = judge-last_le c1 rules now hi h k in
    ground (
      arith,
      paid,
      judge_all-tokens c2 rules lo hi rest p w le,
      window_split c.last c2.last hi rules.requests_per_second paid.0 le,
    )

-- With a positive rate, a bucket of at most the burst and a last refill before the window ends: of the
-- requests judged in a window of time on one record, which is neither evicted, swept nor forgotten
-- meanwhile, at most the burst and what the rate lets in during the window are let through, whatever
-- happens to the requests in flight. Tokens are held exactly, in billionths, where
-- the source rounds to float64; a client whose record went starts on a new one with a full burst.
pub judge_all-rate :
    (c : Client) (rules : Rules) (lo hi : ℕ) (rs : List Request)
    → 0 < rules.requests_per_second
    → Bounded rules c
    → c.last ≤ hi
    → Within lo hi rs
    → judge_all c rules rs * unit ≤ burst_of rules * unit + (hi - lo) * rules.requests_per_second
unfolding judge_all
judge_all-rate c rules lo hi [] p b h w = omega arith
judge_all-rate c rules lo hi ((now, active) ∷ rest) p b h (l, k, w) =
    let c1 = record c { active = active } in
    let c2 = (judge c1 rules now).0 in
    let le = judge-last_le c1 rules now hi h k in
    let spent = judge-Bounded c1 rules now p b in
    elim (le_or_lt lo c.last) [
      | inl i ↦ ground (
        arith,
        judge_all-tokens c rules lo hi ((now, active) ∷ rest) p (l, k, w) h,
        window_le lo c.last hi rules.requests_per_second i,
      )
      | inr i ↦ ground (
        arith,
        judge-last c1 rules now p (omega arith),
        spent,
        judge_all-tokens c2 rules lo hi rest p w le,
        window_le lo now hi rules.requests_per_second l,
        judge_all-rate c2 rules lo hi rest p (omega (arith, spent)) le w,
      )
    ]
