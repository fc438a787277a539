-- ===== src/Limiter/Table/Sweeping.antt =====
-- internal/limiter/limiter.go, `sweepOnce` and `Forget`: dropping records.
use ponz_proxy.Prelude.{
  ℕ, ◌+◌, ◌-◌, ◌*◌, ◌≤◌, ◌<◌, ◌≡◌, refl, sym, ap, ◌∙◌, ◌⊎◌, inl, inr, false, not, ◌&&◌, none, some,
  List, [], ◌∷◌, arith, ltb, ◌==◌, if◌then◌else◌, Option-cases,
}
use ponz_proxy.Prelude.Text.{Text, text_eq_iff}
use ponz_proxy.Prelude.Maps.{lookup, Distinct, lookup-insert, lookup-keep}
use native.Mathlib.Nat.{mul-le-mul_right}
use ponz_proxy.Limiter.Bucket.{unit, Rules, Client, burst_of, refill, spend, judge}
use ponz_proxy.Limiter.Bucket.Retry.{full, judge-free}
use ponz_proxy.Limiter.Table.{
  Shard, idle_after, fresh, key_of, host_of, is_host, find, make_room, acquire, sweep_once, forget,
}

-- Every record was last refilled no later than it was last seen.
abbrev pub AllSeen : Shard → Type 0
AllSeen [] = Unit {0}
AllSeen ((k, c) ∷ s) = (c.last ≤ c.seen) × AllSeen s

lookup-AllSeen :
    (k : Text) (c : Client) (s : Shard) → AllSeen s → lookup k s ≡ some c → c.last ≤ c.seen
unfolding lookup
lookup-AllSeen k c [] h e = ground (arith, e)
lookup-AllSeen k c ((j, d) ∷ s) (h, hs) e = ground (arith, e, lookup-AllSeen k c s hs, h)

refill-long :
    (c : Client) (rules : Rules) (now : ℕ)
    → c.last < now
    → burst_of rules * unit ≤ (now - c.last) * rules.requests_per_second
    → refill c rules now ≡ record c { tokens = burst_of rules * unit; last = now }
unfolding refill
refill-long c rules now h l = ground arith

refill-fresh : (rules : Rules) (now : ℕ) → refill (fresh rules now) rules now ≡ fresh rules now
unfolding refill
refill-fresh rules now = ground arith

full-zero : (rules : Rules) (n : ℕ) → n ≡ 0 → full rules n ≡ false
full-zero rules n h = ground arith

-- A record that sat idle for long is judged like a fresh one.
judge-idle :
    (c : Client) (rules : Rules) (now : ℕ)
    → 0 < rules.requests_per_second
    → c.active ≡ 0
    → c.last < now
    → burst_of rules * unit ≤ (now - c.last) * rules.requests_per_second
    → judge (record c { seen = now }) rules now ≡ judge (fresh rules now) rules now
judge-idle c rules now p a h l =
    let c' = record c { seen = now } in
    judge-free c' rules now p (full-zero rules c.active a)
    ∙ ap (λ x. spend x rules)
        (refill-long c' rules now h l
          ∙ ap (λ n. record (fresh rules now) { active = n }) a
          ∙ sym (refill-fresh rules now))
    ∙ sym (judge-free (fresh rules now) rules now p (full-zero rules 0 refl))

find-sweep :
    (k : Text) (rules : Rules) (now later : ℕ) (s : Shard)
    → Distinct s
    → (find k rules later (sweep_once now s) ≡ find k rules later s)
      ⊎ ((find k rules later (sweep_once now s) ≡ fresh rules later)
          × ((c : Client) × (lookup k s ≡ some c) × (c.active ≡ 0) × (c.seen + idle_after < now)))
unfolding find sweep_once
find-sweep k rules now later s d =
    let e = lookup-keep (λ k c. not ((c.active == 0) && ltb (c.seen + idle_after) now)) k s d in
    elim (Option-cases (lookup k s)) [
      | inl n ↦ inl (grind (arith, e, n))
      | inr (c, n) ↦ elim (idle_cases c) [
        | inl (a, b) ↦ inr (grind (arith, e, n, a, b), (c, n, a, b))
        | inr h ↦ inl (grind (arith, e, n, h))
      ]
    ]
  where
    idle_cases :
        (c : Client)
        → ((c.active ≡ 0) × (c.seen + idle_after < now))
          ⊎ (((c.active == 0) && ltb (c.seen + idle_after) now) ≡ false)
    idle_cases c = ground arith

find-some :
    (k : Text) (rules : Rules) (now : ℕ) (c : Client) (s : Shard)
    → lookup k s ≡ some c
    → find k rules now s ≡ c
unfolding find
find-some k rules now c s n = rw (n, find) refl

judge-sweep :
    (k : Text) (rules : Rules) (now later : ℕ) (s : Shard)
    → 0 < rules.requests_per_second
    → burst_of rules * unit ≤ idle_after * rules.requests_per_second
    → Distinct s
    → AllSeen s
    → now ≤ later
    → judge (record (find k rules later (sweep_once now s)) { seen = later }) rules later
      ≡ judge (record (find k rules later s) { seen = later }) rules later
judge-sweep k rules now later s p long d a l = elim (find-sweep k rules now later s d) [
  | inl e ↦ ap (λ x. judge (record x { seen = later }) rules later) e
  | inr (e, (c, n, i, b)) ↦
      let seen = lookup-AllSeen k c s a n in
      ap (λ x. judge (record x { seen = later }) rules later) e
      ∙ sym (judge-idle c rules later p i (omega (arith, seen)) (full_bucket c seen b))
      ∙ ap (λ x. judge (record x { seen = later }) rules later)
          (sym (find-some k rules later c s n))
]
  where
    waited :
        (c : Client) → c.last ≤ c.seen → c.seen + idle_after < now → idle_after ≤ later - c.last
    waited c h b = omega arith

    full_bucket :
        (c : Client)
        → c.last ≤ c.seen
        → c.seen + idle_after < now
        → burst_of rules * unit ≤ (later - c.last) * rules.requests_per_second
    full_bucket c h b =
        omega (arith, mul-le-mul_right rules.requests_per_second (waited c h b), long)

-- Where a full bucket refills within the ten minutes that a record is kept, a sweep is not seen by
-- any client: its next request gets the verdict, the slot and the record it would have had.
pub acquire-sweep :
    (host_id : ℕ) (ip : List ℕ) (rules : Rules) (now later : ℕ) (s : Shard)
    → 0 < rules.requests_per_second
    → burst_of rules * unit ≤ idle_after * rules.requests_per_second
    → Distinct s
    → AllSeen s
    → now ≤ later
    → let swept = acquire host_id (some ip) rules later (sweep_once now s) in
      let kept = acquire host_id (some ip) rules later s in
      let k = key_of host_id ip in
      (swept.1 ≡ kept.1) × (swept.2 ≡ kept.2) × (lookup k swept.0 ≡ lookup k kept.0)
unfolding acquire
acquire-sweep host_id ip rules now later s p long d a l =
    let k = key_of host_id ip in
    let s' = sweep_once now s in
    let r = (judge (record (find k rules later s') { seen = later }) rules later).0 in
    let q = (judge (record (find k rules later s) { seen = later }) rules later).0 in
    ground (
      arith,
      judge-sweep k rules now later s p long d a l,
      text_eq_iff k k,
      lookup-insert k k r (make_room k s'),
      lookup-insert k k q (make_room k s),
      lookup-insert k k (record r { active = r.active + 1 }) (make_room k s'),
      lookup-insert k k (record q { active = q.active + 1 }) (make_room k s),
    )

-- `Forget` drops the records of one host and changes nothing of another's.
pub lookup-forget :
    (host_id : ℕ) (i : ℕ) (addr : List ℕ) (s : Shard)
    → Distinct s
    → lookup (i ∷ addr) (forget host_id s) ≡ (if i == host_id then none else lookup (i ∷ addr) s)
unfolding forget
lookup-forget host_id i addr s d =
    ground (arith, lookup-keep (λ k c. not (is_host host_id (host_of k))) (i ∷ addr) s d)
