-- ===== src/Limiter/Table/Counts.antt =====
-- internal/limiter/limiter.go: how each operation changes the counts of requests in flight.
use ponz_proxy.Prelude.{
  ℕ, ◌+◌, ◌-◌, ◌≡◌, refl, sym, ap, subst, ◌∙◌, ◌⊎◌, inl, inr, not, Option, none, some, List, [],
  ◌∷◌, arith, ltb, ◌==◌, ◌&&◌, if◌then◌else◌, Option-cases,
}
use ponz_proxy.Prelude.Text.{Text, text_eq, text_eq_iff}
use ponz_proxy.Prelude.Maps.{
  lookup, delete, Distinct, lookup-insert, lookup-keep, keep-Distinct, insert-Distinct,
}
use ponz_proxy.Limiter.Bucket.{Rules, Client, refill, spend, judge}
use ponz_proxy.Limiter.Table.{
  Shard, Ticket, key_of, oldest, evict_oldest, make_room, find, acquire, give_back, sweep_once,
  idle_after,
}

-- The requests in flight that the table counts for a key.
abbrev active_in : Option Client → ℕ
active_in none = 0
active_in (some c) = c.active

abbrev pub active_of : Text → Shard → ℕ
active_of j s = active_in (lookup j s)

pub judge-active : (c : Client) (rules : Rules) (now : ℕ) → (judge c rules now).0.active ≡ c.active
unfolding judge spend refill
judge-active c rules now = ground arith

abbrev pub IdleAt : Text → Shard → Type 0
IdleAt k s = (c : Client) × (lookup k s ≡ some c) × (c.active ≡ 0)

idle_here :
    (k j : Text) (c : Client) (s : Shard) → lookup k s ≡ none → IdleAt j s → IdleAt j ((k, c) ∷ s)
unfolding lookup
idle_here k j c s n (d, e, i) = (d, grind (arith, text_eq_iff k j, n, e), i)

idle_head : (k : Text) (c : Client) (s : Shard) → c.active ≡ 0 → IdleAt k ((k, c) ∷ s)
unfolding lookup
idle_head k c s i = (c, ground (arith, text_eq_iff k k), i)

oldest-cons :
    (j : Text) (c : Client) (s : Shard) (best : Option (Text × ℕ))
    → (oldest ((j, c) ∷ s) best ≡ oldest s best)
      ⊎ ((oldest ((j, c) ∷ s) best ≡ oldest s (some (j, c.seen))) × (c.active ≡ 0))
unfolding oldest
oldest-cons j c s none = ground arith
oldest-cons j c s (some (k, seen)) = ground arith

pub oldest-idle :
    (s : Shard) (best : Option (Text × ℕ)) (k : Text) (seen : ℕ)
    → Distinct s
    → oldest s best ≡ some (k, seen)
    → (best ≡ some (k, seen)) ⊎ IdleAt k s
unfolding oldest
oldest-idle [] best k seen d e = inl e
oldest-idle ((j, c) ∷ s) best k seen (n, d) e = elim (oldest-cons j c s best) [
  | inl same ↦ elim (oldest-idle s best k seen d (sym same ∙ e)) [
    | inl h ↦ inl h
    | inr h ↦ inr (idle_here j k c s n h)
  ]
  | inr (same, idle) ↦ elim (oldest-idle s (some (j, c.seen)) k seen d (sym same ∙ e)) [
    | inl h ↦ inr (subst (λ x. IdleAt x ((j, c) ∷ s)) (first h) (idle_head j c s idle))
    | inr h ↦ inr (idle_here j k c s n h)
  ]
]
  where
    first : ◌≡◌ {A = Option (Text × ℕ)} (some (j, c.seen)) (some (k, seen)) → j ≡ k
    first h = ground (arith, h)

-- What is evicted is a record with nothing in flight.
pub evict_oldest-cases :
    (s : Shard)
    → Distinct s
    → (evict_oldest s ≡ s) ⊎ ((k : Text) × (evict_oldest s ≡ delete k s) × IdleAt k s)
unfolding evict_oldest
evict_oldest-cases s d = elim (Option-cases (oldest s none)) [
  | inl e ↦ inl (rw (e, evict_oldest) refl)
  | inr ((k, seen), e) ↦ inr (k, rw (e, evict_oldest) refl, idle k seen e)
]
  where
    idle : (k : Text) (seen : ℕ) → oldest s none ≡ some (k, seen) → IdleAt k s
    idle k seen e = elim (oldest-idle s none k seen d e) [ inl h ↦ ground (arith, h) | inr h ↦ h ]

delete-active :
    (j k : Text) (s : Shard) → Distinct s → IdleAt k s → active_of j (delete k s) ≡ active_of j s
delete-active j k s d (c, e, i) =
    grind (arith, text_eq_iff k j, lookup-keep (λ x y. not (text_eq k x)) j s d, e, i)

evict_oldest-active :
    (j : Text) (s : Shard) → Distinct s → active_of j (evict_oldest s) ≡ active_of j s
evict_oldest-active j s d = elim (evict_oldest-cases s d) [
  | inl e ↦ ap (active_of j) e
  | inr (k, e, idle) ↦ ap (active_of j) e ∙ delete-active j k s d idle
]

evict_oldest-Distinct : (s : Shard) → Distinct s → Distinct (evict_oldest s)
evict_oldest-Distinct s d = elim (evict_oldest-cases s d) [
  | inl e ↦ subst Distinct (sym e) d
  | inr (k, e, _) ↦ subst Distinct (sym e) (keep-Distinct (λ x y. not (text_eq k x)) s d)
]

make_room-active :
    (j k : Text) (s : Shard) → Distinct s → active_of j (make_room k s) ≡ active_of j s
unfolding make_room
make_room-active j k s d = ground (arith, evict_oldest-active j s d)

make_room-Distinct : (k : Text) (s : Shard) → Distinct s → Distinct (make_room k s)
unfolding make_room
make_room-Distinct k s d = ground (arith, evict_oldest-Distinct s d, d)

pub find-active :
    (k : Text) (rules : Rules) (now : ℕ) (s : Shard) → (find k rules now s).active ≡ active_of k s
unfolding find
find-active k rules now s = ground arith

-- How many slots of `j` a `Release` still holds.
abbrev pub slot_of : Text → Option Text → ℕ
slot_of j none = 0
slot_of j (some k) = if text_eq k j then 1 else 0

abbrev pub holds : Text → Ticket → ℕ
holds j t = if t.done then 0 else slot_of j t.slot

pub acquire-active :
    (host_id : ℕ) (ip : Option (List ℕ)) (rules : Rules) (now : ℕ) (s : Shard) (j : Text)
    → Distinct s
    → let r = acquire host_id ip rules now s in active_of j r.0 ≡ active_of j s + holds j r.2
unfolding acquire
acquire-active host_id none rules now s j d = ground arith
acquire-active host_id (some ip) rules now s j d =
    let k = key_of host_id ip in
    let c = record (find k rules now s) { seen = now } in
    let r = judge c rules now in
    grind (
      arith,
      judge-active c rules now,
      find-active k rules now s,
      make_room-active j k s d,
      lookup-insert k j r.0 (make_room k s),
      lookup-insert k j (record r.0 { active = r.0.active + 1 }) (make_room k s),
      text_eq_iff k j,
    )

pub acquire-Distinct :
    (host_id : ℕ) (ip : Option (List ℕ)) (rules : Rules) (now : ℕ) (s : Shard)
    → Distinct s
    → Distinct (acquire host_id ip rules now s).0
unfolding acquire
acquire-Distinct host_id none rules now s d = d
acquire-Distinct host_id (some ip) rules now s d =
    let k = key_of host_id ip in
    let c = record (find k rules now s) { seen = now } in
    let r = judge c rules now in
    ground (
      arith,
      insert-Distinct k r.0 (make_room k s) (make_room-Distinct k s d),
      insert-Distinct k (record r.0 { active = r.0.active + 1 }) (make_room k s)
          (make_room-Distinct k s d),
    )

pub give_back-active :
    (k j : Text) (s : Shard) → active_of j (give_back k s) ≡ active_of j s - slot_of j (some k)
unfolding give_back
give_back-active k j s = elim (Option-cases (lookup k s)) [
  | inl e ↦ grind (arith, e, text_eq_iff k j)
  | inr (c, e) ↦
      grind (arith, e, text_eq_iff k j, lookup-insert k j (record c { active = c.active - 1 }) s)
]

pub give_back-Distinct : (k : Text) (s : Shard) → Distinct s → Distinct (give_back k s)
unfolding give_back
give_back-Distinct k s d = elim (Option-cases (lookup k s)) [
  | inl e ↦ rw (e, give_back) d
  | inr (c, e) ↦ ground (arith, e, d, insert-Distinct k (record c { active = c.active - 1 }) s d)
]

pub sweep_once-active :
    (now : ℕ) (j : Text) (s : Shard) → Distinct s → active_of j (sweep_once now s) ≡ active_of j s
unfolding sweep_once
sweep_once-active now j s d =
    grind (arith, lookup-keep (λ k c. not ((c.active == 0) && ltb (c.seen + idle_after) now)) j s d)

pub sweep_once-Distinct : (now : ℕ) (s : Shard) → Distinct s → Distinct (sweep_once now s)
unfolding sweep_once
sweep_once-Distinct now s d =
    keep-Distinct (λ k c. not ((c.active == 0) && ltb (c.seen + idle_after) now)) s d
