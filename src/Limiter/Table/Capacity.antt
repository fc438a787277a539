-- ===== src/Limiter/Table/Capacity.antt =====
-- internal/limiter/limiter.go: how large a shard grows.
use ponz_proxy.Prelude.{
  ℕ, ◌+◌, ◌≤◌, ◌<◌, ◌≡◌, refl, ◌⊎◌, inl, inr, Bool, not, Option, none, some, List, [], ◌∷◌, arith,
  length, Option-cases,
}
use ponz_proxy.Prelude.Text.{Text, text_eq, text_eq_iff}
use ponz_proxy.Prelude.Maps.{lookup, insert, keep, delete, Distinct, length-insert_le}
use ponz_proxy.Limiter.Bucket.{Rules, Client, judge}
use ponz_proxy.Limiter.Table.{
  Shard, max_per_shard, key_of, oldest, evict_oldest, make_room, find, acquire,
}
use ponz_proxy.Limiter.Table.Counts.{oldest-idle, IdleAt}

-- No record of the shard is idle.
abbrev pub AllActive : Shard → Type 0
AllActive [] = Unit {0}
AllActive ((k, c) ∷ s) = (0 < c.active) × AllActive s

length-insert_old :
    (k : Text) (c : Client) (s : Shard) → (lookup k s ≡ none) ⊎ (length (insert k c s) ≡ length s)
unfolding lookup insert
length-insert_old k c [] = inl refl
length-insert_old k c ((j, d) ∷ s) = ground (arith, length-insert_old k c s)

length-keep_le : (p : Text → Client → Bool) (s : Shard) → length (keep p s) ≤ length s
unfolding keep
length-keep_le p [] = omega arith
length-keep_le p ((k, c) ∷ s) = ground (arith, length-keep_le p s)

length-delete :
    (k : Text) (c : Client) (s : Shard) → lookup k s ≡ some c → length (delete k s) < length s
unfolding lookup keep
length-delete k c [] e = ground (arith, e)
length-delete k c ((j, d) ∷ s) e = ground (
  arith,
  text_eq_iff j k,
  text_eq_iff k j,
  length-keep_le (λ x y. not (text_eq k x)) s,
  length-delete k c s,
)

oldest-some : (s : Shard) (k : Text) (n : ℕ) → oldest s (some (k, n)) ≡ none → ⊥
unfolding oldest
oldest-some [] k n e = ground (arith, e)
oldest-some ((j, c) ∷ s) k n e = ground (arith, e, oldest-some s j c.seen, oldest-some s k n)

oldest-none : (s : Shard) → oldest s none ≡ none → AllActive s
unfolding oldest
oldest-none [] e = tt
oldest-none ((j, c) ∷ s) e = ground (arith, e, oldest-none s, oldest-some s j c.seen)

evict_oldest-length : (s : Shard) → Distinct s → (length (evict_oldest s) < length s) ⊎ AllActive s
unfolding evict_oldest
evict_oldest-length s d = elim (Option-cases (oldest s none)) [
  | inl e ↦ inr (oldest-none s e)
  | inr ((k, seen), e) ↦
      let (c, found, _) = idle k seen e in inl (rw (e, evict_oldest) (length-delete k c s found))
]
  where
    idle : (k : Text) (seen : ℕ) → oldest s none ≡ some (k, seen) → IdleAt k s
    idle k seen e = elim (oldest-idle s none k seen d e) [ inl h ↦ ground (arith, h) | inr h ↦ h ]

insert-length :
    (k : Text) (c : Client) (s : Shard)
    → Distinct s
    → let n = length (insert k c (make_room k s)) in
      (n ≤ max_per_shard) ⊎ (n ≤ length s) ⊎ AllActive s
unfolding make_room
insert-length k c s d = elim (Option-cases (lookup k s)) [
  | inl e ↦ ground (
    arith,
    e,
    evict_oldest-length s d,
    length-insert_le k c (evict_oldest s),
    length-insert_le k c s,
  )
  | inr (old, e) ↦ ground (arith, e, length-insert_old k c s)
]

-- A shard grows past its limit only where every record in it has a request in flight.
pub acquire-length :
    (host_id : ℕ) (ip : Option (List ℕ)) (rules : Rules) (now : ℕ) (s : Shard)
    → Distinct s
    → let n = length (acquire host_id ip rules now s).0 in
      (n ≤ max_per_shard) ⊎ (n ≤ length s) ⊎ AllActive s
unfolding acquire
acquire-length host_id none rules now s d = inr (inl (omega arith))
acquire-length host_id (some ip) rules now s d =
    let k = key_of host_id ip in
    let c = (judge (record (find k rules now s) { seen = now }) rules now).0 in
    ground (arith, insert-length k c s d, insert-length k (record c { active = c.active + 1 }) s d)
