-- ===== src/Limiter/Table.antt =====
-- internal/limiter/limiter.go: the records of one shard, by host and address.
--
-- A key is the host's id followed by the sixteen bytes of the address. Each shard is locked for the
-- whole of an operation, so the shards are independent of each other.
pub mod Counts
pub mod Tickets
pub mod Capacity
pub mod Sweeping
use ponz_proxy.Prelude.{
  ℕ, ◌+◌, ◌-◌, ◌*◌, Bool, true, false, not, ◌&&◌, Option, none, some, List, [], ◌∷◌, ◌++◌, ltb, leb,
  ◌==◌, if◌then◌else◌, length, take, drop, replicate, set, get_elem?,
}
use ponz_proxy.Prelude.Text.{Text, text_eq}
use ponz_proxy.Prelude.Maps.{lookup, insert, keep, delete}
use ponz_proxy.Limiter.Bucket.{unit, Verdict, pass, Rules, Client, burst_of, judge}

abbrev pub Shard : Type 0
Shard = List (Text × Client)

-- `shards`, `idleAfter` and `maxPerShard`.
abbrev pub idle_after : ℕ
idle_after = 600 * unit

abbrev pub max_per_shard : ℕ
max_per_shard = 16_384

abbrev v4_prefix : List ℕ
v4_prefix = replicate 10 0 ++ (255 ∷ 255 ∷ [])

-- `net.IP.To4`: an address of four bytes, or of sixteen with the v4-mapped prefix.
unfoldable pub to4 : List ℕ → Option (List ℕ)
to4 ip =
    if length ip == 4
    then some ip
    else if (length ip == 16) && text_eq (take 12 ip) v4_prefix
    then some (drop 12 ip)
    else none

unfoldable pub addr_key : List ℕ → List ℕ
addr_key ip = elim (to4 ip) [ some v4 ↦ v4_prefix ++ v4 | none ↦ take 16 (ip ++ replicate 16 0) ]

abbrev pub key_of : ℕ → List ℕ → Text
key_of host_id ip = host_id ∷ addr_key ip

-- The key of the least recently seen idle record, the first of them on a tie.
unfoldable pub oldest : Shard → Option (Text × ℕ) → Option (Text × ℕ)
oldest [] best = best
oldest ((k, c) ∷ s) best =
    let take_it = oldest s (some (k, c.seen)) in
    let leave_it = oldest s best in
    if ltb 0 c.active then leave_it else elim best [
      | none ↦ take_it
      | some (_, seen) ↦ if ltb c.seen seen then take_it else leave_it
    ]

unfoldable pub evict_oldest : Shard → Shard
evict_oldest s = elim (oldest s none) [ none ↦ s | some (k, _) ↦ delete k s ]

abbrev pub fresh : Rules → ℕ → Client
fresh rules now = record { tokens = burst_of rules * unit; last = now; active = 0; seen = now }

-- Room is made only for a client that has no record.
unfoldable pub make_room : Text → Shard → Shard
make_room k s = elim (lookup k s) [
  | some _ ↦ s
  | none ↦ if leb max_per_shard (length s) then evict_oldest s else s
]

unfoldable pub find : Text → Rules → ℕ → Shard → Client
find k rules now s = elim (lookup k s) [ some c ↦ c | none ↦ fresh rules now ]

-- The `Release` that `Acquire` returns: the slot it took, if any, and whether it was called.
pub record Ticket : Type 0 where
  pub slot : Option Text
  pub done : Bool

abbrev pub no_slot : Ticket
no_slot = record { slot = none; done = false }

-- `addr` is none where the request has no address that can be read.
unfoldable pub acquire : ℕ → Option (List ℕ) → Rules → ℕ → Shard → Shard × Verdict × Ticket
acquire host_id none rules now s = (s, pass, no_slot)
acquire host_id (some ip) rules now s =
    let k = key_of host_id ip in
    let c = record (find k rules now s) { seen = now } in
    let (c', v) = judge c rules now in
    if v.limited then (insert k c' (make_room k s), v, no_slot) else (
      insert k (record c' { active = c'.active + 1 }) (make_room k s),
      pass,
      record { slot = some k; done = false },
    )

-- `cur.active > 0` guards the decrement.
unfoldable pub give_back : Text → Shard → Shard
give_back k s = elim (lookup k s) [
  | none ↦ s
  | some c ↦ if ltb 0 c.active then insert k (record c { active = c.active - 1 }) s else s
]

unfoldable pub release : Ticket → Shard → Shard × Ticket
release t s =
    if t.done
    then (s, t)
    else (elim (t.slot) [ none ↦ s | some k ↦ give_back k s ], record t { done = true })

unfoldable pub sweep_once : ℕ → Shard → Shard
sweep_once now s = keep (λ k c. not ((c.active == 0) && ltb (c.seen + idle_after) now)) s

abbrev host_of : Text → Option ℕ
host_of [] = none
host_of (h ∷ _) = some h

abbrev is_host : ℕ → Option ℕ → Bool
is_host h none = false
is_host h (some i) = i == h

unfoldable pub forget : ℕ → Shard → Shard
forget host_id s = keep (λ k c. not (is_host host_id (host_of k))) s

unfoldable pub tracked : List Shard → ℕ
tracked [] = 0
tracked (s ∷ shards) = length s + tracked shards
