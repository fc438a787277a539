-- ===== src/Cache/Host.antt =====
-- internal/cache/cache.go, `HostCache`: one host's bounded cache.
--
-- A node's key and entry never change, so they stand beside the store of its links.
pub mod Filed
pub mod Eviction
pub mod Sound
pub mod Stored
pub mod Puts
pub mod Found
pub mod Dropped
pub mod Runs
use ponz_proxy.Prelude.{
  ℕ, zero, suc, ◌+◌, ◌-◌, Bool, true, false, not, ◌&&◌, Option, none, some, List, [], ◌∷◌, ltb, leb,
  ◌==◌, if◌then◌else◌, length,
}
use ponz_proxy.Prelude.Text.{Text, text_eq}
use ponz_proxy.Cache.Key.{Key, key_eq, find, insert, delete}
use ponz_proxy.Cache.Revalidation.{no_encodings}
use ponz_proxy.Cache.Entry.{Entry, fresh}
use ponz_proxy.Cache.Recency.{Recency, unlink, push_front, move_to_front}

pub record HostCache : Type 0 where
  pub budget : ℕ
  pub items : List (Key × ℕ)
  pub recency : Recency
  pub payload : ℕ → Key × Entry
  pub allocated : ℕ
  pub bytes : ℕ
  pub hits : ℕ
  pub misses : ℕ
  pub stores : ℕ
  pub evictions : ℕ
  pub expired : ℕ

-- What stands where no node was allocated, which is never read.
abbrev no_key : Key
no_key = record { host = []; path = []; query = []; enc = no_encodings }

abbrev no_entry : Entry
no_entry = record {
  status = 0;
  header = [];
  body = [];
  etag = [];
  last_modified = [];
  public = false;
  stored_at = 0;
  expires_at = 0;
  size = 0;
}

unfoldable pub remove : ℕ → HostCache → HostCache
remove i h = record h {
  items = delete (h.payload i).0 h.items;
  bytes = h.bytes - (h.payload i).1.size;
  recency = unlink i h.recency;
}

unfoldable pub look_up : Key → ℕ → HostCache → HostCache × Option Entry
look_up k now h = elim (find k h.items) [
  | none ↦ (record h { misses = h.misses + 1 }, none)
  | some i ↦
      if not (fresh now (h.payload i).1)
      then (let r = remove i h in record r { expired = r.expired + 1; misses = r.misses + 1 }, none)
      else (
        record h { recency = move_to_front i h.recency; hits = h.hits + 1 },
        some (h.payload i).1,
      )
]

-- The loop of `Put`, on fuel: one unit for each node of the list.
unfoldable pub evict : ℕ → HostCache → HostCache
evict zero h = h
evict (suc fuel) h = elim h.recency.tail [
  | none ↦ h
  | some i ↦
      let r = remove i h in
      let rest = evict fuel (record r { evictions = r.evictions + 1 }) in
      if ltb h.budget h.bytes then rest else h
]

abbrev pub drop_old : Key → HostCache → HostCache
drop_old k h = elim (find k h.items) [ none ↦ h | some old ↦ remove old h ]

unfoldable pub add : Key → Entry → HostCache → HostCache
add k e h = record h {
  items = insert k h.allocated h.items;
  recency = push_front h.allocated h.recency;
  payload = λ j. if j == h.allocated then (k, e) else h.payload j;
  allocated = h.allocated + 1;
  bytes = h.bytes + e.size;
  stores = h.stores + 1;
}

-- After `add` the list has no more nodes than were ever allocated.
unfoldable pub put : Key → Entry → HostCache → HostCache
put k e h =
    let added = add k e (drop_old k h) in
    if ltb h.budget e.size then h else evict added.allocated added

-- A range loop over the items as they stood, which deletes only where it stands.
unfoldable pub invalidate_each : Text → Text → List (Key × ℕ) → HostCache → HostCache
invalidate_each host path [] h = h
invalidate_each host path ((k, i) ∷ items) h =
    let gone = text_eq k.host host && text_eq k.path path in
    invalidate_each host path items (if gone then remove i h else h)

unfoldable pub invalidate : Text → Text → HostCache → HostCache
invalidate host path h = invalidate_each host path h.items h

pub record Stats : Type 0 where
  pub hits : ℕ
  pub misses : ℕ
  pub stores : ℕ
  pub evictions : ℕ
  pub expired : ℕ
  pub objects : ℕ
  pub bytes : ℕ

unfoldable pub stats : HostCache → Stats
stats h = record {
  hits = h.hits;
  misses = h.misses;
  stores = h.stores;
  evictions = h.evictions;
  expired = h.expired;
  objects = length h.items;
  bytes = h.bytes;
}

unfoldable pub new_host_cache : ℕ → HostCache
new_host_cache budget = record {
  budget = budget;
  items = [];
  recency = record { store = λ i. record { prev = none; next = none }; head = none; tail = none };
  payload = λ i. (no_key, no_entry);
  allocated = 0;
  bytes = 0;
  hits = 0;
  misses = 0;
  stores = 0;
  evictions = 0;
  expired = 0;
}
