-- ===== src/Cache/Recency.antt =====
-- internal/cache/cache.go: the doubly linked list of a host's cache, most recently used first.
--
-- A pointer is the number of a node in the store.
pub mod Chain
pub mod Moves
use ponz_proxy.Prelude.{ℕ, Bool, true, false, Option, none, some, ◌==◌, if◌then◌else◌}

pub record Node : Type 0 where
  pub prev : Option ℕ
  pub next : Option ℕ

abbrev pub Store : Type 0
Store = ℕ → Node

abbrev pub write : ℕ → Node → Store → Store
write i n s = λ j. if j == i then n else s j

-- The list fields of `HostCache`, with the store of the nodes.
pub record Recency : Type 0 where
  pub store : Store
  pub head : Option ℕ
  pub tail : Option ℕ

unfoldable pub set_next : Option ℕ → Option ℕ → Store → Store
set_next none v s = s
set_next (some i) v s = write i (record (s i) { next = v }) s

unfoldable pub set_prev : Option ℕ → Option ℕ → Store → Store
set_prev none v s = s
set_prev (some i) v s = write i (record (s i) { prev = v }) s

abbrev pub or_head : Option ℕ → Option ℕ → Option ℕ → Option ℕ
or_head none v head = v
or_head (some i) v head = head

unfoldable pub unlink : ℕ → Recency → Recency
unlink i r =
    let prev = (r.store i).prev in
    let next = (r.store i).next in
    let linked = set_prev next prev (set_next prev next r.store) in
    record {
      store = write i (record { prev = none; next = none }) linked;
      head = or_head prev next r.head;
      tail = or_head next prev r.tail;
    }

unfoldable pub push_front : ℕ → Recency → Recency
push_front i r =
    let s = write i (record { prev = none; next = r.head }) r.store in
    record {
      store = set_prev r.head (some i) s;
      head = some i;
      tail = elim r.tail [ none ↦ some i | some t ↦ some t ];
    }

abbrev pub at_head : ℕ → Option ℕ → Bool
at_head i none = false
at_head i (some h) = h == i

unfoldable pub move_to_front : ℕ → Recency → Recency
move_to_front i r = if at_head i r.head then r else push_front i (unlink i r)
