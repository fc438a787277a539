-- ===== src/Cache/Tests.antt =====
-- internal/cache/cache.go: three nodes, the last of which is used.
use ponz_proxy.Prelude.{ℕ, false, ◌≡◌, ◌≢◌, refl, none, some, List, [], ◌∷◌, arith}
use ponz_proxy.Cache.Recency.{Recency, push_front, unlink, move_to_front, set_prev, set_next}
use ponz_proxy.Cache.Revalidation.{no_encodings}
use ponz_proxy.Prelude.Text.{text_eq, text_eq_iff}
use ponz_proxy.Cache.Key.{Key, key_eq, encodings_eq, find}
use ponz_proxy.Cache.Host.Filed.{Filed}
use ponz_proxy.Cache.Entry.{Entry}
use ponz_proxy.Cache.Host.{HostCache, evict, remove, look_up, put, new_host_cache}
use ponz_proxy.Cache.Host.Sound.{Sound}
use ponz_proxy.Cache.Host.Stored.{held}
use ponz_proxy.Cache.Host.Puts.{put-Stores}
use ponz_proxy.Cache.Host.Found.{look_up-put}
use ponz_proxy.Cache.Host.Runs.{
  Call, looks_up, puts, invalidates, sets_budget, calls, plain_calls, Refines, calls-Refines,
  new_host_cache-Refines,
}
use ponz_proxy.Cache.Host.Eviction.{Evicts, evict-Evicts}
use ponz_proxy.Cache.Recency.Moves.{Lists, push_front-Lists, move_to_front-Lists}

abbrev empty : Recency
empty = record { store = λ i. record { prev = none; next = none }; head = none; tail = none }

abbrev three : Recency
three = push_front 1 (push_front 2 (push_front 3 empty))

three-Lists : Lists three (1 ∷ 2 ∷ 3 ∷ [])
three-Lists =
    push_front-Lists 1 (2 ∷ 3 ∷ []) (push_front 2 (push_front 3 empty))
      ((λ e. ground (arith, e)), ((λ e. ground (arith, e)), tt))
      (push_front-Lists 2 (3 ∷ []) (push_front 3 empty) ((λ e. ground (arith, e)), tt)
        (push_front-Lists 3 [] empty tt (tt, refl, refl, tt)))

move_to_front-Lists_example : Lists (move_to_front 3 three) (3 ∷ 1 ∷ 2 ∷ [])
move_to_front-Lists_example = move_to_front-Lists (1 ∷ 2 ∷ []) 3 [] three three-Lists

abbrev numbered : ℕ → Key
numbered i = record { host = []; path = i ∷ []; query = []; enc = no_encodings }

abbrev ten_bytes : Entry
ten_bytes = record {
  status = 200;
  header = [];
  body = [];
  etag = [];
  last_modified = [];
  public = false;
  stored_at = 0;
  expires_at = 100;
  size = 10;
}

-- Three entries of ten bytes where fifteen are allowed.
abbrev over_full : HostCache
over_full = record {
  budget = 15;
  items = (numbered 1, 1) ∷ (numbered 2, 2) ∷ (numbered 3, 3) ∷ [];
  recency = three;
  payload = λ i. (numbered i, ten_bytes);
  allocated = 4;
  bytes = 30;
  hits = 0;
  misses = 0;
  stores = 3;
  evictions = 0;
  expired = 0;
}

over_full-Filed : Filed over_full (1 ∷ 2 ∷ 3 ∷ [])
unfolding find key_eq encodings_eq text_eq
over_full-Filed = (
  (λ k i e. ground (arith, e, text_eq_iff (1 ∷ []) k.path, text_eq_iff (2 ∷ []) k.path)),
  (λ i e. ground (arith, e)),
  (refl, (refl, (refl, tt))),
)

evict-Evicts_example : Evicts over_full (1 ∷ 2 ∷ 3 ∷ []) (evict 4 over_full)
evict-Evicts_example =
    evict-Evicts 4 over_full (1 ∷ 2 ∷ 3 ∷ []) (omega arith) (three-Lists, refl, over_full-Filed)

two_evicted : (evict 4 over_full).evictions ≡ 2
unfolding evict remove unlink push_front set_prev set_next
two_evicted = refl

abbrev empty_cache : HostCache
empty_cache = new_host_cache 25

empty_cache-Sound : Sound empty_cache
empty_cache-Sound = (new_host_cache-Refines 25).0

-- An entry of ten bytes where twenty-five are allowed.
look_up-put_example :
    ((look_up (numbered 1) 50 (put (numbered 1) ten_bytes empty_cache)).1 ≡ some ten_bytes)
    × ((j : Key) (d : Entry)
        → j ≢ numbered 1
        → (look_up j 50 (put (numbered 1) ten_bytes empty_cache)).1 ≡ some d
        → held j empty_cache ≡ some d)
unfolding new_host_cache
look_up-put_example =
    look_up-put (numbered 1) ten_bytes empty_cache 50 empty_cache-Sound (omega arith) (omega arith)

abbrev some_calls : List Call
some_calls =
    puts (numbered 1) ten_bytes
    ∷ puts (numbered 2) ten_bytes
    ∷ looks_up (numbered 1) 50
    ∷ puts (numbered 3) ten_bytes
    ∷ invalidates [] (3 ∷ [])
    ∷ sets_budget 5
    ∷ puts (numbered 1) ten_bytes
    ∷ []

calls-Refines_example :
    Refines
      (calls some_calls empty_cache)
      (plain_calls some_calls (record { limit = 25; at = λ k. none }))
calls-Refines_example =
    calls-Refines some_calls empty_cache (record { limit = 25; at = λ k. none })
      (new_host_cache-Refines 25)

one_stored-Sound : Sound (put (numbered 1) ten_bytes empty_cache)
unfolding new_host_cache
one_stored-Sound = (put-Stores (numbered 1) ten_bytes empty_cache (omega arith) empty_cache-Sound).0
