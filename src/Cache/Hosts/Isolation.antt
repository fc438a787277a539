-- ===== src/Cache/Hosts/Isolation.antt =====
-- internal/cache/cache.go, `Store`: what is done to one host's cache is not seen in another's.
use ponz_proxy.Prelude.{ℕ, ◌≡◌, refl, none, some, List, [], ◌∷◌, arith, ◌==◌, if◌then◌else◌}
use ponz_proxy.Cache.Host.{HostCache}
use ponz_proxy.Cache.Hosts.{Hosts, host_cache, store_cache, kept_id, forget}

pub host_cache-store_cache :
    (j id : ℕ) (h : HostCache) (hs : Hosts)
    → host_cache j (store_cache id h hs) ≡ (if id == j then some h else host_cache j hs)
unfolding host_cache store_cache
host_cache-store_cache j id h [] = refl
host_cache-store_cache j id h ((i, g) ∷ hs) = ground (arith, host_cache-store_cache j id h hs)

-- `Forget` releases the caches of the hosts that are not to be kept, and leaves the others alone.
pub host_cache-forget :
    (id : ℕ) (keep : List ℕ) (hs : Hosts)
    → host_cache id (forget keep hs) ≡ (if kept_id id keep then host_cache id hs else none)
unfolding host_cache forget
host_cache-forget id keep [] = ground arith
host_cache-forget id keep ((i, h) ∷ hs) = grind (arith, host_cache-forget id keep hs)
