-- ===== src/Cache/Hosts.antt =====
-- internal/cache/cache.go, `Store`: one cache for each host.
pub mod Isolation
use ponz_proxy.Prelude.{
  ℕ, Bool, true, false, not, ◌||◌, Option, none, some, List, [], ◌∷◌, ◌==◌, if◌then◌else◌,
}
use ponz_proxy.Cache.Host.{HostCache, Stats, stats, new_host_cache}

abbrev pub Hosts : Type 0
Hosts = List (ℕ × HostCache)

unfoldable pub host_cache : ℕ → Hosts → Option HostCache
host_cache id [] = none
host_cache id ((i, h) ∷ hs) = if i == id then some h else host_cache id hs

unfoldable pub store_cache : ℕ → HostCache → Hosts → Hosts
store_cache id h [] = (id, h) ∷ []
store_cache id h ((i, g) ∷ hs) = if i == id then (i, h) ∷ hs else (i, g) ∷ store_cache id h hs

-- The cache of a host under its current budget, made on first use. What the caller does to it is
-- written back with `store_cache`, since the source hands out a pointer.
unfoldable pub cache_of : ℕ → ℕ → Hosts → HostCache
cache_of id budget hs = elim (host_cache id hs) [
  | some h ↦ record h { budget = budget }
  | none ↦ new_host_cache budget
]

abbrev pub kept_id : ℕ → List ℕ → Bool
kept_id id [] = false
kept_id id (k ∷ ks) = (k == id) || kept_id id ks

unfoldable pub forget : List ℕ → Hosts → Hosts
forget keep [] = []
forget keep ((i, h) ∷ hs) =
    let rest = forget keep hs in if kept_id i keep then (i, h) ∷ rest else rest

unfoldable pub stats_of : ℕ → Hosts → Option Stats
stats_of id hs = elim (host_cache id hs) [ none ↦ none | some h ↦ some (stats h) ]
