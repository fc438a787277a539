-- ===== src/Proxy/Caching/Earned.antt =====
-- internal/proxy/cache.go: requests and captured responses on one host's cache, in any order.
use ponz_proxy.Prelude.{
  ℕ, ◌≡◌, Bool, false, Option, some, List, [], ◌∷◌, ◌++◌, length, get_elem?, set,
}
use ponz_proxy.Prelude.Text.{Text, codes}
use ponz_proxy.Prelude.Maps.{insert}
use ponz_proxy.Cache.Setting.{Setting}
use ponz_proxy.Cache.Directives.{Header}
use ponz_proxy.Cache.Policy.{Request, Storability, storable}
use ponz_proxy.Cache.Key.{Key}
use ponz_proxy.Cache.Entry.{Entry, new_entry}
use ponz_proxy.Cache.Host.{HostCache, invalidate}
use ponz_proxy.Proxy.Caching.{
  Writer, Outcome, captured, cache_key, answer, write_header, write_body,
}

-- A host's cache with the writers that were handed out.
pub record Traffic : Type 0 where
  pub cache : HostCache
  pub writers : List Writer

abbrev pub with_writer : Outcome → List Writer → List Writer
with_writer (captured c) ws = ws ++ c ∷ []
with_writer _ ws = ws

abbrev pub after : ℕ → List Writer → Writer × HostCache → Traffic
after i ws (c, hc) = record { cache = hc; writers = set ws i c }

abbrev pub after_answer : Traffic → HostCache × Outcome → Traffic
after_answer t (hc, outcome) = record { cache = hc; writers = with_writer outcome t.writers }

module _ (is_zero : Text → Bool) (parse_time : Text → Option ℕ) where
  -- One step of one goroutine. The final header of a response is written once.
  pub data Step : Traffic → Traffic → Type 0 where
    asked :
        (t : Traffic) (hsts : ℕ) (cfg : Setting) (r : Request) (now : ℕ) (h : Header)
        → Step t (after_answer t (answer is_zero parse_time hsts cfg r now h t.cache))
    wrote_header :
        (t : Traffic) (i : ℕ) (c : Writer) (status : ℕ) (h : Header) (now : ℕ)
        → get_elem? t.writers i ≡ some c
        → c.capturing ≡ false
        → Step t (after i t.writers (write_header parse_time status h now c t.cache))
    wrote_body :
        (t : Traffic) (i : ℕ) (c : Writer) (b : Text) (n now : ℕ)
        → get_elem? t.writers i ≡ some c
        → Step t (after i t.writers (write_body b n now c t.cache))
    dropped :
        (t : Traffic) (host path : Text)
        → Step t (record t { cache = invalidate host path t.cache })
    reloaded :
        (t : Traffic) (budget : ℕ)
        → Step t (record t { cache = record t.cache { budget = budget } })

  pub data Steps : Traffic → Traffic → Type 0 where
    here : (t : Traffic) → Steps t t
    more : (t u v : Traffic) → Steps t u → Step u v → Steps t v

  -- A response with this status and this header, to this request and at this time, may be stored on
  -- these terms, and the entry is made of it and of a body of the length that it declared.
  abbrev pub Earned : Key → Entry → Type 0
  Earned k e =
      (cfg : Setting) × (r : Request) × (status : ℕ) × (h : Header) × (now : ℕ)
      × (terms : Storability) × (body : Text) × (at : ℕ) × (storable parse_time cfg r status h now
          ≡ some terms)
      × (k ≡ cache_key is_zero r)
      × (length body ≡ terms.length)
      × (e ≡ new_entry status (insert (codes "X-Cache") (codes "MISS" ∷ []) h) body terms at)
