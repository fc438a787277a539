-- ===== src/Proxy/Caching/Safe.antt =====
-- internal/proxy/cache.go: whom a stored response is shown to.
use ponz_proxy.Prelude.{
  ◌<◌, ℕ, ◌≡◌, refl, sym, ap, subst, ◌∙◌, inl, inr, Bool, true, false, Option, none, some, List, [],
  ◌∷◌, ◌++◌, arith, if◌then◌else◌, length, get_elem?, set,
}
use ponz_proxy.Prelude.Text.{Text, codes}
use ponz_proxy.Prelude.Maps.{insert}
use ponz_proxy.Cache.Setting.{Setting}
use ponz_proxy.Cache.Directives.{Header, values, request_directives}
use ponz_proxy.Cache.Directives.Says.{says}
use ponz_proxy.Cache.Policy.{Request, Storability, credentialed, servable, storable}
use ponz_proxy.Cache.Policy.Terms.{storable-public}
use ponz_proxy.Cache.Key.{Key}
use ponz_proxy.Cache.Entry.{Entry, new_entry, fresh}
use ponz_proxy.Cache.Host.{HostCache, look_up, new_host_cache}
use ponz_proxy.Cache.Host.Sound.{look_up-Sound}
use ponz_proxy.Cache.Host.Stored.{held}
use ponz_proxy.Cache.Host.Found.{held-look_up}
use ponz_proxy.Cache.Host.Runs.{look_up-Keeps, new_host_cache-Refines}
use ponz_proxy.Cache.Host.Dropped.{invalidate-held}
use ponz_proxy.Proxy.Caching.{
  Writer, Outcome, captured, answered, Reply, cache_key, new_writer, serve_cached, answer,
}
use ponz_proxy.Proxy.Caching.Earned.{
  Traffic, Step, asked, wrote_header, wrote_body, dropped, reloaded, Steps, here, more, with_writer,
}
use ponz_proxy.Proxy.Caching.Served.{
  AllEarned, Honest, Invariant, header-Good, body-Good, get_elem?-set, get_elem?-snoc,
}

module _ (is_zero : Text → Bool) (parse_time : Text → Option ℕ) where
  abbrev AllHonest : List Writer → Type 0
  AllHonest ws = (i : ℕ) (c : Writer) → get_elem? ws i ≡ some c → Honest is_zero parse_time c

  set-AllHonest :
      (ws : List Writer) (i : ℕ) (c : Writer)
      → Honest is_zero parse_time c
      → AllHonest ws
      → AllHonest (set ws i c)
  set-AllHonest ws i c new all j d e = elim (get_elem?-set ws i j c d e) [
    | inl same ↦ subst (Honest is_zero parse_time) (sym same) new
    | inr old ↦ all j d old
  ]

  snoc-AllHonest :
      (ws : List Writer) (c : Writer)
      → Honest is_zero parse_time c
      → AllHonest ws
      → AllHonest (ws ++ c ∷ [])
  snoc-AllHonest ws c new all j d e = elim (get_elem?-snoc ws j c d e) [
    | inl same ↦ subst (Honest is_zero parse_time) (sym same) new
    | inr old ↦ all j d old
  ]

  new_writer-Honest :
      (cfg : Setting) (r : Request) → Honest is_zero parse_time (new_writer is_zero cfg r)
  unfolding new_writer
  new_writer-Honest cfg r = (refl, (λ off. ground (arith, off)))

  -- What `answer` does with what was found.
  abbrev outcome_of : ℕ → Setting → Request → ℕ → Header → Option Entry → Outcome
  outcome_of hsts cfg r now h found = elim found [
    | none ↦ captured (new_writer is_zero cfg r)
    | some e ↦
        if servable e.public r
        then answered (serve_cached parse_time hsts r e now h)
        else captured (new_writer is_zero cfg r)
  ]

  outcome-AllHonest :
      (hsts : ℕ) (cfg : Setting) (r : Request) (now : ℕ) (h : Header) (found : Option Entry)
      (ws : List Writer)
      → AllHonest ws
      → AllHonest (with_writer (outcome_of hsts cfg r now h found) ws)
  outcome-AllHonest hsts cfg r now h none ws all =
      snoc-AllHonest ws (new_writer is_zero cfg r) (new_writer-Honest cfg r) all
  outcome-AllHonest hsts cfg r now h (some e) ws all = go (servable e.public r)
    where
      go :
          (b : Bool)
          → AllHonest (
              with_writer
                (if b
                  then answered (serve_cached parse_time hsts r e now h)
                  else captured (new_writer is_zero cfg r))
                ws)
      go true = all
      go false = snoc-AllHonest ws (new_writer is_zero cfg r) (new_writer-Honest cfg r) all

  look_up-AllEarned :
      (k : Key) (now : ℕ) (hc : HostCache)
      → AllEarned is_zero parse_time hc
      → AllEarned is_zero parse_time (look_up k now hc).0
  look_up-AllEarned k now hc (s, all) =
      (look_up-Sound k now hc s, (λ j e t. all j e ((look_up-Keeps k now hc).1 j e t)))

  step-Invariant :
      {t u : Traffic}
      → Step is_zero parse_time t u
      → Invariant is_zero parse_time t
      → Invariant is_zero parse_time u
  unfolding answer held
  step-Invariant (asked t hsts cfg r now h) (all, ws) = (
    look_up-AllEarned (cache_key is_zero r) now t.cache all,
    outcome-AllHonest hsts cfg r now h (look_up (cache_key is_zero r) now t.cache).1 t.writers ws,
  )
  step-Invariant (wrote_header t i c status h now at off) (all, ws) =
      let (honest, all') =
        header-Good is_zero parse_time status h now c t.cache off (ws i c at) all in
      (all', set-AllHonest t.writers i _ honest ws)
  step-Invariant (wrote_body t i c b n now at) (all, ws) =
      let (honest, all') = body-Good is_zero parse_time b n now c t.cache (ws i c at) all in
      (all', set-AllHonest t.writers i _ honest ws)
  step-Invariant (dropped t host path) ((s, all), ws) =
      let (s', left, _) = invalidate-held host path t.cache s in
      ((s', (λ k e there. all k e (ground (arith, left k, there)))), ws)
  step-Invariant (reloaded t budget) (all, ws) = (all, ws)

  Steps-Invariant :
      {t u : Traffic}
      → Steps is_zero parse_time t u
      → Invariant is_zero parse_time t
      → Invariant is_zero parse_time u
  Steps-Invariant (here t) inv = inv
  Steps-Invariant (more t u v before step) inv = step-Invariant step (Steps-Invariant before inv)

  empty-Invariant :
      (budget : ℕ)
      → Invariant is_zero parse_time (record { cache = new_host_cache budget; writers = [] })
  empty-Invariant budget =
      let (s, _, none_held) = new_host_cache-Refines budget in
      ((s, (λ k e there. ground (arith, none_held k e there))), (λ i c e. ground (arith, e)))

  answered-found :
      (hsts : ℕ) (cfg : Setting) (r : Request) (now : ℕ) (h : Header) (hc : HostCache)
      (reply : Reply)
      → (answer is_zero parse_time hsts cfg r now h hc).1 ≡ answered reply
      → (e : Entry) × ((look_up (cache_key is_zero r) now hc).1 ≡ some e)
        × (servable e.public r ≡ true)
        × (reply ≡ serve_cached parse_time hsts r e now h)
  unfolding answer
  answered-found hsts cfg r now h hc reply a = go (look_up (cache_key is_zero r) now hc).1 refl a
    where
      go :
          (found : Option Entry)
          → (look_up (cache_key is_zero r) now hc).1 ≡ found
          → outcome_of hsts cfg r now h found ≡ answered reply
          → (e : Entry) × ((look_up (cache_key is_zero r) now hc).1 ≡ some e)
            × (servable e.public r ≡ true)
            × (reply ≡ serve_cached parse_time hsts r e now h)
      go none f a = ground (arith, a)
      go (some e) f a = (e, f, ground (arith, a), ground (arith, a))

  servable_lem :
      (public : Bool) (r : Request)
      → servable public r ≡ true
      → ((request_directives r.header).no_store ≡ false)
        × ((request_directives r.header).no_cache ≡ false)
        × (credentialed r ≡ true → public ≡ true)
  unfolding servable
  servable_lem public r s = ground (arith, s)

  -- An answer that a cache may give: it is made of a response that could be stored, to a request
  -- with the same key, with a body of the length it declared. It is fresh, the client accepts a
  -- stored answer, and where the client sent credentials the origin said public.
  abbrev pub Safe : ℕ → Request → ℕ → Header → Reply → Type 0
  Safe hsts r now h reply =
      (e : Entry) × (reply ≡ serve_cached parse_time hsts r e now h)
      × (now < e.expires_at)
      × ((request_directives r.header).no_store ≡ false)
      × ((request_directives r.header).no_cache ≡ false)
      × (set : Setting) × (asked_by : Request) × (status : ℕ) × (said : Header) × (said_at : ℕ)
      × (terms : Storability) × (body : Text) × (at : ℕ) × (storable parse_time set asked_by status
            said said_at
          ≡ some terms)
      × (cache_key is_zero r ≡ cache_key is_zero asked_by)
      × (length body ≡ terms.length)
      × (e ≡ new_entry status (insert (codes "X-Cache") (codes "MISS" ∷ []) said) body terms at)
      × (credentialed r ≡ true → says (codes "public") (values (codes "Cache-Control") said) ≡ true)

  -- Whatever requests, responses, invalidations and reloads came before, in whatever order their
  -- steps ran, since a host's cache was empty: an answer from the cache is made of a response that
  -- could be stored, to a request with the same key, with a body of the length it declared. It is
  -- fresh, the client accepts a stored answer, and a client that sent credentials gets it only if
  -- the origin said public.
  pub answer-Safe :
      (budget : ℕ) (u : Traffic) (hsts : ℕ) (cfg : Setting) (r : Request) (now : ℕ) (h : Header)
      (reply : Reply)
      → Steps is_zero parse_time (record { cache = new_host_cache budget; writers = [] }) u
      → (answer is_zero parse_time hsts cfg r now h u.cache).1 ≡ answered reply
      → Safe hsts r now h reply
  unfolding new_entry fresh
  answer-Safe budget u hsts cfg r now h reply before a =
      let (all, _) = Steps-Invariant before (empty-Invariant budget) in
      let (e, found, ok, made) = answered-found hsts cfg r now h u.cache reply a in
      let (there, is_fresh) = held-look_up (cache_key is_zero r) e u.cache now found in
      let (no_store, no_cache, public) = servable_lem e.public r ok in
      let (set, by, status, said, said_at, terms, body, at, stored, key, full, entry) =
        all.1 (cache_key is_zero r) e there in
      let told = storable-public parse_time set by status said said_at terms stored in
      (
        e,
        made,
        ground (arith, is_fresh),
        no_store,
        no_cache,
        set,
        by,
        status,
        said,
        said_at,
        terms,
        body,
        at,
        stored,
        key,
        full,
        entry,
        (λ c. told ∙ sym (ap (λ z. z.public) entry) ∙ public c),
      )
