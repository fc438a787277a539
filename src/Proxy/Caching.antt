-- ===== src/Proxy/Caching.antt =====
-- internal/proxy/cache.go: which requests the cache answers, and how a response gets into it.
pub mod Capture
pub mod Earned
pub mod Served
pub mod Safe
pub mod Lengths
mod Tests
use ponz_proxy.Prelude.{
  ℕ, ◌+◌, ◌-◌, ◌*◌, ◌/◌, Bool, true, false, not, ◌&&◌, ◌||◌, Option, none, some, List, [], ◌∷◌,
  ◌++◌, ltb, ◌==◌, if◌then◌else◌, length, take,
}
use ponz_proxy.Prelude.Text.{Text, codes}
use ponz_proxy.Prelude.Maps.{insert}
use ponz_proxy.Prelude.Fields.{itoa}
use ponz_proxy.Cache.Setting.{Setting, second}
use ponz_proxy.Cache.Directives.{Header, field, present}
use ponz_proxy.Cache.Policy.{Request, Storability, eligible, invalidates, servable, storable}
use ponz_proxy.Cache.Revalidation.{parse_accept_encoding, not_modified}
use ponz_proxy.Cache.Key.{Key}
use ponz_proxy.Cache.Entry.{Entry, new_entry, age}
use ponz_proxy.Cache.Host.{HostCache, look_up, put, invalidate}
use ponz_proxy.Cache.Hosts.{Hosts, cache_of, store_cache}
use ponz_proxy.Proxy.Routing.{normalize_host_header}

-- `captureWriter`. The capacity of `buf` is left out. `response_header` is the header map of the
-- writer underneath.
pub record Writer : Type 0 where
  pub request : Request
  pub cfg : Setting
  pub key : Key
  pub status : ℕ
  pub response_header : Header
  pub terms : Storability
  pub buf : Text
  pub capturing : Bool

pub record Reply : Type 0 where
  pub status : ℕ
  pub header : Header
  pub body : Text

-- How `interceptCache` ends: the request goes upstream as it is, it goes there through a writer
-- that captures the response, or it was answered.
pub data Outcome : Type 0 where
  forwarded : Outcome
  captured : Writer → Outcome
  answered : Reply → Outcome

abbrev pub no_terms : Storability
no_terms = record { expires_at = 0; public = false; length = 0 }

unfoldable pub add_headers : Header → Header → Header
add_headers [] h = h
add_headers ((k, vs) ∷ stored) h = add_headers stored (insert k vs h)

-- `hsts` is `HSTSMaxAge` of the host.
unfoldable pub with_hsts : ℕ → Request → Header → Header
with_hsts hsts r h =
    if r.tls && ltb 0 hsts && not (present (codes "Strict-Transport-Security") h)
    then insert (codes "Strict-Transport-Security") ((codes "max-age=" ++ itoa hsts) ∷ []) h
    else h

unfoldable pub served_header : ℕ → Request → Entry → ℕ → Header → Header
served_header hsts r e now h =
    let aged = insert (codes "Age") (itoa (age now e / second) ∷ []) (add_headers e.header h) in
    insert (codes "X-Cache") (codes "HIT" ∷ []) (with_hsts hsts r aged)

-- `hc` is the cache that the writer was given.
unfoldable pub commit : ℕ → Writer → HostCache → Writer × HostCache
commit now c hc = (
  record c { capturing = false; buf = [] },
  put c.key (new_entry c.status c.response_header c.buf c.terms now) hc,
)

-- The writer underneath took the first `n` bytes of `b`.
unfoldable pub write_body : Text → ℕ → ℕ → Writer → HostCache → Writer × HostCache
write_body b n now c hc =
    let more = c.buf ++ take n b in
    if not c.capturing || (n == 0)
    then (c, hc)
    else if ltb c.terms.length (length c.buf + n)
    then (record c { capturing = false; buf = [] }, hc)
    else if length more == c.terms.length
    then commit now (record c { buf = more }) hc
    else (record c { buf = more }, hc)

-- `is_zero` tells whether `strconv.ParseFloat` reads a zero.
module _ (is_zero : Text → Bool) where
  unfoldable pub cache_key : Request → Key
  cache_key r = record {
    host = normalize_host_header r.host;
    path = r.path;
    query = r.query;
    enc = parse_accept_encoding is_zero (field (codes "Accept-Encoding") r.header);
  }

  unfoldable pub new_writer : Setting → Request → Writer
  new_writer cfg r = record {
    request = r;
    cfg = cfg;
    key = cache_key r;
    status = 0;
    response_header = [];
    terms = no_terms;
    buf = [];
    capturing = false;
  }

-- `parse_time` is `http.ParseTime`.
module _ (parse_time : Text → Option ℕ) where
  -- `h` is what the response's header holds so far.
  unfoldable pub serve_cached : ℕ → Request → Entry → ℕ → Header → Reply
  serve_cached hsts r e now h =
      let shown = served_header hsts r e now h in
      if not_modified parse_time e.etag e.last_modified r.header
      then record { status = 304; header = shown; body = [] }
      else record {
        status = e.status;
        header = insert (codes "Content-Length") (itoa (length e.body) ∷ []) shown;
        body = e.body;
      }

  unfoldable pub started : ℕ → Header → ℕ → Writer → Writer
  started status h now c =
      let shown = insert (codes "X-Cache") (codes "MISS" ∷ []) h in
      elim (storable parse_time c.cfg c.request status h now) [
        | none ↦ record c { status = status; response_header = shown }
        | some terms ↦ record c {
          status = status;
          response_header = shown;
          terms = terms;
          capturing = true;
          buf = [];
        }
      ]

  unfoldable pub write_header : ℕ → Header → ℕ → Writer → HostCache → Writer × HostCache
  write_header status h now c hc =
      let c' = started status h now c in
      if c'.capturing && (c'.terms.length == 0) then commit now c' hc else (c', hc)

module _ (is_zero : Text → Bool) (parse_time : Text → Option ℕ) where
  -- On the host's own cache, for a request that takes part in caching.
  unfoldable pub answer : ℕ → Setting → Request → ℕ → Header → HostCache → HostCache × Outcome
  answer hsts cfg r now h hc =
      let (hc', found) = look_up (cache_key is_zero r) now hc in
      (
        hc',
        elim found [
          | none ↦ captured (new_writer is_zero cfg r)
          | some e ↦
              if servable e.public r
              then answered (serve_cached parse_time hsts r e now h)
              else captured (new_writer is_zero cfg r)
        ],
      )

  unfoldable pub intercept_cache : ℕ → ℕ → Setting → Request → ℕ → Header → Hosts → Hosts × Outcome
  intercept_cache id hsts cfg r now h hosts =
      let hc = cache_of id cfg.max_bytes hosts in
      if invalidates cfg r
      then (store_cache id (invalidate (normalize_host_header r.host) r.path hc) hosts, forwarded)
      else if not (eligible cfg r)
      then (hosts, forwarded)
      else (let (hc', outcome) = answer hsts cfg r now h hc in (store_cache id hc' hosts, outcome))
