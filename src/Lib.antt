-- ===== src/Lib.antt =====
-- PonzProxy, a load balancer and reverse proxy: a verification library for its data plane.
--
-- A request passes through `Engine.ServeHTTP` (internal/proxy): the routing table resolves its
-- Host header and its path, the host's traffic limits (internal/limiter) and access list may refuse
-- it, and `forward` picks a backend of the pool (internal/balancer), sends the request and moves to
-- another backend where one cannot be reached. What an attempt teaches about a backend goes back
-- into the pool, which the health checker writes to as well. The metrics sampler, the budget
-- watcher and the console's sign-in throttle run beside this.
--
-- The files:
--   Prelude: shared names. Prelude/Tests and Prelude/Lists have Boolean tests and lists over the
--     native numbers, Prelude/Int signed integers, Prelude/Text byte strings, Prelude/Strings what
--     is used of package strings, Prelude/Maps maps with string keys.
--   Balancer/Backend (internal/balancer/backend.go): the record of a backend's runtime state, with
--     one function for each method. Backend/Probes and Backend/Ejection have the proofs on active
--     and passive health.
--   Balancer/Selector (internal/balancer/selector.go): the four algorithms. Its children have the
--     proofs: Rotation, Weighted (with Shares, Rounds, Kept), Least, Rendezvous, Chosen.
--   Balancer/Pool (internal/balancer/pool.go): `NewPool`, `Pick`, `HealthyCount`. Pool/Choice,
--     Pool/Errors, Pool/Frame, Pool/Reload and Pool/Serving have the proofs.
--   Proxy/Routing (internal/proxy/routing.go): `buildRoutingTable`, `lookup`, `pick` and the header
--     normalisation; Routing/Prefix (internal/domain/location.go): one location. Locations, Hosts,
--     Exact and Headers have the proofs.
--   Proxy/Forward (internal/proxy/handler.go): the retry loop `forward`. Forward/Attempts and
--     Forward/Slots have the proofs.
--   Proxy/Limits (internal/proxy/limits.go, internal/domain/trafficlimit.go and mode.go):
--     `enforceLimits` over the limiter, with Limits/Refusals.
--   Proxy/Access (internal/domain/accesslist.go, internal/proxy/access.go and authcache.go):
--     `EvaluateAccess`, and `enforceAccess` with the credentials it remembers. Access/Rules,
--     Access/Entries and Access/Remembering have the proofs.
--   Limiter/Bucket (internal/limiter/limiter.go): `judge` on one client's record, with Bucket/Rate
--     and Bucket/Retry. Limiter/Table: the records of a shard, with `Acquire`, `Release`, eviction,
--     `sweepOnce` and `Forget`; Counts, Tickets, Capacity and Sweeping have the proofs.
--   Metrics/Share (internal/metrics/share.go): the rolling window of a backend and `sampleShares`,
--     with Share/Buckets, Share/Sliding and Share/Sampling.
--   Console/Login (internal/api/ratelimit.go): the throttle on sign-ins, with Login/Blocking and
--     Login/Sweeping.
--   Alerts/Usage (internal/alerts/usage.go): the budget watcher, with Usage/Repeats.
--     Alerts/Channel (internal/domain/alert.go): events, alerts and channels. Alerts/Dispatcher
--     (internal/alerts/dispatcher.go): the queue, the throttle and the delivery, with
--     Dispatcher/Spacing and Dispatcher/Held.
--   AccessLog/Entry (internal/domain/accesslog.go, internal/proxy/accesslog.go): rows, with
--     Entry/Clamped. AccessLog/Writer (internal/accesslog/writer.go): the buffer and the loop of
--     `Run`, over a repository that is a parameter; Writer/Accounts, Left, Rows and
--     Bounds have the proofs.
--   Cache/Setting (internal/domain/cache.go): a host's cache setting, with Setting/Valid.
--     Cache/Directives, Cache/Policy and Cache/Revalidation (internal/cache/policy.go): what header
--     fields say, which responses are stored and whom they are shown to, accepted codings and 304;
--     the proofs are in Directives/Says, Policy/Terms and Policy/Kept.
--   Cache/Key, Cache/Entry, Cache/Host, Cache/Hosts and Cache/Recency (internal/cache/cache.go): keys,
--     entries, one host's cache with all its operations, the store of the hosts, and the linked list
--     on a store of nodes with Recency/Chain and Recency/Moves. Host/Filed, Eviction, Sound, Stored,
--     Puts, Found, Dropped and Runs, and Hosts/Isolation have the proofs.
--   Proxy/Caching (internal/proxy/cache.go): `interceptCache`, `serveCached` and the capturing
--     writer. Caching/Earned has the steps of several requests and responses in any order, with
--     Served and Safe; Capture and Lengths are about one response.
--   Domain/Names and Domain/Upstreams (internal/domain/host.go): names of hosts, addresses and
--     backends. Names/Plain and Names/Routed, Upstreams/Valid have the proofs.
--   Domain/Site (internal/domain/host.go and location.go): `Host.Normalize`, with Site/Reports for
--     `Host.Validate` and `Location.Validate`; Site/Complete adds the
--     settings. Site/Accepted and Site/Normal have the proofs.
--   Domain/Options (internal/domain/guardian.go, trafficlimit.go, maintenance.go, mode.go) and
--     Domain/Rewriting (headers.go, compression.go, usage_alert.go, the error pages): the settings of
--     a host, with Rewriting/Applied on the header rules.
--   Domain/Redirect (internal/domain/redirect.go), with Redirect/Target on `Location`, and
--     Proxy/Redirects (internal/proxy/routing.go), their tables, with Redirects/Agree.
--   Tests.antt beside a component: runs at concrete inputs.
--
-- Conventions. A method returns the new state beside its result. Times and durations are
-- nanoseconds, as natural numbers, unless a comment says milliseconds. An int that validation
-- keeps from being negative is a natural number; `activeConns` and `currentWeight` are integers,
-- and a uint64 counter wraps at 2 ^ 64. A position in a pool's slice stands for the pointer to
-- that backend. A Go map is an association list in the order in which a range loop visits it.
-- Each method is one indivisible step, which the atomics and mutexes of the source guarantee for
-- the fields that it touches; the shutdown of the access log is not, and lets requests in
-- between. The limiter's float64 bucket is held exactly, in billionths of a request.
--
-- Fuel. `forward` gets one unit for each attempt that `MaxRetries` allows, which is proved enough.
-- The eviction of `Put` gets one for each node ever allocated, since the list has no node twice.
-- `itoa` gets the number itself. Every other loop is recursion on a list.
--
-- Parameters. The seeded hash of hash/maphash is any function. The one that spreads the limiter's
-- keys over its shards does not appear, since the model is of one shard. The float64 scores of
-- `ipHash` are an abstract order (`Floats`). The round trip of net/http/httputil is a function
-- from the attempt to what it came to, which may be a panic with http.ErrAbortHandler; what other
-- goroutines do to a pool in between is any function on pools. Address and prefix parsing of
-- net/netip, the bcrypt comparison and the digest of `makeAuthKey` are functions, of which the
-- last tells credentials apart. `strconv.ParseFloat` and `http.ParseTime` are functions as well,
-- as are `url.Parse`, `net.SplitHostPort`, `net.ParseIP`, `net.ParseCIDR` and
-- `http.CanonicalHeaderKey`.
--
-- Not modelled: HTTP input and output, TLS, the coding of compressed responses, request
-- inspection, health probing and its loop, backups, the wording and the JSON of alerts, process
-- logs, the SQLite store, the rest of the console's API and its assets, rendering of reports and
-- pages, and process start-up.
pub mod Prelude
pub mod Balancer
pub mod Proxy
pub mod Limiter
pub mod Metrics
pub mod Console
pub mod Domain
pub mod AccessLog
pub mod Alerts
pub mod Cache
