-- ===== src/Metrics/Share.antt =====
-- internal/metrics/share.go: the rolling count of a backend's recent requests.
pub mod Buckets
pub mod Sliding
pub mod Sampling
use ponz_proxy.Prelude.{
  ℕ, ◌+◌, ◌-◌, ◌%◌, ◌^◌, Bool, true, false, not, ◌&&◌, Option, none, some, List, [], ◌∷◌, ltb, leb,
  ◌==◌, if◌then◌else◌, replicate, set, get_or,
}
use ponz_proxy.Prelude.Text.{Text, text_eq}
use ponz_proxy.Prelude.Maps.{lookup, insert}

-- `shareBuckets` and `staleTicks`: thirty seconds of one second each, and three.
abbrev pub share_buckets : ℕ
share_buckets = 30

abbrev pub stale_ticks : ℕ
stale_ticks = 3

abbrev pub word : ℕ
word = 2 ^ 64

-- A uint64 wraps.
abbrev pub plus : ℕ → ℕ → ℕ
plus a b = (a + b) % word

abbrev pub minus : ℕ → ℕ → ℕ
minus a b = (a + (word - b)) % word

pub record Window : Type 0 where
  pub last : ℕ
  pub primed : Bool
  pub buckets : List ℕ
  pub next : ℕ
  pub sum : ℕ
  pub missed : ℕ

abbrev pub new_window : Window
new_window = record {
  last = 0;
  primed = false;
  buckets = replicate share_buckets 0;
  next = 0;
  sum = 0;
  missed = 0;
}

-- The bucket at `next` is overwritten and the sum follows it.
unfoldable pub turn : ℕ → Window → Window
turn delta w = record w {
  sum = plus (minus w.sum (get_or w.buckets w.next 0)) delta;
  buckets = set w.buckets w.next delta;
  next = (w.next + 1) % share_buckets;
}

unfoldable pub delta_of : ℕ → ℕ → ℕ
delta_of last total = if leb last total then total - last else total

unfoldable pub push : ℕ → Window → Window
push total w =
    let w' = record w { missed = 0 } in
    if not w.primed
    then record w' { last = total; primed = true }
    else turn (delta_of w.last total) (record w' { last = total })

unfoldable pub idle : Window → Window
idle w = turn 0 (record w { missed = w.missed + 1 })

-- What the sampler read: a backend's key and its cumulative count.
abbrev pub Reading : Type 0
Reading = Text × ℕ

abbrev pub Shares : Type 0
Shares = List (Text × Window)

unfoldable pub window_at : Text → Shares → Window
window_at k s = elim (lookup k s) [ some w ↦ w | none ↦ new_window ]

unfoldable pub push_all : List Reading → Shares → Shares
push_all [] s = s
push_all ((k, total) ∷ rs) s = push_all rs (insert k (push total (window_at k s)) s)

unfoldable pub seen : Text → List Reading → Bool
seen k [] = false
seen k ((j, total) ∷ rs) = if text_eq j k then true else seen k rs

abbrev pub forgotten : Window → Bool
forgotten w = leb stale_ticks w.missed && (w.sum == 0)

unfoldable pub idle_all : List Reading → Shares → Shares
idle_all rs [] = []
idle_all rs ((k, w) ∷ s) =
    let rest = idle_all rs s in
    if seen k rs then (k, w) ∷ rest else if forgotten (idle w) then rest else (k, idle w) ∷ rest

unfoldable pub sample_shares : List Reading → Shares → Shares
sample_shares rs s = idle_all rs (push_all rs s)
