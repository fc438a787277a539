-- ===== src/Metrics/Tests.antt =====
-- internal/metrics/share.go: a window at concrete samples.
use ponz_proxy.Prelude.{◌%◌, ◌≡◌, refl, true, List, [], ◌∷◌, ◌++◌, arith, replicate, drop, length}
use ponz_proxy.Prelude.Text.{codes}
use ponz_proxy.Metrics.Share.{
  share_buckets, word, new_window, Window, Shares, turn, push, idle, delta_of,
}
use ponz_proxy.Metrics.Share.Buckets.{total}
use ponz_proxy.Metrics.Share.Sliding.{Tick, ticks, added, ticks-sum}

abbrev samples : List Tick
samples = Tick.reading 1_005 ∷ Tick.unseen ∷ Tick.reading 3 ∷ []

falls : (ticks (Tick.reading 1_000 ∷ samples) new_window).sum ≡ 8
unfolding ticks push idle turn delta_of
falls = refl

ticks-sum_example :
    (ticks (Tick.reading 1_000 ∷ samples) new_window).sum
    ≡ total (drop (length (added 1_000 samples)) (replicate share_buckets 0 ++ added 1_000 samples))
      % word
ticks-sum_example = ticks-sum 1_000 samples (omega arith, (omega arith, tt))

abbrev gone : Window
gone = record new_window { last = 7; primed = true; missed = 2 }

abbrev shares : Shares
shares = (codes "a", gone) ∷ []
