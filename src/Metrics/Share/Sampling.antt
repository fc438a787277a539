-- ===== src/Metrics/Share/Sampling.antt =====
-- internal/metrics/share.go, `sampleShares`: what a sample does to the windows of all backends.
use ponz_proxy.Prelude.{◌≡◌, refl, false, Option, none, some, List, [], ◌∷◌, arith, if◌then◌else◌}
use ponz_proxy.Prelude.Text.{Text, text_eq, text_eq_iff}
use ponz_proxy.Prelude.Maps.{lookup, insert, Distinct, lookup-insert, insert-Distinct}
use ponz_proxy.Metrics.Share.{
  Window, Reading, Shares, push, idle, window_at, push_all, seen, forgotten, idle_all,
  sample_shares,
}

-- The readings of one backend, in turn.
unfoldable pub pushes : Text → List Reading → Window → Window
pushes j [] w = w
pushes j ((k, total) ∷ rs) w = if text_eq k j then pushes j rs (push total w) else pushes j rs w

abbrev pub idled : Option Window → Option Window
idled none = none
idled (some w) = if forgotten (idle w) then none else some (idle w)

push_all-Distinct : (rs : List Reading) (s : Shares) → Distinct s → Distinct (push_all rs s)
unfolding push_all
push_all-Distinct [] s d = d
push_all-Distinct ((k, n) ∷ rs) s d =
    push_all-Distinct rs (insert k (push n (window_at k s)) s)
      (insert-Distinct k (push n (window_at k s)) s d)

window_at-insert :
    (k j : Text) (w : Window) (s : Shares)
    → window_at j (insert k w s) ≡ (if text_eq k j then w else window_at j s)
unfolding window_at
window_at-insert k j w s = ground (arith, lookup-insert k j w s)

pushes-unseen : (j : Text) (rs : List Reading) (w : Window) → seen j rs ≡ false → pushes j rs w ≡ w
unfolding seen pushes
pushes-unseen j [] w h = refl
pushes-unseen j ((k, n) ∷ rs) w h = ground (arith, h, pushes-unseen j rs w)

lookup-push_all :
    (j : Text) (rs : List Reading) (s : Shares)
    → lookup j (push_all rs s)
      ≡ (if seen j rs then some (pushes j rs (window_at j s)) else lookup j s)
unfolding push_all seen pushes
lookup-push_all j [] s = refl
lookup-push_all j ((k, n) ∷ rs) s =
    let w = push n (window_at k s) in
    grind (
      arith,
      text_eq_iff k j,
      lookup-push_all j rs (insert k w s),
      window_at-insert k j w s,
      lookup-insert k j w s,
      pushes-unseen j rs w,
    )

idle_all-none :
    (j : Text) (rs : List Reading) (s : Shares)
    → lookup j s ≡ none
    → lookup j (idle_all rs s) ≡ none
unfolding idle_all lookup
idle_all-none j rs [] h = refl
idle_all-none j rs ((k, w) ∷ s) h = ground (arith, h, idle_all-none j rs s)

lookup-idle_all :
    (j : Text) (rs : List Reading) (s : Shares)
    → Distinct s
    → lookup j (idle_all rs s) ≡ (if seen j rs then lookup j s else idled (lookup j s))
unfolding idle_all lookup
lookup-idle_all j rs [] d = ground arith
lookup-idle_all j rs ((k, w) ∷ s) (n, d) =
    grind (arith, text_eq_iff k j, n, lookup-idle_all j rs s d, idle_all-none k rs s n)

-- After a sample, a backend that was read has its readings pushed into its window, or into a new
-- one; any other backend has its window moved on, and loses it after three samples without a
-- reading once nothing is left in it.
pub lookup-sample_shares :
    (j : Text) (rs : List Reading) (s : Shares)
    → Distinct s
    → lookup j (sample_shares rs s)
      ≡ (if seen j rs then some (pushes j rs (window_at j s)) else idled (lookup j s))
unfolding sample_shares
lookup-sample_shares j rs s d =
    grind (
      arith,
      lookup-idle_all j rs (push_all rs s) (push_all-Distinct rs s d),
      lookup-push_all j rs s,
    )
