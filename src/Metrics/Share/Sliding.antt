-- ===== src/Metrics/Share/Sliding.antt =====
-- internal/metrics/share.go: one backend's window over any run of samples.
use ponz_proxy.Prelude.{
  append_assoc, append-nil, ℕ, zero, suc, ◌+◌, ◌%◌, ◌<◌, ◌≡◌, refl, sym, ap, subst, ◌∙◌, ◌⊎◌, inl,
  inr, true, List, [], ◌∷◌, ◌++◌, arith, length, replicate, set, get_or, take, drop, length-set,
}
use ponz_proxy.Metrics.Share.{
  share_buckets, word, plus, minus, Window, new_window, turn, delta_of, push, idle,
}
use ponz_proxy.Metrics.Share.Buckets.{
  total, total-append, total-set, wrap_lem, drop-get, slide_inside, slide_last,
}

-- The buckets from the oldest to the newest.
abbrev pub oldest_first : Window → List ℕ
oldest_first w = drop w.next w.buckets ++ take w.next w.buckets

abbrev Small : List ℕ → Type 0
Small [] = Unit {0}
Small (x ∷ xs) = (x < word) × Small xs

Small-set : (xs : List ℕ) (i d : ℕ) → d < word → Small xs → Small (set xs i d)
Small-set [] i d h s = tt
Small-set (x ∷ xs) zero d h (s, ss) = (h, ss)
Small-set (x ∷ xs) (suc i) d h (s, ss) = (s, Small-set xs i d h ss)

Small-get : (xs : List ℕ) (i : ℕ) → Small xs → get_or xs i 0 < word
Small-get [] i s = omega arith
Small-get (x ∷ xs) zero (s, ss) = s
Small-get (x ∷ xs) (suc i) (s, ss) = Small-get xs i ss

abbrev pub Sound : Window → Type 0
Sound w =
    (length w.buckets ≡ share_buckets)
    × (w.next < share_buckets)
    × Small w.buckets
    × (w.sum ≡ total w.buckets % word)

turn-Sound : (d : ℕ) (w : Window) → d < word → Sound w → Sound (turn d w)
unfolding turn
turn-Sound d w h (l, n, s, e) = (
  length-set w.buckets w.next d ∙ l,
  omega arith,
  Small-set w.buckets w.next d h s,
  ap (λ x. plus (minus x (get_or w.buckets w.next 0)) d) e
      ∙ wrap_lem (total w.buckets) (get_or w.buckets w.next 0) d (total (set w.buckets w.next d))
          (Small-get w.buckets w.next s) (total-set w.buckets w.next d (omega (arith, l))),
)

inside_or_last : (n : ℕ) → n < share_buckets → (suc n < share_buckets) ⊎ (suc n ≡ share_buckets)
inside_or_last n h = ground arith

turn-oldest_first :
    (d : ℕ) (w : Window) → Sound w → oldest_first (turn d w) ≡ drop 1 (oldest_first w) ++ d ∷ []
unfolding turn
turn-oldest_first d w (l, n, s, e) = elim (inside_or_last w.next n) [
  | inl h ↦
      ap (λ k. drop k (set w.buckets w.next d) ++ take k (set w.buckets w.next d)) {y = suc w.next}
        (omega arith)
      ∙ slide_inside w.buckets w.next d (omega (arith, l))
  | inr h ↦
      ap (λ k. drop k (set w.buckets w.next d) ++ take k (set w.buckets w.next d)) {y = 0}
        (omega arith)
      ∙ slide_last w.buckets w.next d (h ∙ sym l)
]

-- A sample in which the backend is seen with a cumulative count, or one in which it is not.
pub data Tick : Type 0 where
  reading : ℕ → Tick
  unseen : Tick

unfoldable pub ticks : List Tick → Window → Window
ticks [] w = w
ticks (Tick.reading n ∷ ts) w = ticks ts (push n w)
ticks (Tick.unseen ∷ ts) w = ticks ts (idle w)

-- What each sample adds, from the count before it.
unfoldable pub added : ℕ → List Tick → List ℕ
added last [] = []
added last (Tick.reading n ∷ ts) = delta_of last n ∷ added n ts
added last (Tick.unseen ∷ ts) = 0 ∷ added last ts

abbrev pub AllWords : List Tick → Type 0
AllWords [] = Unit {0}
AllWords (Tick.reading n ∷ ts) = (n < word) × AllWords ts
AllWords (Tick.unseen ∷ ts) = AllWords ts

delta_of-word : (last n : ℕ) → n < word → delta_of last n < word
unfolding delta_of
delta_of-word last n h = ground arith

drop-slide :
    (xs ds : List ℕ) (d : ℕ)
    → 0 < length xs
    → drop (length ds) ((drop 1 xs ++ d ∷ []) ++ ds) ≡ drop (suc (length ds)) (xs ++ d ∷ ds)
drop-slide [] ds d h = ground (arith, h)
drop-slide (x ∷ xs) ds d h = ap (drop (length ds)) (append_assoc xs (d ∷ []) ds)

oldest_first-length : (w : Window) → Sound w → 0 < length (oldest_first w)
oldest_first-length w (l, n, s, e) = rw (drop-get w.buckets w.next (omega (arith, l))) (omega arith)

-- The window holds what it held and what the samples added, less the oldest entries.
abbrev Slid : List Tick → List ℕ → List ℕ → Window → Type 0
Slid ts before ds w =
    Sound (ticks ts w) × (oldest_first (ticks ts w) ≡ drop (length ds) (before ++ ds))

Slid-turn :
    (ts : List Tick) (w : Window) (d : ℕ) (ds : List ℕ)
    → Sound w
    → Slid ts (oldest_first (turn d w)) ds (turn d w)
    → Slid ts (oldest_first w) (d ∷ ds) (turn d w)
Slid-turn ts w d ds s (sound, e) = (
  sound,
  e
      ∙ ap (λ x. drop (length ds) (x ++ ds)) (turn-oldest_first d w s)
      ∙ drop-slide (oldest_first w) ds d (oldest_first-length w s),
)

push-primed :
    (n : ℕ) (w : Window)
    → w.primed ≡ true
    → push n w ≡ turn (delta_of w.last n) (record w { missed = 0; last = n })
unfolding push
push-primed n w p = ground (arith, p)

turn-same : (d : ℕ) (w : Window) → ((turn d w).last ≡ w.last) × ((turn d w).primed ≡ w.primed)
unfolding turn
turn-same d w = (refl, refl)

ticks-Slid :
    (ts : List Tick) (w : Window)
    → Sound w
    → w.primed ≡ true
    → AllWords ts
    → Slid ts (oldest_first w) (added w.last ts) w
unfolding ticks added turn idle
ticks-Slid [] w s p a = (s, sym (append-nil (oldest_first w)))
ticks-Slid (Tick.reading n ∷ ts) w s p (h, a) =
    let w' = record w { missed = 0; last = n } in
    let d = delta_of w.last n in
    let step =
      Slid-turn ts w' d (added n ts) s
        (ticks-Slid ts (turn d w') (turn-Sound d w' (delta_of-word w.last n h) s) p a) in
    subst (λ x. Slid ts (oldest_first w) (d ∷ added n ts) x) (sym (push-primed n w p)) step
ticks-Slid (Tick.unseen ∷ ts) w s p a =
    let w' = record w { missed = w.missed + 1 } in
    Slid-turn ts w' 0 (added w.last ts) s
      (ticks-Slid ts (turn 0 w') (turn-Sound 0 w' (omega arith) s) p a)

Small-zeros : (n : ℕ) → Small (replicate n 0)
Small-zeros zero = tt
Small-zeros (suc n) = (omega arith, Small-zeros n)

total-turned : (n : ℕ) (xs : List ℕ) → total (drop n xs ++ take n xs) ≡ total xs
total-turned n xs = total-append (drop n xs) (take n xs) ∙ split n xs
  where
    split : (n : ℕ) (xs : List ℕ) → total (drop n xs) + total (take n xs) ≡ total xs
    split zero xs = omega arith
    split (suc n) [] = omega arith
    split (suc n) (x ∷ xs) = omega (arith, split n xs)

new_window-Sound : (n : ℕ) → Sound (record new_window { last = n; primed = true })
new_window-Sound n = (refl, omega arith, Small-zeros share_buckets, refl)

-- A window's sum is what the last thirty samples added, as a uint64. The first reading is only the
-- count to start from, and a count that falls counts as new traffic.
pub ticks-sum :
    (n : ℕ) (ts : List Tick)
    → AllWords ts
    → let ds = added n ts in
      (ticks (Tick.reading n ∷ ts) new_window).sum
      ≡ total (drop (length ds) (replicate share_buckets 0 ++ ds)) % word
unfolding ticks push
ticks-sum n ts a =
    let w = record new_window { last = n; primed = true } in
    let ((_, _, _, sum), e) = ticks-Slid ts w (new_window-Sound n) refl a in
    let end = ticks ts w in
    sum ∙ ap (λ x. x % word) (sym (total-turned end.next end.buckets) ∙ ap total e)
