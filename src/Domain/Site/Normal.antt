-- ===== src/Domain/Site/Normal.antt =====
-- internal/domain/host.go: what `Normalize` leaves.
use ponz_proxy.Prelude.{
  ℕ, suc, ◌*◌, ◌≤◌, ◌<◌, ◌≡◌, refl, ap, ◌∙◌, Bool, true, false, List, [], ◌∷◌, arith, ltb,
  if◌then◌else◌, length,
}
use ponz_proxy.Prelude.Text.{Text}
use ponz_proxy.Cache.Setting.{second}
use ponz_proxy.Domain.Site.{
  SiteLocation, Site, normalize_timeout, normalize_health, insert_location, sort_locations,
  normalize_location, normalize_locations, normalize_site, positive_or,
}

abbrev pub NoneLonger : ℕ → List SiteLocation → Type 0
NoneLonger n [] = Unit {0}
NoneLonger n (k ∷ ks) = (length k.route.path ≤ n) × NoneLonger n ks

-- The longest path first, so that the first location that claims a path has the longest.
abbrev pub LongestFirst : List SiteLocation → Type 0
LongestFirst [] = Unit {0}
LongestFirst (l ∷ ls) = NoneLonger (length l.route.path) ls × LongestFirst ls

NoneLonger-trans : (m n : ℕ) (ls : List SiteLocation) → m ≤ n → NoneLonger m ls → NoneLonger n ls
NoneLonger-trans m n [] h a = tt
NoneLonger-trans m n (k ∷ ks) h (a, b) = (omega (arith, h, a), NoneLonger-trans m n ks h b)

insert-NoneLonger :
    (n : ℕ) (l : SiteLocation) (ls : List SiteLocation)
    → length l.route.path ≤ n
    → NoneLonger n ls
    → NoneLonger n (insert_location l ls)
unfolding insert_location
insert-NoneLonger n l [] h a = (h, tt)
insert-NoneLonger n l (k ∷ ks) h (a, b) =
    go (ltb (length l.route.path) (length k.route.path)) (insert-NoneLonger n l ks h b)
  where
    go :
        (c : Bool)
        → NoneLonger n (insert_location l ks)
        → NoneLonger n (if c then k ∷ insert_location l ks else l ∷ k ∷ ks)
    go true rest = (a, rest)
    go false rest = (h, (a, b))

insert-LongestFirst :
    (l : SiteLocation) (ls : List SiteLocation)
    → LongestFirst ls
    → LongestFirst (insert_location l ls)
unfolding insert_location
insert-LongestFirst l [] s = (tt, tt)
insert-LongestFirst l (k ∷ ks) (a, s) =
    go (ltb (length l.route.path) (length k.route.path)) (λ h. ground (arith, h))
      (λ h. ground (arith, h)) (insert-LongestFirst l ks s)
  where
    m : ℕ
    m = length l.route.path

    n : ℕ
    n = length k.route.path

    go :
        (c : Bool)
        → (c ≡ true → m ≤ n)
        → (c ≡ false → n ≤ m)
        → LongestFirst (insert_location l ks)
        → LongestFirst (if c then k ∷ insert_location l ks else l ∷ k ∷ ks)
    go true shorter longer rest = (insert-NoneLonger n l ks (shorter refl) a, rest)
    go false shorter longer rest = ((longer refl, NoneLonger-trans n m ks (longer refl) a), (a, s))

sort-LongestFirst : (ls : List SiteLocation) → LongestFirst (sort_locations ls)
unfolding sort_locations
sort-LongestFirst [] = tt
sort-LongestFirst (l ∷ ls) = insert-LongestFirst l (sort_locations ls) (sort-LongestFirst ls)

length-insert_location :
    (l : SiteLocation) (ls : List SiteLocation) → length (insert_location l ls) ≡ suc (length ls)
unfolding insert_location
length-insert_location l [] = refl
length-insert_location l (k ∷ ks) = ground (arith, length-insert_location l ks)

module _ (canonical : Text → Text) where
  length-normalized :
      (i : ℕ) (ls : List SiteLocation)
      → length (sort_locations (normalize_locations canonical i ls)) ≡ length ls
  unfolding sort_locations normalize_locations
  length-normalized i [] = refl
  length-normalized i (l ∷ ls) =
      length-insert_location (normalize_location canonical i l)
        (sort_locations (normalize_locations canonical (suc i) ls))
      ∙ ap suc (length-normalized (suc i) ls)

  timeout-range :
      (timeout interval : ℕ)
      → 0 < interval
      → (0 < normalize_timeout timeout interval) × (normalize_timeout timeout interval ≤ interval)
  unfolding normalize_timeout
  timeout-range timeout interval h = ground (arith, h)

  -- A normalised host has all its locations, those with the longest paths first, and its health
  -- checks have a timeout that ends within their interval.
  pub normalize_site-LongestFirst :
      (h : Site)
      → let n = normalize_site canonical h in
        LongestFirst n.locations
        × (length n.locations ≡ length h.locations)
        × (0 < n.health_check.timeout)
        × (n.health_check.timeout ≤ n.health_check.interval)
  unfolding normalize_site normalize_health
  normalize_site-LongestFirst h =
      let (a, b) =
        timeout-range h.health_check.timeout (positive_or h.health_check.interval (10 * second))
          (ground arith) in
      (
        sort-LongestFirst (normalize_locations canonical 0 h.locations),
        length-normalized 0 h.locations,
        a,
        b,
      )
