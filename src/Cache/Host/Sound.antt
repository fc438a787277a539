-- ===== src/Cache/Host/Sound.antt =====
-- internal/cache/cache.go, `HostCache`: what holds of a host's cache between any two calls.
use ponz_proxy.Prelude.{
  ℕ, ◌+◌, ◌≤◌, ◌≡◌, refl, sym, ap, subst, ◌∙◌, inl, inr, true, false, none, some, List, ◌∷◌, ◌++◌,
  arith, length, Bool-cases, Option-cases, length-append,
}
use ponz_proxy.Cache.Key.{Key, find}
use ponz_proxy.Cache.Entry.{fresh}
use ponz_proxy.Cache.Recency.{move_to_front}
use ponz_proxy.Cache.Recency.Moves.{Lists, unlink-Lists, move_to_front-Lists}
use ponz_proxy.Cache.Host.{HostCache, remove, look_up}
use ponz_proxy.Cache.Host.Filed.{remove-Filed, elem, elem-split, elem-append}
use ponz_proxy.Cache.Host.Eviction.{weight, Accounted, weight-append}

-- The pointers stand for some list of nodes, no longer than ever allocated; the map has exactly
-- these nodes, and their sizes are accounted for.
abbrev pub Sound : HostCache → Type 0
Sound h = (is : List ℕ) × Accounted h is × (length is ≤ h.allocated)

weight-remove : (i : ℕ) (h : HostCache) (is : List ℕ) → weight (remove i h) is ≡ weight h is
unfolding remove
weight-remove i h is = refl

pub remove-Accounted :
    (xs : List ℕ) (i : ℕ) (ys : List ℕ) (h : HostCache)
    → Accounted h (xs ++ i ∷ ys)
    → Accounted (remove i h) (xs ++ ys)
unfolding remove
remove-Accounted xs i ys h (l, b, f) = (
  unlink-Lists xs i ys h.recency l,
  omega
      (arith, b, weight-append h xs (i ∷ ys), weight-append h xs ys, weight-remove i h (xs ++ ys)),
  remove-Filed xs i ys h l.3 f,
)

-- A node that the map has can be removed.
pub remove-Sound :
    (k : Key) (i : ℕ) (h : HostCache) → find k h.items ≡ some i → Sound h → Sound (remove i h)
unfolding remove
remove-Sound k i h e (is, a, n) =
    let (xs, ys, split) = elem-split i is (a.2.0 k i e).1 in
    (
      xs ++ ys,
      remove-Accounted xs i ys h (subst (Accounted h) split a),
      omega (arith, n, ap length split, length-append xs (i ∷ ys), length-append xs ys),
    )

elem-move :
    (xs : List ℕ) (i : ℕ) (ys : List ℕ) (j : ℕ) → elem j (i ∷ xs ++ ys) ≡ elem j (xs ++ i ∷ ys)
elem-move xs i ys j = ground (arith, elem-append j xs (i ∷ ys), elem-append j xs ys)

moved-Sound :
    (k : Key) (i : ℕ) (h : HostCache)
    → find k h.items ≡ some i
    → Sound h
    → Sound (record h { recency = move_to_front i h.recency; hits = h.hits + 1 })
moved-Sound k i h e (is, (l, b, (by_key, by_node, d)), n) =
    let (xs, ys, split) = elem-split i is (by_key k i e).1 in
    (
      i ∷ xs ++ ys,
      (
        move_to_front-Lists xs i ys h.recency (subst (Lists h.recency) split l),
        omega (arith, b, ap (weight h) split, weight-append h xs (i ∷ ys), weight-append h xs ys),
        (
          (λ j m f.
              ((by_key j m f).0, elem-move xs i ys m ∙ ap (elem m) (sym split) ∙ (by_key j m f).1)),
          (λ m f. by_node m (ap (elem m) split ∙ sym (elem-move xs i ys m) ∙ f)),
          d,
        ),
      ),
      omega (arith, n, ap length split, length-append xs (i ∷ ys), length-append xs ys),
    )

-- The three ways that a lookup goes.
pub look_up-missing :
    (k : Key) (now : ℕ) (h : HostCache)
    → find k h.items ≡ none
    → look_up k now h ≡ (record h { misses = h.misses + 1 }, none)
unfolding look_up
look_up-missing k now h e = rw (look_up, e) refl

pub look_up-stale :
    (k : Key) (now i : ℕ) (h : HostCache)
    → find k h.items ≡ some i
    → fresh now (h.payload i).1 ≡ false
    → look_up k now h ≡ (
      record (remove i h) { expired = (remove i h).expired + 1; misses = (remove i h).misses + 1 },
      none,
    )
unfolding look_up
look_up-stale k now i h e f = rw (look_up, e, f) refl

pub look_up-fresh :
    (k : Key) (now i : ℕ) (h : HostCache)
    → find k h.items ≡ some i
    → fresh now (h.payload i).1 ≡ true
    → look_up k now h
      ≡ (record h { recency = move_to_front i h.recency; hits = h.hits + 1 }, some (h.payload i).1)
unfolding look_up
look_up-fresh k now i h e f = rw (look_up, e, f) refl

-- A lookup keeps the cache sound.
pub look_up-Sound : (k : Key) (now : ℕ) (h : HostCache) → Sound h → Sound (look_up k now h).0
look_up-Sound k now h s = elim (Option-cases (find k h.items)) [
  | inl e ↦ subst (λ z. Sound z.0) (sym (look_up-missing k now h e)) s
  | inr (i, e) ↦ elim (Bool-cases (fresh now (h.payload i).1)) [
    | inl f ↦ subst (λ z. Sound z.0) (sym (look_up-fresh k now i h e f)) (moved-Sound k i h e s)
    | inr f ↦ subst (λ z. Sound z.0) (sym (look_up-stale k now i h e f)) (remove-Sound k i h e s)
  ]
]
