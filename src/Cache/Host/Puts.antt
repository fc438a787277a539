-- ===== src/Cache/Host/Puts.antt =====
-- internal/cache/cache.go, `Put`: a stored entry is found again, and nothing else appears.
use ponz_proxy.Prelude.{
  ℕ, zero, suc, ◌+◌, ◌≤◌, ◌≡◌, ◌≢◌, refl, sym, ap, subst, ◌∙◌, inl, inr, Bool, true, false, Option,
  none, some, List, [], ◌∷◌, ◌++◌, arith, ltb, ◌==◌, if◌then◌else◌, length, length-append,
  Option-cases,
}
use ponz_proxy.Cache.Key.{Key, key_eq, key_eq_iff, find, find-delete, find-insert}
use ponz_proxy.Cache.Entry.{Entry}
use ponz_proxy.Cache.Host.{HostCache, remove, evict, drop_old, add, put}
use ponz_proxy.Cache.Host.Filed.{elem}
use ponz_proxy.Cache.Host.Eviction.{weight, Accounted, Evicts, Needed, evict-Evicts}
use ponz_proxy.Cache.Host.Sound.{Sound}
use ponz_proxy.Cache.Host.Stored.{held, drop_old-Without, add-Accounted}

-- What an eviction leaves as it was.
abbrev Frame : HostCache → HostCache → Type 0
Frame h r =
    (r.payload ≡ h.payload)
    × (r.budget ≡ h.budget)
    × (r.allocated ≡ h.allocated)
    × ((k : Key) (i : ℕ) → find k r.items ≡ some i → find k h.items ≡ some i)

remove-Frame :
    (i n : ℕ) (h r : HostCache) → Frame (record (remove i h) { evictions = n }) r → Frame h r
unfolding remove
remove-Frame i n h r (p, b, a, f) =
    (p, b, a, (λ k j e. grind (arith, find-delete k (h.payload i).0 h.items, f k j e)))

evict-Frame : (n : ℕ) (h : HostCache) → Frame h (evict n h)
unfolding evict
evict-Frame zero h = (refl, refl, refl, (λ k i e. e))
evict-Frame (suc n) h =
    go h.recency.tail (ltb h.budget h.bytes)
      (λ i. evict-Frame n (record (remove i h) { evictions = (remove i h).evictions + 1 }))
  where
    go :
        (o : Option ℕ) (b : Bool)
        → ((i : ℕ)
            → let r = record (remove i h) { evictions = (remove i h).evictions + 1 } in
              Frame r (evict n r))
        → Frame h (elim o [
          | none ↦ h
          | some i ↦
              let r = remove i h in
              let rest = evict n (record r { evictions = r.evictions + 1 }) in if b then rest else h
        ])
    go none b rest = (refl, refl, refl, (λ k i e. e))
    go (some i) false rest = (refl, refl, refl, (λ k i e. e))
    go (some i) true rest =
        let m = (remove i h).evictions + 1 in
        remove-Frame i m h (evict n (record (remove i h) { evictions = m })) (rest i)

pub put-refused : (k : Key) (e : Entry) (h : HostCache) → ltb h.budget e.size ≡ true → put k e h ≡ h
unfolding put
put-refused k e h b = rw b refl

pub put-kept :
    (k : Key) (e : Entry) (h : HostCache)
    → ltb h.budget e.size ≡ false
    → let added = add k e (drop_old k h) in put k e h ≡ evict added.allocated added
unfolding put
put-kept k e h b = rw b refl

-- Where the new node has its place in the list, it is not evicted.
first-kept :
    (a : HostCache) (i : ℕ) (is : List ℕ)
    → weight a (i ∷ []) ≤ a.budget
    → (kept gone : List ℕ) → i ∷ is ≡ kept ++ gone
    → Needed a kept gone
    → elem i kept ≡ true
first-kept a i is fits [] gone split (inl none_gone) = ground (arith, split, none_gone)
first-kept a i is fits [] gone split (inr (j, rest, e, over)) = ground (arith, split, e, over, fits)
first-kept a i is fits (k ∷ kept) gone split need = ground (arith, split)

-- After `Put` of an entry within the budget: the cache is sound and within its budget, has the
-- entry, and has nothing under another key that it did not have before.
abbrev pub Stores : Key → Entry → HostCache → HostCache → Type 0
Stores k e h r =
    Sound r
    × (r.bytes ≤ h.budget)
    × (r.budget ≡ h.budget)
    × (held k r ≡ some e)
    × ((j : Key) (d : Entry) → j ≢ k → held j r ≡ some d → held j h ≡ some d)

pub held-some :
    (k : Key) (i : ℕ) (h : HostCache) → find k h.items ≡ some i → held k h ≡ some (h.payload i).1
unfolding held
held-some k i h e = rw (held, e) refl

pub held-none : (k : Key) (h : HostCache) → find k h.items ≡ none → held k h ≡ none
unfolding held
held-none k h e = rw (held, e) refl

-- An entry that is there after the eviction was there before, or is the new one.
held-before :
    (k : Key) (e : Entry) (h g r : HostCache) (is : List ℕ) (j : Key) (d : Entry)
    → Accounted g is
    → ((j : Key) → find j g.items ≡ (if key_eq j k then none else find j h.items))
    → g.payload ≡ h.payload
    → Frame (add k e g) r
    → j ≢ k
    → held j r ≡ some d
    → held j h ≡ some d
unfolding add
held-before k e h g r is j d (_, _, (by_key, by_node, _)) items payload (p, _, _, back) ne there =
    elim (Option-cases (find j r.items)) [
      | inl missing ↦ ground (arith, held-none j r missing, there)
      | inr (i, f) ↦
          let in_g : find j g.items ≡ some i =
            grind (arith, key_eq_iff j k, back j i f, find-insert j k g.allocated g.items, ne) in
          let in_h : find j h.items ≡ some i = grind (arith, key_eq_iff j k, items j, in_g, ne) in
          let old : (i == g.allocated) ≡ false =
            ground (arith, (by_node i (by_key j i in_g).1).1) in
          let at_r : r.payload i ≡ h.payload i =
            ap (λ z. z i) p
            ∙ ap (λ b. if b then (k, e) else g.payload i) old
            ∙ ap (λ z. z i) payload in
          held-some j i h in_h ∙ ap (λ z. some z.1) (sym at_r) ∙ sym (held-some j i r f) ∙ there
    ]

evicted-Stores :
    (k : Key) (e : Entry) (h g r : HostCache) (is : List ℕ)
    → e.size ≤ h.budget
    → Accounted g is
    → length is ≤ g.allocated
    → ((j : Key) → find j g.items ≡ (if key_eq j k then none else find j h.items))
    → g.payload ≡ h.payload
    → g.budget ≡ h.budget
    → Frame (add k e g) r
    → Evicts (add k e g) (g.allocated ∷ is) r
    → Stores k e h r
unfolding add
evicted-Stores k e h g r is fits acc few items payload budget frame
      (kept, gone, split, racc, within, need) =
    let new_there =
      first-kept (add k e g) g.allocated is (ground (arith, fits, budget)) kept gone split need in
    let at_new : r.payload g.allocated ≡ (k, e) = ap (λ z. z g.allocated) frame.0 ∙ ground arith in
    let found : find k r.items ≡ some g.allocated =
      subst (λ z. find z.0 r.items ≡ some g.allocated) at_new (racc.2.1 g.allocated new_there).0 in
    (
      (kept, racc, omega (arith, few, ap length split, length-append kept gone, frame.2)),
      omega (arith, within, budget),
      frame.1 ∙ budget,
      held-some k g.allocated r found ∙ ap (λ z. some z.1) at_new,
      (λ j d. held-before k e h g r is j d acc items payload frame),
    )

enough :
    (k : Key) (e : Entry) (g : HostCache) (is : List ℕ)
    → length is ≤ g.allocated
    → length (g.allocated ∷ is) ≤ (add k e g).allocated
unfolding add
enough k e g is few = omega (arith, few)

pub put-Stores :
    (k : Key) (e : Entry) (h : HostCache) → e.size ≤ h.budget → Sound h → Stores k e h (put k e h)
put-Stores k e h fits s =
    let g = drop_old k h in
    let ((is, acc, few), items, payload, budget) = drop_old-Without k h s in
    let a = add k e g in
    subst (Stores k e h) (sym (put-kept k e h (ground (arith, fits)))) (
      evicted-Stores k e h g (evict a.allocated a) is fits acc few items payload budget
        (evict-Frame a.allocated a)
        (evict-Evicts a.allocated a (g.allocated ∷ is) (enough k e g is few)
          (add-Accounted k e g is (absent items) acc)))
  where
    absent :
        ((j : Key) → find j (drop_old k h).items ≡ (if key_eq j k then none else find j h.items))
        → find k (drop_old k h).items ≡ none
    absent items = grind (arith, items k, key_eq_iff k k)
