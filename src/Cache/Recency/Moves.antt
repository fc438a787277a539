-- ===== src/Cache/Recency/Moves.antt =====
-- internal/cache/cache.go: `unlink`, `pushFront` and `moveToFront` on the list that the pointers
-- stand for.
use ponz_proxy.Prelude.{
  append-nil, ℕ, ◌≡◌, refl, sym, ap, subst, ◌∙◌, Bool, true, false, Option, none, some, List, [],
  ◌∷◌, ◌++◌, arith, ◌==◌, if◌then◌else◌,
}
use ponz_proxy.Cache.Recency.{
  Node, Store, Recency, write, set_next, set_prev, or_head, at_head, unlink, push_front,
  move_to_front,
}
use ponz_proxy.Cache.Recency.Chain.{
  first, last, Links, Absent, Unique, AbsentAt, write-Links, set_next-Links, set_prev-Links,
  set_next-last, set_prev-first, Links-split, Links-join,
}

-- The fields stand for the nodes `is`, from the head to the tail.
abbrev pub Lists : Recency → List ℕ → Type 0
Lists r is =
    Links r.store none is none × (r.head ≡ first is none) × (r.tail ≡ last is none) × Unique is

Absent-append : (i : ℕ) (xs ys : List ℕ) → Absent i (xs ++ ys) → Absent i xs × Absent i ys
Absent-append i [] ys a = (tt, a)
Absent-append i (x ∷ xs) ys (n, a) = let (b, c) = Absent-append i xs ys a in ((n, b), c)

Absent-join : (i : ℕ) (xs ys : List ℕ) → Absent i xs → Absent i ys → Absent i (xs ++ ys)
Absent-join i [] ys a b = b
Absent-join i (x ∷ xs) ys (n, a) b = (n, Absent-join i xs ys a b)

-- Without the node `i`.
Unique-without :
    (xs : List ℕ) (i : ℕ) (ys : List ℕ)
    → Unique (xs ++ i ∷ ys)
    → Unique (xs ++ ys) × Absent i xs × Absent i ys
Unique-without [] i ys (a, u) = (u, tt, a)
Unique-without (x ∷ xs) i ys (a, u) =
    let (v, b, c) = Unique-without xs i ys u in
    let (d, (n, e)) = Absent-append x xs (i ∷ ys) a in
    ((Absent-join x xs ys d e, v), (λ q. n (sym q), b), c)

Unique-parts : (xs ys : List ℕ) → Unique (xs ++ ys) → Unique xs × Unique ys
Unique-parts [] ys u = (tt, u)
Unique-parts (x ∷ xs) ys (a, u) =
    let (v, w) = Unique-parts xs ys u in (((Absent-append x xs ys a).0, v), w)

last-apart : (x : ℕ) (xs ys : List ℕ) → Unique (x ∷ xs ++ ys) → AbsentAt (last xs (some x)) ys
last-apart x [] ys (a, u) = a
last-apart x (y ∷ xs) ys (a, u) = last-apart y xs ys u

last-Absent : (xs ys : List ℕ) → Unique (xs ++ ys) → AbsentAt (last xs none) ys
last-Absent [] ys u = tt
last-Absent (x ∷ xs) ys u = last-apart x xs ys u

first-Absent : (xs ys : List ℕ) → Unique (xs ++ ys) → AbsentAt (first ys none) xs
first-Absent xs [] u = tt
first-Absent xs (y ∷ ys) u = (Unique-without xs y ys u).1

pub last-append :
    (xs : List ℕ) (y : ℕ) (ys : List ℕ) (d : Option ℕ) → last (xs ++ y ∷ ys) d ≡ last ys (some y)
last-append [] y ys d = refl
last-append (x ∷ xs) y ys d = last-append xs y ys (some x)

-- The nodes around an unlinked one point at each other.
unlink-Links :
    (s : Store) (xs ys : List ℕ) (i : ℕ) (n : Node)
    → Unique (xs ++ i ∷ ys)
    → Links s none (xs ++ i ∷ ys) none
    → let p = last xs none in
      let q = first ys none in
      ((s i).prev ≡ p)
      × ((s i).next ≡ q)
      × Links (write i n (set_prev q p (set_next p q s))) none (xs ++ ys) none
unlink-Links s xs ys i n u l =
    let (lx, (a, b, ly)) = Links-split s none none xs (i ∷ ys) l in
    let (v, ix, iy) = Unique-without xs i ys u in
    let (ux, uy) = Unique-parts xs ys v in
    let p = last xs none in
    let q = first ys none in
    let s1 = set_next p q s in
    let s2 = set_prev q p s1 in
    let x1 = set_next-last xs q s none (some i) ux lx in
    let y1 = set_next-Links p q s (some i) none ys (last-Absent xs ys v) ly in
    let x2 = set_prev-Links q p s1 none q xs (first-Absent xs ys v) x1 in
    let y2 = set_prev-first ys p s1 (some i) none uy y1 in
    (
      a,
      b,
      Links-join (write i n s2) none none xs ys (write-Links i n s2 none q xs ix x2)
          (write-Links i n s2 p none ys iy y2),
    )

last-some : (x : ℕ) (xs : List ℕ) → (k : ℕ) × (last xs (some x) ≡ some k)
last-some x [] = (x, refl)
last-some x (y ∷ xs) = last-some y xs

-- `unlink` takes exactly its node out of the list.
pub unlink-Lists :
    (xs : List ℕ) (i : ℕ) (ys : List ℕ) (r : Recency)
    → Lists r (xs ++ i ∷ ys)
    → Lists (unlink i r) (xs ++ ys)
unfolding unlink
unlink-Lists xs i ys r (l, h, t, u) =
    let (a, b, links) = unlink-Links r.store xs ys i (record { prev = none; next = none }) u l in
    rw (a, b) (links, head xs h, tail ys t, (Unique-without xs i ys u).0)
  where
    head :
        (xs : List ℕ)
        → r.head ≡ first (xs ++ i ∷ ys) none
        → or_head (last xs none) (first ys none) r.head ≡ first (xs ++ ys) none
    head [] h = refl
    head (x ∷ xs) h = let (k, e) = last-some x xs in rw e h

    tail :
        (ys : List ℕ)
        → r.tail ≡ last (xs ++ i ∷ ys) none
        → or_head (first ys none) (last xs none) r.tail ≡ last (xs ++ ys) none
    tail [] t = ap (λ z. last z none) (sym (append-nil xs))
    tail (y ∷ ys) t = t ∙ last-append xs i (y ∷ ys) none ∙ sym (last-append xs y ys none)

-- The node that is put first.
front :
    (i : ℕ) (is : List ℕ) (s : Store)
    → Absent i is
    → set_prev (first is none) (some i) (write i (record { prev = none; next = first is none }) s) i
      ≡ record { prev = none; next = first is none }
unfolding set_prev
front i [] s a = ground arith
front i (j ∷ js) s (a, _) = ground (arith, a)

front-Links :
    (i : ℕ) (is : List ℕ) (s : Store)
    → Absent i is
    → Unique is
    → Links s none is none
    → Links
        (set_prev
          (first is none)
          (some i)
          (write i (record { prev = none; next = first is none }) s))
        none
        (i ∷ is)
        none
front-Links i is s a u l =
    let n : Node = record { prev = none; next = first is none } in
    let e = front i is s a in
    (
      ap (λ z. z.prev) e,
      ap (λ z. z.next) e,
      set_prev-first is (some i) (write i n s) none none u (write-Links i n s none none is a l),
    )

front-tail :
    (i : ℕ) (is : List ℕ)
    → (elim (last is none) [ none ↦ some i | some t ↦ some t ]) ≡ last is (some i)
front-tail i [] = refl
front-tail i (j ∷ js) = let (k, e) = last-some j js in rw e refl

-- `pushFront` puts a node that is not in the list before all others.
pub push_front-Lists :
    (i : ℕ) (is : List ℕ) (r : Recency) → Absent i is → Lists r is → Lists (push_front i r) (i ∷ is)
unfolding push_front
push_front-Lists i is r a (l, h, t, u) = (
  subst
      (λ o.
        Links (set_prev o (some i) (write i (record { prev = none; next = o }) r.store)) none
          (i ∷ is) none)
      (sym h) (front-Links i is r.store a u l),
  refl,
  ap or_self t ∙ front-tail i is,
  (a, u),
)
  where
    or_self : Option ℕ → Option ℕ
    or_self o = elim o [ none ↦ some i | some t ↦ some t ]

moved :
    (i : ℕ) (r : Recency) (b : Bool)
    → at_head i r.head ≡ b
    → move_to_front i r ≡ (if b then r else push_front i (unlink i r))
unfolding move_to_front
moved i r b e = ap (λ x. if x then r else push_front i (unlink i r)) e

-- `moveToFront` puts a node of the list before all others and keeps the order of those.
pub move_to_front-Lists :
    (xs : List ℕ) (i : ℕ) (ys : List ℕ) (r : Recency)
    → Lists r (xs ++ i ∷ ys)
    → Lists (move_to_front i r) (i ∷ xs ++ ys)
move_to_front-Lists [] i ys r (l, h, t, u) =
    subst (λ z. Lists z (i ∷ ys)) (sym (moved i r true (ap (at_head i) h ∙ here))) (l, h, t, u)
  where
    here : (i == i) ≡ true
    here = ground arith
move_to_front-Lists (x ∷ xs) i ys r (l, h, t, u) =
    subst (λ z. Lists z (i ∷ x ∷ xs ++ ys)) (sym (moved i r false (ap (at_head i) h ∙ there)))
      (push_front-Lists i (x ∷ xs ++ ys) (unlink i r) (Absent-join i (x ∷ xs) ys apart.1 apart.2)
        (unlink-Lists (x ∷ xs) i ys r (l, h, t, u)))
  where
    apart : Unique (x ∷ xs ++ ys) × Absent i (x ∷ xs) × Absent i ys
    apart = Unique-without (x ∷ xs) i ys u

    there : (x == i) ≡ false
    there = ground (arith, apart.1.0)
