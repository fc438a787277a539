-- ===== src/Cache/Recency/Chain.antt =====
-- internal/cache/cache.go: which lists of nodes the pointers stand for.
use ponz_proxy.Prelude.{
  ℕ, ◌≡◌, ◌≢◌, refl, sym, ap, ◌∙◌, Option, none, some, List, [], ◌∷◌, ◌++◌, arith,
}
use ponz_proxy.Cache.Recency.{Node, Store, write, set_next, set_prev}

abbrev pub first : List ℕ → Option ℕ → Option ℕ
first [] d = d
first (i ∷ is) d = some i

abbrev pub last : List ℕ → Option ℕ → Option ℕ
last [] d = d
last (i ∷ is) d = last is (some i)

-- The nodes of a stretch of the list point at each other, its ends at `prev` and `next`.
abbrev pub Links : Store → Option ℕ → List ℕ → Option ℕ → Type 0
Links s prev [] next = Unit {0}
Links s prev (i ∷ is) next =
    ((s i).prev ≡ prev) × ((s i).next ≡ first is next) × Links s (some i) is next

abbrev pub Absent : ℕ → List ℕ → Type 0
Absent i [] = Unit {0}
Absent i (j ∷ js) = (i ≢ j) × Absent i js

abbrev pub Unique : List ℕ → Type 0
Unique [] = Unit {0}
Unique (i ∷ is) = Absent i is × Unique is

abbrev pub AbsentAt : Option ℕ → List ℕ → Type 0
AbsentAt none is = Unit {0}
AbsentAt (some i) is = Absent i is

pub write-Links :
    (i : ℕ) (n : Node) (s : Store) (prev next : Option ℕ) (is : List ℕ)
    → Absent i is
    → Links s prev is next
    → Links (write i n s) prev is next
write-Links i n s prev next [] a l = tt
write-Links i n s prev next (j ∷ js) (a, bs) (p, q, l) =
    (ground (arith, a, p), ground (arith, a, q), write-Links i n s (some j) next js bs l)

pub set_next-Links :
    (o v : Option ℕ) (s : Store) (prev next : Option ℕ) (is : List ℕ)
    → AbsentAt o is
    → Links s prev is next
    → Links (set_next o v s) prev is next
unfolding set_next
set_next-Links none v s prev next is a l = l
set_next-Links (some i) v s prev next is a l =
    write-Links i (record (s i) { next = v }) s prev next is a l

pub set_prev-Links :
    (o v : Option ℕ) (s : Store) (prev next : Option ℕ) (is : List ℕ)
    → AbsentAt o is
    → Links s prev is next
    → Links (set_prev o v s) prev is next
unfolding set_prev
set_prev-Links none v s prev next is a l = l
set_prev-Links (some i) v s prev next is a l =
    write-Links i (record (s i) { prev = v }) s prev next is a l

set_next-other :
    (i j : ℕ) (js : List ℕ) (v : Option ℕ) (s : Store)
    → Absent i (j ∷ js)
    → set_next (last js (some j)) v s i ≡ s i
unfolding set_next
set_next-other i j [] v s (a, _) = ground (arith, a)
set_next-other i j (k ∷ ks) v s (_, a) = set_next-other i k ks v s a

set_next-cons :
    (i : ℕ) (is : List ℕ) (v : Option ℕ) (s : Store) (prev next : Option ℕ)
    → Unique (i ∷ is)
    → Links s prev (i ∷ is) next
    → Links (set_next (last is (some i)) v s) prev (i ∷ is) v
unfolding set_next
set_next-cons i [] v s prev next u (p, q, l) = (ground (arith, p), ground arith, tt)
set_next-cons i (j ∷ js) v s prev next (a, u) (p, q, l) =
    let e = set_next-other i j js v s a in
    (ap (λ n. n.prev) e ∙ p, ap (λ n. n.next) e ∙ q, set_next-cons j js v s (some i) next u l)

-- The end of a stretch is redirected.
pub set_next-last :
    (is : List ℕ) (v : Option ℕ) (s : Store) (prev next : Option ℕ)
    → Unique is
    → Links s prev is next
    → Links (set_next (last is none) v s) prev is v
set_next-last [] v s prev next u l = tt
set_next-last (i ∷ is) v s prev next u l = set_next-cons i is v s prev next u l

-- The start of a stretch is redirected.
pub set_prev-first :
    (is : List ℕ) (v : Option ℕ) (s : Store) (prev next : Option ℕ)
    → Unique is
    → Links s prev is next
    → Links (set_prev (first is none) v s) v is next
unfolding set_prev
set_prev-first [] v s prev next u l = tt
set_prev-first (i ∷ is) v s prev next (a, u) (p, q, l) = (
  ground arith,
  ground (arith, q),
  write-Links i (record (s i) { prev = v }) s (some i) next is a l,
)

first-append : (xs ys : List ℕ) (d : Option ℕ) → first (xs ++ ys) d ≡ first xs (first ys d)
first-append [] ys d = refl
first-append (x ∷ xs) ys d = refl

pub Links-split :
    (s : Store) (prev next : Option ℕ) (xs ys : List ℕ)
    → Links s prev (xs ++ ys) next
    → Links s prev xs (first ys next) × Links s (last xs prev) ys next
Links-split s prev next [] ys l = (tt, l)
Links-split s prev next (x ∷ xs) ys (p, q, l) =
    let (a, b) = Links-split s (some x) next xs ys l in ((p, q ∙ first-append xs ys next, a), b)

pub Links-join :
    (s : Store) (prev next : Option ℕ) (xs ys : List ℕ)
    → Links s prev xs (first ys next)
    → Links s (last xs prev) ys next
    → Links s prev (xs ++ ys) next
Links-join s prev next [] ys a b = b
Links-join s prev next (x ∷ xs) ys (p, q, l) b =
    (p, q ∙ sym (first-append xs ys next), Links-join s (some x) next xs ys l b)
