-- ===== src/Balancer/Selector/Rotation.antt =====
-- internal/balancer/selector.go, `roundRobin`: consecutive requests over unchanging candidates.
use Prim.Native.Nat.add
use ponz_proxy.Prelude.{
  ℕ, zero, suc, ◌+◌, ◌-◌, ◌%◌, ◌^◌, ◌≤◌, ◌<◌, ◌≡◌, refl, ap, subst, Option, none, some, List, [],
  ◌∷◌, ◌++◌, arith, inl, inr, Option-cases, length, get_elem?, take, drop, length-drop,
}
use ponz_proxy.Balancer.Backend.{Backend}
use ponz_proxy.Balancer.Selector.Candidates.{positions}
use ponz_proxy.Balancer.Selector.{Candidate, rotate}

-- The positions chosen for `m` requests in a row, and the counter after them.
pub rotations : ℕ → ℕ → List Candidate → Option (List ℕ × ℕ)
rotations zero counter cs = some ([], counter)
rotations (suc m) counter cs = elim (rotate counter cs) [
  | none ↦ none
  | some (i, counter') ↦ elim (rotations m counter' cs) [
    | none ↦ none
    | some (is, last) ↦ some (i ∷ is, last)
  ]
]

get_elem?-drop :
    (cs : List Candidate) (r : ℕ)
    → r < length cs
    → (i : ℕ) × (b : Backend) × (get_elem? cs r ≡ some (i, b))
      × (drop r (positions cs) ≡ i ∷ drop (suc r) (positions cs))
get_elem?-drop [] r h = elim h [ ]
get_elem?-drop ((i, b) ∷ cs) zero h = (i, b, refl, refl)
get_elem?-drop ((i, b) ∷ cs) (suc r) h = get_elem?-drop cs r (omega arith)

rotate_at :
    (cs : List Candidate) (counter r : ℕ)
    → counter % length cs ≡ r
    → r < length cs
    → counter + 1 < 2 ^ 64
    → (i : ℕ) × (rotate counter cs ≡ some (i, counter + 1))
      × (drop r (positions cs) ≡ i ∷ drop (suc r) (positions cs))
unfolding rotate
rotate_at cs counter r e h w = let (i, b, g, d) = get_elem?-drop cs r h in (i, ground arith, d)

mod_step : (n c r : ℕ) → c % n ≡ r → r + 1 < n → (c + 1) % n ≡ r + 1
mod_step n c r e h = grind arith

mod_wrap : (n c r : ℕ) → 0 < n → c % n ≡ r → r + 1 ≡ n → (c + 1) % n ≡ 0
mod_wrap n c r p e h = grind arith

-- Within one lap the choices are the positions in order.
rotations_segment :
    (m : ℕ) (cs : List Candidate) (counter r : ℕ)
    → counter % length cs ≡ r
    → r + m ≤ length cs
    → counter + m < 2 ^ 64
    → rotations m counter cs ≡ some (take m (drop r (positions cs)), counter + m)
unfolding rotations
rotations_segment zero cs counter r e h w = ground arith
rotations_segment (suc zero) cs counter r e h w =
    let (i, f, d) = rotate_at cs counter r e (omega arith) (omega arith) in ground arith
rotations_segment (suc (suc m)) cs counter r e h w =
    let (i, f, d) = rotate_at cs counter r e (omega arith) (omega arith) in
    ground (
      arith,
      mod_step (length cs) counter r e (omega arith),
      rotations_segment (suc m) cs (counter + 1) (suc r),
    )

rotations-add :
    (m k : ℕ) (cs : List Candidate) (counter : ℕ) {is js : List ℕ} {c d : ℕ}
    → rotations m counter cs ≡ some (is, c)
    → rotations k c cs ≡ some (js, d)
    → rotations (m + k) counter cs ≡ some (is ++ js, d)
unfolding rotations
rotations-add zero k cs counter {is} {js} {c} {d} e f = rw add.zero (cc)
rotations-add (suc m) k cs counter {is} {js} {c} {d} e f =
    rw add.suc (elim (Option-cases (rotate counter cs)) [
      | inl g ↦ absurd (ground arith)
      | inr ((i, c'), g) ↦ elim (Option-cases (rotations m c' cs)) [
        | inl g' ↦ absurd (ground arith)
        | inr ((is', c''), g') ↦
            ground (arith, rotations-add m k cs c' {is = is'} {js = js} {c = c''} {d = d})
      ]
    ])

length-positions : (cs : List Candidate) → length (positions cs) ≡ length cs
length-positions [] = refl
length-positions ((i, b) ∷ cs) = ap suc (length-positions cs)

take_all : (n : ℕ) (xs : List ℕ) → length xs ≤ n → take n xs ≡ xs
take_all zero [] h = refl
take_all zero (x ∷ xs) h = absurd (omega arith)
take_all (suc n) [] h = refl
take_all (suc n) (x ∷ xs) h = ap (◌∷◌ x) (take_all n xs (omega arith))

lap_end : (n c : ℕ) → 0 < n → (c + (n - c % n)) % n ≡ 0
lap_end n c p = grind arith

-- Short of the counter's wrap, `roundRobin` serves any `n` requests in a row over the same `n`
-- candidates by a rotation of the candidate list: each candidate exactly once, in order, from
-- where the counter stands.
pub rotations_lap :
    (cs : List Candidate) (counter : ℕ)
    → 0 < length cs
    → counter + length cs < 2 ^ 64
    → let r = counter % length cs in
      rotations (length cs) counter cs
      ≡ some (drop r (positions cs) ++ take r (positions cs), counter + length cs)
rotations_lap cs counter p w =
    subst (λ k. rotations k counter cs ≡ some (drop r ps ++ take r ps, counter + n)) (omega arith)
      (subst (λ xs. rotations (n - r + r) counter cs ≡ some (xs ++ take r ps, counter + n))
        (take_all (n - r) (drop r ps) (omega (arith, length-drop r ps, length-positions cs)))
        (subst
          (λ d. rotations (n - r + r) counter cs ≡ some (take (n - r) (drop r ps) ++ take r ps, d))
          (omega arith)
          (rotations-add (n - r) r cs counter
            (rotations_segment (n - r) cs counter r refl (omega arith) (omega arith))
            (rotations_segment r cs (counter + (n - r)) 0 (lap_end n counter p) (omega arith)
              (omega arith)))))
  where
    n : ℕ
    n = length cs

    r : ℕ
    r = counter % n

    ps : List ℕ
    ps = positions cs
