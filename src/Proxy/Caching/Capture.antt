-- ===== src/Proxy/Caching/Capture.antt =====
-- internal/proxy/cache.go, `captureWriter`: what a body that arrives in pieces comes to.
use ponz_proxy.Prelude.{
  append-nil, ℕ, ◌<◌, ◌≡◌, refl, sym, ap, subst, ◌∙◌, inl, inr, true, false, List, [], ◌∷◌, ◌++◌,
  arith, ltb, ◌==◌, length, take, length-append, Bool-cases,
}
use ponz_proxy.Prelude.Text.{Text}
use ponz_proxy.Cache.Entry.{new_entry}
use ponz_proxy.Cache.Host.{HostCache, put}
use ponz_proxy.Proxy.Caching.{Writer, commit, write_body}

-- Every piece is taken whole, at its time.
abbrev pub write_all : List (Text × ℕ) → Writer → HostCache → Writer × HostCache
write_all [] c hc = (c, hc)
write_all ((b, now) ∷ pieces) c hc =
    let next = write_body b (length b) now c hc in write_all pieces next.0 next.1

abbrev pub joined : List (Text × ℕ) → Text
joined [] = []
joined ((b, _) ∷ pieces) = b ++ joined pieces

abbrev pub NoneEmpty : List (Text × ℕ) → Type 0
NoneEmpty [] = Unit {0}
NoneEmpty ((b, _) ∷ pieces) = (0 < length b) × NoneEmpty pieces

take_all : (b : Text) → take (length b) b ≡ b
take_all [] = refl
take_all (x ∷ b) = ap (λ z. x ∷ z) (take_all b)

append_assoc : (xs ys zs : Text) → (xs ++ ys) ++ zs ≡ xs ++ (ys ++ zs)
append_assoc [] ys zs = refl
append_assoc (x ∷ xs) ys zs = ap (λ z. x ∷ z) (append_assoc xs ys zs)

write_body-short :
    (b : Text) (now : ℕ) (c : Writer) (hc : HostCache)
    → c.capturing ≡ true
    → 0 < length b
    → length (c.buf ++ b) < c.terms.length
    → write_body b (length b) now c hc ≡ (record c { buf = c.buf ++ b }, hc)
unfolding write_body
write_body-short b now c hc on some_bytes short =
    rw (take_all b) (ground (arith, on, some_bytes, short, length-append c.buf b))

write_body-last :
    (b : Text) (now : ℕ) (c : Writer) (hc : HostCache)
    → c.capturing ≡ true
    → 0 < length b
    → length (c.buf ++ b) ≡ c.terms.length
    → write_body b (length b) now c hc ≡ commit now (record c { buf = c.buf ++ b }) hc
unfolding write_body
write_body-last b now c hc on some_bytes full =
    rw (take_all b) (ground (arith, on, some_bytes, full, length-append c.buf b))

write_body-off :
    (b : Text) (n now : ℕ) (c : Writer) (hc : HostCache)
    → c.capturing ≡ false
    → write_body b n now c hc ≡ (c, hc)
unfolding write_body
write_body-off b n now c hc off = ground (arith, off)

write_all-off :
    (pieces : List (Text × ℕ)) (c : Writer) (hc : HostCache)
    → c.capturing ≡ false
    → (write_all pieces c hc).1 ≡ hc
write_all-off [] c hc off = refl
write_all-off ((b, now) ∷ pieces) c hc off =
    ap (λ z. (write_all pieces z.0 z.1).1) (write_body-off b (length b) now c hc off)
    ∙ write_all-off pieces c hc off

-- What becomes of a cache with a body: nothing while it is shorter than declared, and the entry
-- once it is as long.
abbrev pub Stored : Writer → HostCache → Text → HostCache → Type 0
Stored c hc body r =
    (length body < c.terms.length → r ≡ hc)
    × (length body ≡ c.terms.length
        → (now : ℕ) × (r ≡ put c.key (new_entry c.status c.response_header body c.terms now) hc))

empty_of_length : (s : Text) → length s ≡ 0 → s ≡ []
empty_of_length [] e = refl
empty_of_length (x ∷ s) e = ground (arith, e)

committed :
    (b : Text) (now : ℕ) (pieces : List (Text × ℕ)) (c : Writer) (hc : HostCache)
    → length (c.buf ++ b) ≡ c.terms.length
    → let next = commit now (record c { buf = c.buf ++ b }) hc in
      Stored c hc (c.buf ++ (b ++ joined pieces)) (write_all pieces next.0 next.1).1
unfolding commit
committed b now pieces c hc full = (
  (λ less. absurd (
      omega (
        arith,
        less,
        full,
        length-append c.buf b,
        length-append c.buf (b ++ joined pieces),
        length-append b (joined pieces),
      ))),
  (λ exact. (
    now,
    write_all-off pieces (record c { capturing = false; buf = [] })
          (put c.key (new_entry c.status c.response_header (c.buf ++ b) c.terms now) hc) refl
        ∙ ap (λ z. put c.key (new_entry c.status c.response_header (c.buf ++ z) c.terms now) hc)
            (sym (
              ap (λ z. b ++ z)
                (empty_of_length (joined pieces) (
                  omega (
                    arith,
                    exact,
                    full,
                    length-append c.buf b,
                    length-append c.buf (b ++ joined pieces),
                    length-append b (joined pieces),
                  )))
              ∙ append-nil b)),
  )),
)

-- A body with its pieces in order, of which none is empty, is stored whole with the piece that
-- brings it to the length that the origin declared, and not at all while it is shorter.
pub write_all-Stored :
    (pieces : List (Text × ℕ)) (c : Writer) (hc : HostCache)
    → c.capturing ≡ true
    → length c.buf < c.terms.length
    → NoneEmpty pieces
    → Stored c hc (c.buf ++ joined pieces) (write_all pieces c hc).1
write_all-Stored [] c hc on short all =
    ((λ l. refl), (λ l. absurd (omega (arith, l, short, length-append c.buf []))))
write_all-Stored ((b, now) ∷ pieces) c hc on short (some_bytes, all) =
    elim (Bool-cases (ltb (length (c.buf ++ b)) c.terms.length)) [
      | inl less ↦
          let step = write_body-short b now c hc on some_bytes (ground (arith, less)) in
          subst (λ z. Stored c hc (c.buf ++ (b ++ joined pieces)) (write_all pieces z.0 z.1).1)
            (sym step)
            (subst (λ z. Stored c hc z (write_all pieces (record c { buf = c.buf ++ b }) hc).1)
              (append_assoc c.buf b (joined pieces))
              (write_all-Stored pieces (record c { buf = c.buf ++ b }) hc on (ground (arith, less))
                all))
      | inr not_less ↦ elim (Bool-cases (length (c.buf ++ b) == c.terms.length)) [
        | inl full ↦
            let step = write_body-last b now c hc on some_bytes (ground (arith, full)) in
            subst (λ z. Stored c hc (c.buf ++ (b ++ joined pieces)) (write_all pieces z.0 z.1).1)
              (sym step) (committed b now pieces c hc (ground (arith, full)))
        | inr differs ↦
            let over : c.terms.length < length (c.buf ++ (b ++ joined pieces)) = ground (
              arith,
              not_less,
              differs,
              length-append c.buf b,
              length-append c.buf (b ++ joined pieces),
              length-append b (joined pieces),
            ) in
            ((λ l. absurd (omega (arith, l, over))), (λ l. absurd (omega (arith, l, over))))
      ]
    ]
