-- ===== src/Proxy/Access/Remembering.antt =====
-- internal/proxy/access.go and authcache.go: remembered credentials decide nothing that the list
-- would not, where the list asks for both halves.
use ponz_proxy.Prelude.{
  ℕ, ◌+◌, ◌≡◌, refl, sym, subst, ◌⊎◌, inl, inr, Bool, true, false, ◌&&◌, Option, some, List, [],
  ◌∷◌, map, arith, ltb, length, Bool-cases,
}
use ponz_proxy.Prelude.Text.{Text, text_eq, text_eq_iff}
use ponz_proxy.Prelude.Maps.{lookup, Distinct, lookup-insert, insert-Distinct}
use ponz_proxy.Proxy.Access.{
  AccessList, Credentials, Decision, Address, AuthCache, auth_ttl, check_users, accepts_credentials,
  evaluate_access, was_granted, with_room, remember, enforce_access,
}
use ponz_proxy.Proxy.Access.Entries.{
  was_granted-Within, was_granted-Distinct, was_granted-some, with_room-Within, with_room-Distinct,
}

-- A request to a host with the list.
pub record Attempt : Type 0 where
  pub client : Text
  pub user : Text
  pub password : Text
  pub present : Bool
  pub now : ℕ

module _ (parse_addr : Text → Option Address) (parse_prefix : Text → Option (Address → Bool))
    (compare_hash : Text → Text → Bool) (key_of : Text → Text → Text)
    (distinct_keys : (u p v q : Text) → key_of u p ≡ key_of v q → (u ≡ v) × (p ≡ q))
    (l : AccessList) where
  -- The list accepts the credential by comparing its password.
  abbrev pub known : Text → Text → Bool
  known user password =
      check_users parse_addr parse_prefix compare_hash
        (record { username = user; password = password; present = true; verified = false })
        l.basic_auth

  -- What is remembered was verified.
  abbrev Honest : AuthCache → Type 0
  Honest c = (u p : Text) (e : ℕ) → lookup (key_of u p) c ≡ some e → known u p ≡ true

  abbrev decide : Text → Credentials → Decision
  decide client creds = evaluate_access parse_addr parse_prefix compare_hash (some l) client creds

  decide-cached :
      (client user password : Text)
      → known user password ≡ true
      → decide client
          (record { username = user; password = password; present = true; verified = true })
        ≡ decide client
            (record { username = user; password = password; present = true; verified = false })
  unfolding evaluate_access accepts_credentials
  decide-cached client user password h = ground (arith, h)

  decide-known :
      (client user password : Text)
      → l.satisfy_any ≡ false
      → ltb 0 (length l.basic_auth) ≡ true
      → decide client
          (record { username = user; password = password; present = true; verified = false })
        ≡ Decision.granted
      → known user password ≡ true
  unfolding evaluate_access accepts_credentials
  decide-known client user password s u g = ground (arith, s, u, g)

  remember-Honest :
      (user password : Text) (now : ℕ) (c : AuthCache)
      → Distinct c
      → Honest c
      → known user password ≡ true
      → Honest (remember (key_of user password) now c)
  unfolding remember
  remember-Honest user password now c d h k u p e g =
      elim (Bool-cases (text_eq (key_of user password) (key_of u p))) [
        | inl q ↦
            let (x, y) =
              distinct_keys user password u p
                ((text_eq_iff (key_of user password) (key_of u p)).0 q) in
            subst (λ z. known u z ≡ true) y (subst (λ z. known z password ≡ true) x k)
        | inr q ↦ h u p e (with_room-Within now c d (key_of u p) e (kept q))
      ]
    where
      kept :
          text_eq (key_of user password) (key_of u p) ≡ false
          → lookup (key_of u p) (with_room now c) ≡ some e
      kept q = ground (
        arith,
        g,
        q,
        lookup-insert (key_of user password) (key_of u p) (now + auth_ttl) (with_room now c),
      )

  remember-Distinct :
      (key : Text) (now : ℕ) (c : AuthCache) → Distinct c → Distinct (remember key now c)
  unfolding remember
  remember-Distinct key now c d =
      insert-Distinct key (now + auth_ttl) (with_room now c) (with_room-Distinct now c d)

  abbrev plain : Text → Text → Bool → Credentials
  plain user password present = record {
    username = user;
    password = password;
    present = present;
    verified = false;
  }

  abbrev run : Text → Text → Text → Bool → ℕ → AuthCache → AuthCache × Decision
  run = enforce_access parse_addr parse_prefix compare_hash key_of l

  run-plain :
      (client user password : Text) (present : Bool) (now : ℕ) (c : AuthCache)
      → (present && ltb 0 (length l.basic_auth)) ≡ false
      → let r = run client user password present now c in
        (r.0 ≡ c) × (r.1 ≡ decide client (plain user password present))
  unfolding enforce_access
  run-plain client user password present now c h = ground (arith, h)

  run-hit :
      (client user password : Text) (now : ℕ) (c : AuthCache)
      → ltb 0 (length l.basic_auth) ≡ true
      → (was_granted (key_of user password) now c).1 ≡ true
      → known user password ≡ true
      → let r = run client user password true now c in
        (r.0 ≡ (was_granted (key_of user password) now c).0)
        × (r.1 ≡ decide client (plain user password true))
  unfolding enforce_access
  run-hit client user password now c u h k =
      ground (arith, u, h, decide-cached client user password k)

  run-miss :
      (client user password : Text) (now : ℕ) (c : AuthCache)
      → ltb 0 (length l.basic_auth) ≡ true
      → (was_granted (key_of user password) now c).1 ≡ false
      → let r = run client user password true now c in
        let c' = (was_granted (key_of user password) now c).0 in
        (r.1 ≡ decide client (plain user password true))
        × ((r.0 ≡ c')
            ⊎ ((decide client (plain user password true) ≡ Decision.granted)
                × (r.0 ≡ remember (key_of user password) now c')))
  unfolding enforce_access
  run-miss client user password now c u h = ground (arith, u, h)

  abbrev Good : AuthCache → Type 0
  Good c = Distinct c × Honest c

  was_granted-Good :
      (key : Text) (now : ℕ) (c : AuthCache) → Good c → Good (was_granted key now c).0
  was_granted-Good key now c (d, h) = (
    was_granted-Distinct key now c d,
    λ u p e g. h u p e (was_granted-Within key now c d (key_of u p) e g),
  )

  run-Good :
      (client user password : Text) (present : Bool) (now : ℕ) (c : AuthCache)
      → l.satisfy_any ≡ false
      → Good c
      → let r = run client user password present now c in
        Good r.0 × (r.1 ≡ decide client (plain user password present))
  run-Good client user password false now c s g =
      let (e, f) = run-plain client user password false now c refl in (subst Good (sym e) g, f)
  run-Good client user password true now c s g = elim (Bool-cases (ltb 0 (length l.basic_auth))) [
    | inr n ↦ let (e, f) = run-plain client user password true now c n in (subst Good (sym e) g, f)
    | inl n ↦ elim (Bool-cases (was_granted (key_of user password) now c).1) [
      | inl q ↦
          let (e, m) = was_granted-some (key_of user password) now c q in
          let (e', f) = run-hit client user password now c n q (g.1 user password e m) in
          (subst Good (sym e') (was_granted-Good (key_of user password) now c g), f)
      | inr q ↦
          let (f, o) = run-miss client user password now c n q in
          (
            elim o [
              | inl e ↦ subst Good (sym e) (was_granted-Good (key_of user password) now c g)
              | inr (a, e) ↦
                  let (d, h) = was_granted-Good (key_of user password) now c g in
                  let c' = (was_granted (key_of user password) now c).0 in
                  subst Good (sym e) (
                    remember-Distinct (key_of user password) now c' d,
                    remember-Honest user password now c' d h
                        (decide-known client user password s n a),
                  )
            ],
            f,
          )
    ]
  ]

  unfoldable pub enforce_all : List Attempt → AuthCache → List Decision
  enforce_all [] c = []
  enforce_all (a ∷ rs) c =
      let (c', decision) = run a.client a.user a.password a.present a.now c in
      decision ∷ enforce_all rs c'

  abbrev pub fresh : Attempt → Decision
  fresh a = decide a.client (plain a.user a.password a.present)

  enforce_all-Good :
      (rs : List Attempt) (c : AuthCache)
      → l.satisfy_any ≡ false
      → Good c
      → enforce_all rs c ≡ map fresh rs
  unfolding enforce_all
  enforce_all-Good [] c s g = refl
  enforce_all-Good (a ∷ rs) c s g =
      let (g', e) = run-Good a.client a.user a.password a.present a.now c s g in
      cons e (enforce_all-Good rs (run a.client a.user a.password a.present a.now c).0 s g')
    where
      cons : {x y : Decision} {xs ys : List Decision} → x ≡ y → xs ≡ ys → x ∷ xs ≡ y ∷ ys
      cons e f = rw (e, f) refl

  start : Good []
  unfolding lookup
  start = (tt, λ u p e g. ground (arith, g))

  -- With a list that is not `SatisfyAny`, and keys that tell credentials apart, every request of
  -- any sequence is decided rs it would be by comparing its password anew.
  pub enforce_all-fresh :
      (rs : List Attempt) → l.satisfy_any ≡ false → enforce_all rs [] ≡ map fresh rs
  enforce_all-fresh rs s = enforce_all-Good rs [] s start
