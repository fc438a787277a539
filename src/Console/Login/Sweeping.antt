-- ===== src/Console/Login/Sweeping.antt =====
-- internal/api/ratelimit.go, `sweep` and `recordSuccess`: dropping entries.
use ponz_proxy.Prelude.{
  ℕ, ◌-◌, ◌≤◌, ◌≡◌, sym, ap, ◌∙◌, ◌⊎◌, inl, inr, Bool, true, false, not, Option, none, some, arith,
  ltb, if◌then◌else◌, Option-cases, Bool-cases,
}
use ponz_proxy.Prelude.Text.{Text, text_eq, text_eq_iff}
use ponz_proxy.Prelude.Maps.{lookup, keep, Distinct, lookup-insert, lookup-keep}
use ponz_proxy.Console.Login.{
  login_window, Attempts, Entries, allow, count_failure, first_failure, record_failure,
  record_success, expired, sweep,
}

-- What a sweep leaves of an entry.
lookup-sweep :
    (key : Text) (now : ℕ) (entries : Entries)
    → Distinct entries
    → (lookup key (sweep now entries) ≡ lookup key entries)
      ⊎ ((lookup key (sweep now entries) ≡ none)
          × ((e : Attempts) × (lookup key entries ≡ some e) × (expired now e ≡ true)))
unfolding sweep
lookup-sweep key now entries d = elim (Option-cases (lookup key entries)) [
  | inl g ↦ inl (grind (arith, g, swept))
  | inr (e, g) ↦ elim (Bool-cases (expired now e)) [
    | inl h ↦ inr (grind (arith, g, h, swept), (e, g, h))
    | inr h ↦ inl (grind (arith, g, h, swept))
  ]
]
  where
    swept : lookup key (keep (λ k e. not (expired now e)) entries) ≡ (elim (lookup key entries) [
      | none ↦ none
      | some e ↦ if not (expired now e) then some e else none
    ])
    swept = lookup-keep (λ k e. not (expired now e)) key entries d

-- What `allow` answers and what a failure leaves, by the source's entry alone.
abbrev answer : ℕ → Option Attempts → Bool × ℕ
answer now none = (true, 0)
answer now (some e) = if ltb now e.blocked_until then (false, e.blocked_until - now) else (true, 0)

abbrev after_failure : ℕ → Option Attempts → Attempts
after_failure now none = first_failure now
after_failure now (some e) =
    if ltb login_window (now - e.first) then first_failure now else count_failure now e

allow-answer :
    (key : Text) (now : ℕ) (entries : Entries)
    → let r = allow key now entries in
      (r.1 ≡ (answer now (lookup key entries)).0) × (r.2 ≡ (answer now (lookup key entries)).1)
unfolding allow
allow-answer key now entries = ground arith

record_failure-after :
    (key : Text) (now : ℕ) (entries : Entries)
    → lookup key (record_failure key now entries) ≡ some (after_failure now (lookup key entries))
unfolding record_failure
record_failure-after key now entries = elim (Option-cases (lookup key entries)) [
  | inl g ↦
      ground (arith, g, text_eq_iff key key, lookup-insert key key (first_failure now) entries)
  | inr (e, g) ↦ ground (
    arith,
    g,
    text_eq_iff key key,
    lookup-insert key key (first_failure now) entries,
    lookup-insert key key (count_failure now e) entries,
  )
]

sweep-after :
    (key : Text) (now later : ℕ) (entries : Entries)
    → Distinct entries
    → now ≤ later
    → let o = lookup key (sweep now entries) in
      let p = lookup key entries in
      (answer later o ≡ answer later p) × (after_failure later o ≡ after_failure later p)
sweep-after key now later entries d h = elim (lookup-sweep key now entries d) [
  | inl g ↦ (ap (answer later) g, ap (after_failure later) g)
  | inr (n, (e, g, x)) ↦ rw (n, g) (ground (arith, x), ground (arith, x))
]

-- A sweep is not seen by any source: whether it may try again later, how long it has to wait, and
-- what another failure makes of its record are what they would have been.
pub sweep-unseen :
    (key : Text) (now later : ℕ) (entries : Entries)
    → Distinct entries
    → now ≤ later
    → let swept = sweep now entries in
      ((allow key later swept).1 ≡ (allow key later entries).1)
      × ((allow key later swept).2 ≡ (allow key later entries).2)
      × (lookup key (record_failure key later swept)
          ≡ lookup key (record_failure key later entries))
sweep-unseen key now later entries d h =
    let swept = sweep now entries in
    let (a, b) = allow-answer key later swept in
    let (a', b') = allow-answer key later entries in
    let (same, failed) = sweep-after key now later entries d h in
    (
      a ∙ ap (λ x. x.0) same ∙ sym a',
      b ∙ ap (λ x. x.1) same ∙ sym b',
      record_failure-after key later swept
          ∙ ap some failed
          ∙ sym (record_failure-after key later entries),
    )

-- A sign-in that succeeds clears the record of its source and no other.
pub lookup-record_success :
    (key j : Text) (entries : Entries)
    → Distinct entries
    → lookup j (record_success key entries) ≡ (if text_eq key j then none else lookup j entries)
unfolding record_success
lookup-record_success key j entries d =
    grind (arith, lookup-keep (λ k e. not (text_eq key k)) j entries d)
