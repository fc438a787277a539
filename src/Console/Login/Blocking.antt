-- ===== src/Console/Login/Blocking.antt =====
-- internal/api/ratelimit.go: when a source is refused.
use ponz_proxy.Prelude.{
  ℕ, suc, ◌+◌, ◌-◌, ◌≤◌, ◌≡◌, refl, sym, ap, subst, ◌∙◌, not, none, some, List, [], ◌∷◌, arith, ltb,
  leb, if◌then◌else◌, length,
}
use ponz_proxy.Prelude.Text.{Text, text_eq_iff}
use ponz_proxy.Prelude.Maps.{lookup, lookup-insert}
use ponz_proxy.Console.Login.{
  login_burst, login_window, login_block, Attempts, Entries, allow, count_failure, first_failure,
  record_failure,
}

-- Failures of one source at the given times, the first one first.
unfoldable pub fail_all : Text → List ℕ → Entries → Entries
fail_all key [] entries = entries
fail_all key (t ∷ ts) entries = fail_all key ts (record_failure key t entries)

-- The times are at most a window after `first`.
abbrev pub Recent : ℕ → List ℕ → Type 0
Recent first [] = Unit {0}
Recent first (t ∷ ts) = (t ≤ first + login_window) × Recent first ts

abbrev pub last_of : ℕ → List ℕ → ℕ
last_of t [] = t
last_of t (u ∷ us) = last_of u us

record_failure-hit :
    (key : Text) (now : ℕ) (e : Attempts) (entries : Entries)
    → lookup key entries ≡ some e
    → now ≤ e.first + login_window
    → lookup key (record_failure key now entries) ≡ some (count_failure now e)
unfolding record_failure
record_failure-hit key now e entries g h =
    ground (arith, g, text_eq_iff key key, lookup-insert key key (count_failure now e) entries)

record_failure-new :
    (key : Text) (now : ℕ) (entries : Entries)
    → lookup key entries ≡ none
    → lookup key (record_failure key now entries) ≡ some (first_failure now)
unfolding record_failure
record_failure-new key now entries g =
    ground (arith, g, text_eq_iff key key, lookup-insert key key (first_failure now) entries)

-- The entry after more failures in the window of `e`.
unfoldable count_all : List ℕ → Attempts → Attempts
count_all [] e = e
count_all (t ∷ ts) e = count_all ts (count_failure t e)

count_failure-first : (t : ℕ) (e : Attempts) → (count_failure t e).first ≡ e.first
unfolding count_failure
count_failure-first t e = ground arith

fail_all-count :
    (key : Text) (ts : List ℕ) (e : Attempts) (entries : Entries)
    → lookup key entries ≡ some e
    → Recent e.first ts
    → lookup key (fail_all key ts entries) ≡ some (count_all ts e)
unfolding fail_all count_all
fail_all-count key [] e entries g r = g
fail_all-count key (t ∷ ts) e entries g (h, r) =
    fail_all-count key ts (count_failure t e) (record_failure key t entries)
      (record_failure-hit key t e entries g h)
      (subst (λ x. Recent x ts) (sym (count_failure-first t e)) r)

-- After `n` failures the block, if there is one, starts with the last of them.
abbrev Blocked : ℕ → ℕ → Attempts → Type 0
Blocked n last e =
    (e.failures ≡ n) × (e.blocked_until ≡ (if leb login_burst n then last + login_block else 0))

count_failure-Blocked :
    (t n last : ℕ) (e : Attempts) → Blocked n last e → Blocked (suc n) t (count_failure t e)
unfolding count_failure
count_failure-Blocked t n last e (f, b) = ground (arith, f, b)

count_all-Blocked :
    (ts : List ℕ) (n last : ℕ) (e : Attempts)
    → Blocked n last e
    → Blocked (n + length ts) (last_of last ts) (count_all ts e)
unfolding count_all
count_all-Blocked [] n last e b = subst (λ m. Blocked m last e) {y = n + 0} (omega arith) b
count_all-Blocked (t ∷ ts) n last e b =
    subst (λ m. Blocked m (last_of t ts) (count_all ts (count_failure t e))) {x = suc n + length ts}
      {y = n + suc (length ts)} (omega arith)
      (count_all-Blocked ts (suc n) t (count_failure t e) (count_failure-Blocked t n last e b))

allow-entry :
    (key : Text) (now : ℕ) (entries : Entries) (e : Attempts)
    → lookup key entries ≡ some e
    → let r = allow key now entries in
      (r.1 ≡ not (ltb now e.blocked_until)) × (r.2 ≡ e.blocked_until - now)
unfolding allow
allow-entry key now entries e g = ground (arith, g)

-- A source with no failure on record that then fails within one window is refused from the fifth
-- failure on, until fifteen minutes after the last, and told how long that is; below five failures
-- it may always try again.
pub fail_all-allow :
    (key : Text) (t : ℕ) (ts : List ℕ) (entries : Entries) (now : ℕ)
    → lookup key entries ≡ none
    → Recent t ts
    → let r = allow key now (fail_all key (t ∷ ts) entries) in
      let until = if leb login_burst (1 + length ts) then last_of t ts + login_block else 0 in
      (r.1 ≡ not (ltb now until)) × (r.2 ≡ until - now)
unfolding fail_all
fail_all-allow key t ts entries now g r =
    let e = first_failure t in
    let found =
      fail_all-count key ts e (record_failure key t entries) (record_failure-new key t entries g)
        r in
    let (_, b) = count_all-Blocked ts 1 t e (refl, refl) in
    let (x, y) =
      allow-entry key now (fail_all key ts (record_failure key t entries)) (count_all ts e) found in
    (x ∙ ap (λ u. not (ltb now u)) b, y ∙ ap (λ u. u - now) b)
