-- ===== src/Console/Login.antt =====
-- internal/api/ratelimit.go: the throttle on failed sign-ins, by source address.
--
-- Times are nanoseconds since the zero time, which no clock reads any more.
pub mod Blocking
pub mod Sweeping
use ponz_proxy.Prelude.{
  ℕ, ◌+◌, ◌-◌, ◌*◌, Bool, true, false, not, ◌&&◌, Option, none, some, List, [], ◌∷◌, ltb, leb, ◌==◌,
  if◌then◌else◌, length,
}
use ponz_proxy.Prelude.Text.{Text}
use ponz_proxy.Prelude.Maps.{lookup, insert, keep, delete}

abbrev pub login_burst : ℕ
login_burst = 5

-- `loginWindow` and `loginBlock`, fifteen minutes each.
abbrev pub login_window : ℕ
login_window = 900_000_000_000

abbrev pub login_block : ℕ
login_block = 900_000_000_000

pub record Attempts : Type 0 where
  pub failures : ℕ
  pub first : ℕ
  pub blocked_until : ℕ

abbrev pub Entries : Type 0
Entries = List (Text × Attempts)

-- Whether the attempt may proceed, and how long to wait if not.
unfoldable pub allow : Text → ℕ → Entries → Entries × Bool × ℕ
allow key now entries = elim (lookup key entries) [
  | none ↦ (entries, true, 0)
  | some e ↦
      if ltb now e.blocked_until
      then (entries, false, e.blocked_until - now)
      else ((if e.blocked_until == 0 then entries else delete key entries), true, 0)
]

unfoldable pub count_failure : ℕ → Attempts → Attempts
count_failure now e =
    let e' = record e { failures = e.failures + 1 } in
    if leb login_burst e'.failures then record e' { blocked_until = now + login_block } else e'

abbrev pub first_failure : ℕ → Attempts
first_failure now = record { failures = 1; first = now; blocked_until = 0 }

unfoldable pub record_failure : Text → ℕ → Entries → Entries
record_failure key now entries = elim (lookup key entries) [
  | none ↦ insert key (first_failure now) entries
  | some e ↦
      if ltb login_window (now - e.first)
      then insert key (first_failure now) entries
      else insert key (count_failure now e) entries
]

unfoldable pub record_success : Text → Entries → Entries
record_success key entries = delete key entries

abbrev pub expired : ℕ → Attempts → Bool
expired now e = ltb e.blocked_until now && ltb login_window (now - e.first)

unfoldable pub sweep : ℕ → Entries → Entries
sweep now entries = keep (λ k e. not (expired now e)) entries
