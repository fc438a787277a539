-- ===== src/Console/Tests.antt =====
-- internal/api/ratelimit.go: a source that guesses.
use ponz_proxy.Prelude.{ℕ, ◌+◌, ◌-◌, ◌≡◌, refl, false, not, [], ◌∷◌, arith, ltb}
use ponz_proxy.Prelude.Text.{Text, codes, text_eq}
use ponz_proxy.Prelude.Maps.{lookup, insert}
use ponz_proxy.Console.Login.{
  login_block, Entries, allow, count_failure, first_failure, record_failure,
}
use ponz_proxy.Console.Login.Blocking.{fail_all, fail_all-allow}

abbrev source : Text
source = codes "10.0.0.1"

abbrev guesses : Entries
guesses = fail_all source (1 ∷ 2 ∷ 3 ∷ 4 ∷ 5 ∷ []) []

refused : (allow source 6 guesses).1 ≡ false
unfolding fail_all record_failure count_failure allow lookup insert text_eq
refused = refl

fail_all-allow_example :
    ((allow source 6 guesses).1 ≡ not (ltb 6 (5 + login_block)))
    × ((allow source 6 guesses).2 ≡ 5 + login_block - 6)
unfolding lookup
fail_all-allow_example =
    fail_all-allow source 1 (2 ∷ 3 ∷ 4 ∷ 5 ∷ []) [] 6 refl
      (omega arith, (omega arith, (omega arith, (omega arith, tt))))

abbrev old : Entries
old = (source, first_failure 1) ∷ []

abbrev later : ℕ
later = 2_000_000_000_000
