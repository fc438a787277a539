-- ===== src/AccessLog/Entry/Clamped.antt =====
-- internal/domain/accesslog.go: the texts of a row are short, and cut between two characters.
use ponz_proxy.Prelude.{
  ℕ, zero, suc, ◌+◌, ◌≤◌, ◌≡◌, refl, ◌⊎◌, inl, inr, true, arith, leb, length, length-append,
  length-take, take, get_or, Bool-cases,
}
use ponz_proxy.Prelude.Text.{Text}
use ponz_proxy.AccessLog.Entry.{
  Entry, max_logged_field, is_utf8_start, cut_at, ellipsis, clamp, truncate,
}

cut_at-le : (s : Text) (k : ℕ) → cut_at s k ≤ k
unfolding cut_at
cut_at-le s zero = omega arith
cut_at-le s (suc k) = elim (Bool-cases (is_utf8_start (get_or s (suc k) 0))) [
  | inl e ↦ rw e (omega arith)
  | inr e ↦ rw e (omega (arith, cut_at-le s k))
]

-- A text is cut before the first byte of a character.
pub cut_at-boundary :
    (s : Text) (k : ℕ) → (cut_at s k ≡ 0) ⊎ (is_utf8_start (get_or s (cut_at s k) 0) ≡ true)
unfolding cut_at
cut_at-boundary s zero = inl refl
cut_at-boundary s (suc k) = elim (Bool-cases (is_utf8_start (get_or s (suc k) 0))) [
  | inl e ↦ rw e (inr e)
  | inr e ↦ rw e (cut_at-boundary s k)
]

pub clamp-length : (s : Text) (max : ℕ) → length (clamp s max) ≤ max + 3
unfolding clamp
clamp-length s max = elim (Bool-cases (leb (length s) max)) [
  | inl e ↦ rw e (ground (arith, e))
  | inr e ↦ rw e (
      omega (
        arith,
        length-append (take (cut_at s max) s) ellipsis,
        length-take (cut_at s max) s,
        cut_at-le s max,
      ))
]

-- The mark takes three bytes more than the limit.
abbrev pub Short : Entry → Type 0
Short e =
    (length e.path ≤ max_logged_field + 3)
    × (length e.user_agent ≤ max_logged_field + 3)
    × (length e.error ≤ max_logged_field + 3)
    × (length e.client_ip ≤ 67)
    × (length e.method ≤ 19)
    × (length e.upstream ≤ 131)

pub truncate-Short : (e : Entry) → Short (truncate e)
unfolding truncate
truncate-Short e = (
  clamp-length e.path max_logged_field,
  clamp-length e.user_agent max_logged_field,
  clamp-length e.error max_logged_field,
  clamp-length e.client_ip 64,
  clamp-length e.method 16,
  clamp-length e.upstream 128,
)
