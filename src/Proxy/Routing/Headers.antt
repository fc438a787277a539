-- ===== src/Proxy/Routing/Headers.antt =====
-- internal/proxy/routing.go, `normalizeHostHeader`: the port of a Host header does not matter.
use ponz_proxy.Prelude.{
  ℕ, ◌≡◌, ◌≢◌, refl, sym, ap, ◌∙◌, true, false, none, some, [], ◌∷◌, ◌++◌, arith, ◌==◌, length,
}
use ponz_proxy.Prelude.Text.{Text}
use ponz_proxy.Prelude.Strings.{
  cut_prefix, cut_last, Lacks, is_space, is_digit, trim_left, trim_right, trim_space, trim_last,
  to_lower,
}
use ponz_proxy.Proxy.Routing.{all_digits, without_port, unbracketed, normalize_host_header}

digit-space : (c : ℕ) → is_digit c ≡ true → is_space c ≡ false
unfolding is_digit is_space
digit-space c h = ground (arith, h)

digit-colon : (c : ℕ) → is_digit c ≡ true → c ≢ 58
unfolding is_digit
digit-colon c h e = ground (arith, h, e)

all_digits-cons :
    (c : ℕ) (s : Text) → all_digits (c ∷ s) ≡ true → (is_digit c ≡ true) × (all_digits s ≡ true)
unfolding all_digits
all_digits-cons c s h = ground (arith, h)

all_digits-Lacks : (s : Text) → all_digits s ≡ true → Lacks 58 s
all_digits-Lacks [] h = tt
all_digits-Lacks (c ∷ s) h =
    let (d, r) = all_digits-cons c s h in (digit-colon c d, all_digits-Lacks s r)

trim_right-digits : (s : Text) → all_digits s ≡ true → trim_right s ≡ s
unfolding trim_right
trim_right-digits [] h = refl
trim_right-digits (c ∷ s) h =
    let (d, r) = all_digits-cons c s h in ground (arith, trim_right-digits s r, digit-space c d)

-- Nothing is trimmed from a text whose end is not trimmed.
trim_right-append :
    (s : Text) (c : ℕ) (t : Text)
    → trim_right (c ∷ t) ≡ c ∷ t
    → trim_right (s ++ c ∷ t) ≡ s ++ c ∷ t
unfolding trim_right
trim_right-append [] c t h = h
trim_right-append (d ∷ []) c t h = rw (h, trim_right) refl
trim_right-append (d ∷ e ∷ s) c t h = rw (trim_right-append (e ∷ s) c t h, trim_right) refl

trim_right-colon : (ds : Text) → all_digits ds ≡ true → trim_right (58 ∷ ds) ≡ 58 ∷ ds
unfolding trim_right is_space
trim_right-colon ds h = ground (arith, trim_right-digits ds h)

cut_last-Lacks : (s : Text) (c : ℕ) → Lacks c s → cut_last s c ≡ none
unfolding cut_last
cut_last-Lacks [] c l = refl
cut_last-Lacks (d ∷ s) c (n, l) = ground (arith, cut_last-Lacks s c l, n)

cut_last-colon : (s t : Text) (c : ℕ) → Lacks c t → cut_last (s ++ c ∷ t) c ≡ some (s, t)
unfolding cut_last
cut_last-colon [] t c l = ground (arith, cut_last-Lacks t c l)
cut_last-colon (d ∷ s) t c l = rw (cut_last-colon s t c l, cut_last) refl

without_port-colon :
    (name ds : Text)
    → all_digits ds ≡ true
    → (length ds == 0) ≡ false
    → without_port (name ++ 58 ∷ ds) ≡ name
unfolding without_port
without_port-colon name ds h n =
    rw (cut_last-colon name ds 58 (all_digits-Lacks ds h), h, n, without_port) refl

without_port-none : (name : Text) → Lacks 58 name → without_port name ≡ name
unfolding without_port
without_port-none name l = rw (cut_last-Lacks name 58 l, without_port) refl

unbracketed-plain : (c : ℕ) (s : Text) → c ≢ 91 → unbracketed (c ∷ s) ≡ without_port (c ∷ s)
unfolding unbracketed cut_prefix
unbracketed-plain c s n = ground (arith, n)

trim_left-plain : (c : ℕ) (s : Text) → is_space c ≡ false → trim_left (c ∷ s) ≡ c ∷ s
unfolding trim_left
trim_left-plain c s h = rw h refl

-- A host name with a port after it is looked up as the name alone, where the name has no colon, no
-- bracket before it and no space around it.
pub normalize_host_header-port :
    (c : ℕ) (s ds : Text)
    → is_space c ≡ false
    → c ≢ 91
    → Lacks 58 (c ∷ s)
    → trim_right (c ∷ s) ≡ c ∷ s
    → all_digits ds ≡ true
    → (length ds == 0) ≡ false
    → normalize_host_header ((c ∷ s) ++ 58 ∷ ds) ≡ normalize_host_header (c ∷ s)
unfolding normalize_host_header trim_space
normalize_host_header-port c s ds p b l t d n =
    ap (λ x. to_lower (trim_last x 46)) (with_port ∙ sym alone)
  where
    with_port : unbracketed (trim_right (trim_left (c ∷ s ++ 58 ∷ ds))) ≡ c ∷ s
    with_port =
        ap (λ x. unbracketed (trim_right x)) (trim_left-plain c (s ++ 58 ∷ ds) p)
        ∙ ap unbracketed (trim_right-append (c ∷ s) 58 ds (trim_right-colon ds d))
        ∙ unbracketed-plain c (s ++ 58 ∷ ds) b
        ∙ without_port-colon (c ∷ s) ds d n

    alone : unbracketed (trim_right (trim_left (c ∷ s))) ≡ c ∷ s
    alone =
        ap (λ x. unbracketed (trim_right x)) (trim_left-plain c s p)
        ∙ ap unbracketed t
        ∙ unbracketed-plain c s b
        ∙ without_port-none (c ∷ s) l
