-- ===== src/Domain/Names.antt =====
-- internal/domain/host.go, `validateDomain` and `validateHostPort`: names of hosts.
pub mod Plain
pub mod Routed
use ponz_proxy.Prelude.{
  ℕ, suc, ◌+◌, Bool, true, false, not, ◌&&◌, ◌||◌, Option, none, some, List, [], ◌∷◌, ltb, leb,
  ◌==◌, if◌then◌else◌, length,
}
use ponz_proxy.Prelude.Int.{ℤ, pos, negsuc}
use ponz_proxy.Prelude.Text.{Text, codes, text_eq}
use ponz_proxy.Prelude.Strings.{is_digit, trim_space, to_lower, trim_last}
use ponz_proxy.Prelude.Fields.{split, parse_int}

pub data DomainError : Type 0 where
  empty_domain : DomainError
  domain_too_long : DomainError
  wildcard_not_leftmost : DomainError
  wildcard_too_wide : DomainError
  empty_label : DomainError
  label_too_long : DomainError
  hyphen_at_end : DomainError
  invalid_character : DomainError

unfoldable pub is_label_byte : ℕ → Bool
is_label_byte c = (leb 97 c && leb c 122) || is_digit c || (c == 45)

unfoldable pub all_label_bytes : Text → Bool
all_label_bytes [] = true
all_label_bytes (c ∷ s) = is_label_byte c && all_label_bytes s

abbrev pub last_byte : ℕ → Text → ℕ
last_byte c [] = c
last_byte c (d ∷ s) = last_byte d s

-- `none` is the nil error.
unfoldable pub validate_label : Text → Option DomainError
validate_label [] = some empty_label
validate_label (c ∷ s) =
    if ltb 63 (length (c ∷ s))
    then some label_too_long
    else if (c == 45) || (last_byte c s == 45)
    then some hyphen_at_end
    else if all_label_bytes (c ∷ s)
    then none
    else some invalid_character

-- The label at position `i` of `n`, and those after it.
unfoldable pub validate_labels : ℕ → ℕ → List Text → Option DomainError
validate_labels i n [] = none
validate_labels i n (l ∷ ls) =
    let rest = validate_labels (suc i) n ls in
    if text_eq l (codes "*")
    then (if not (i == 0)
        then some wildcard_not_leftmost
        else if ltb n 3
        then some wildcard_too_wide
        else rest)
    else elim (validate_label l) [ some e ↦ some e | none ↦ rest ]

unfoldable pub validate_domain : Text → Option DomainError
validate_domain d =
    if length d == 0
    then some empty_domain
    else if ltb 253 (length d)
    then some domain_too_long
    else validate_labels 0 (length (split d 46)) (split d 46)

-- How `Normalize` cleans one domain of a host or a redirect.
unfoldable pub normalize_domain : Text → Text
normalize_domain d = trim_last (to_lower (trim_space d)) 46

pub data AddressError : Type 0 where
  no_address : AddressError
  not_host_port : AddressError
  no_host : AddressError
  invalid_port : AddressError
  invalid_host : DomainError → AddressError

unfoldable pub is_port : Text → Bool
is_port s = elim (parse_int s) [
  | none ↦ false
  | some (negsuc n) ↦ false
  | some (pos n) ↦ leb 1 n && leb n 65535
]

-- `split_host_port` is `net.SplitHostPort`, and `is_ip` tells whether `net.ParseIP` reads an address.
module _ (split_host_port : Text → Option (Text × Text)) (is_ip : Text → Bool) where
  unfoldable pub validate_host_port : Text → Option AddressError
  validate_host_port addr =
      if length addr == 0 then some no_address else elim (split_host_port addr) [
        | none ↦ some not_host_port
        | some (host, port) ↦
            if length host == 0
            then some no_host
            else if not (is_port port)
            then some invalid_port
            else if is_ip host
            then none
            else elim (validate_domain host) [ none ↦ none | some e ↦ some (invalid_host e) ]
      ]
