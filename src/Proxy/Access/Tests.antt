-- ===== src/Proxy/Access/Tests.antt =====
-- internal/proxy/access.go: credentials remembered with two lists.
use ponz_proxy.Prelude.{
  ℕ, ◌≡◌, ◌≢◌, ◌↔◌, refl, ap, Bool, true, false, Option, some, List, [], ◌∷◌, ◌++◌, map, arith,
  length,
}
use ponz_proxy.Prelude.Text.{Text, codes, text_eq}
use ponz_proxy.Prelude.Maps.{lookup, insert}
use ponz_proxy.Proxy.Access.{
  Action, AccessList, Credentials, Decision, Address, scan, allows_address, check_users,
  accepts_credentials, evaluate_access, was_granted, remember, enforce_access,
}
use ponz_proxy.Proxy.Access.Rules.{grants, evaluate_access_lem}
use ponz_proxy.Proxy.Access.Remembering.{Attempt, enforce_all, fresh, enforce_all-fresh}

-- Addresses and prefixes are names here, and a hash is the password.
abbrev addr : Text → Option Address
addr t = some t

abbrev prefix : Text → Option (Address → Bool)
prefix t = some (text_eq t)

abbrev key : Text → Text → Text
key u p = length u ∷ u ++ p

split : (u p v q : Text) → length u ≡ length v → u ++ p ≡ v ++ q → (u ≡ v) × (p ≡ q)
split [] p [] q h e = (refl, e)
split [] p (y ∷ v) q h e = ground (arith, h)
split (x ∷ u) p [] q h e = ground (arith, h)
split (x ∷ u) p (y ∷ v) q h e = ground (arith, e, split u p v q (omega arith))

key_split : (u p v q : Text) → key u p ≡ key v q → (u ≡ v) × (p ≡ q)
key_split u p v q e = split u p v q (ap first e) (ap rest e)
  where
    first : Text → ℕ
    first [] = 0
    first (n ∷ _) = n

    rest : Text → Text
    rest [] = []
    rest (_ ∷ s) = s

abbrev list : Bool → AccessList
list any = record {
  satisfy_any = any;
  rules = record { action = Action.allow; cidr = codes "in" } ∷ [];
  basic_auth = record { username = codes "ann"; password_hash = codes "secret" } ∷ [];
}

abbrev guess : Text → ℕ → Attempt
guess from at = record {
  client = from;
  user = codes "x";
  password = codes "y";
  present = true;
  now = at;
}

abbrev guesses : List Attempt
guesses = guess (codes "in") 1 ∷ guess (codes "out") 2 ∷ []

enforce_all-fresh_example :
    enforce_all addr prefix text_eq key key_split (list false) guesses []
    ≡ map (fresh addr prefix text_eq key key_split (list false)) guesses
enforce_all-fresh_example =
    enforce_all-fresh addr prefix text_eq key key_split (list false) guesses refl

-- With `SatisfyAny`, a made-up credential that came from an admitted address is remembered as
-- verified, and then accepted from any other.
remembered_guess :
    enforce_all addr prefix text_eq key key_split (list true) guesses []
    ≡ Decision.granted ∷ Decision.granted ∷ []
unfolding enforce_all enforce_access evaluate_access allows_address scan accepts_credentials
    check_users was_granted remember lookup insert text_eq
remembered_guess = refl

fresh_guess :
    map (fresh addr prefix text_eq key key_split (list true)) guesses
    ≡ Decision.granted ∷ Decision.needs_credentials ∷ []
unfolding evaluate_access allows_address scan accepts_credentials check_users text_eq
fresh_guess = refl

abbrev ann : Credentials
ann = record { username = codes "ann"; password = codes "secret"; present = true; verified = false }

evaluate_access_lem_example :
    let evaluate = evaluate_access addr prefix text_eq (some (list true)) (codes "out") in
    ((evaluate ann ≡ Decision.granted)
      ↔ (grants addr prefix text_eq (some (list true)) (codes "out") ann ≡ true))
    × ((evaluate ann ≡ Decision.needs_credentials) ↔ (
        (evaluate ann ≢ Decision.granted)
        × (evaluate (record ann { present = true; verified = true }) ≡ Decision.granted)))
evaluate_access_lem_example =
    evaluate_access_lem addr prefix text_eq (some (list true)) (codes "out") ann
