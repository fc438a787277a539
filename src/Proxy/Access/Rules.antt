-- ===== src/Proxy/Access/Rules.antt =====
-- internal/domain/accesslist.go: what the rules and the credentials add up to.
use ponz_proxy.Prelude.{
  ◌≡◌, refl, ◌≢◌, ◌↔◌, inl, inr, Bool, true, false, not, ◌&&◌, ◌||◌, Option, none, some, List, [],
  ◌∷◌, arith, if◌then◌else◌, ltb, ◌==◌, length, Option-cases,
}
use ponz_proxy.Prelude.Text.{Text, text_eq}
use ponz_proxy.Proxy.Access.{
  Rule, User, AccessList, Credentials, Decision, Address, is_allow, is_deny, scan, allows_address,
  check_users, accepts_credentials, evaluate_access,
}

abbrev pub any_rule : (Rule → Bool) → List Rule → Bool
any_rule p [] = false
any_rule p (r ∷ rs) = p r || any_rule p rs

abbrev pub all_rules : (Rule → Bool) → List Rule → Bool
all_rules p [] = true
all_rules p (r ∷ rs) = p r && all_rules p rs

abbrev pub user_named : Text → List User → Option User
user_named name [] = none
user_named name (u ∷ us) = if text_eq u.username name then some u else user_named name us

module _ (parse_addr : Text → Option Address) (parse_prefix : Text → Option (Address → Bool))
    (compare_hash : Text → Text → Bool) where
  abbrev pub covers : Address → Rule → Bool
  covers addr r = elim (parse_prefix r.cidr) [ none ↦ false | some contains ↦ contains addr ]

  abbrev pub readable : Rule → Bool
  readable r = elim (parse_prefix r.cidr) [ none ↦ false | some _ ↦ true ]

  -- No rule is malformed, no deny rule covers the address, and one that is not a deny rule does if
  -- there is an allow rule. The order of the rules plays no part.
  abbrev pub admitted : Address → List Rule → Bool → Bool → Bool
  admitted addr rs has_allow matched_allow =
      all_rules readable rs
      && (not (any_rule (λ r. is_deny r.action && covers addr r) rs)
          && (not (has_allow || any_rule (λ r. is_allow r.action) rs)
              || (matched_allow || any_rule (covers addr) rs)))

  scan-admitted :
      (addr : Address) (rs : List Rule) (has_allow matched_allow : Bool)
      → scan parse_addr parse_prefix compare_hash addr rs has_allow matched_allow
        ≡ admitted addr rs has_allow matched_allow
  unfolding scan
  scan-admitted addr [] has_allow matched_allow = ground arith
  scan-admitted addr (r ∷ rs) has_allow matched_allow = ground (
    arith,
    scan-admitted addr rs (if is_allow r.action then true else has_allow) matched_allow,
    scan-admitted addr rs (if is_allow r.action then true else has_allow) true,
  )

  -- An address passes a list of rules exactly if it can be read, no rule is malformed, no deny rule
  -- covers it wherever that rule stands, and some rule covers it if the list has an allow rule; a
  -- list without rules passes every client.
  pub allows_address_lem :
      (l : AccessList) (client_ip : Text)
      → allows_address parse_addr parse_prefix compare_hash l client_ip ≡ (
          (length l.rules == 0) || (elim (parse_addr client_ip) [
            | none ↦ false
            | some addr ↦ admitted addr l.rules false false
          ]))
  unfolding allows_address
  allows_address_lem l client_ip = elim (Option-cases (parse_addr client_ip)) [
    | inl e ↦ ground (arith, e)
    | inr (addr, e) ↦ ground (arith, e, scan-admitted addr l.rules false false)
  ]

  -- The address half of a list, independently of the scan.
  abbrev pub address_passes : AccessList → Text → Bool
  address_passes l client_ip = (length l.rules == 0) || (elim (parse_addr client_ip) [
    | none ↦ false
    | some addr ↦ admitted addr l.rules false false
  ])

  -- The first user of that name has that password.
  abbrev pub knows : List User → Credentials → Bool
  knows us creds = elim (user_named creds.username us) [
    | none ↦ false
    | some u ↦ compare_hash u.password_hash creds.password
  ]

  check_users-knows :
      (creds : Credentials) (us : List User)
      → check_users parse_addr parse_prefix compare_hash creds us ≡ knows us creds
  unfolding check_users
  check_users-knows creds [] = refl
  check_users-knows creds (u ∷ us) = ground (arith, check_users-knows creds us)

  abbrev pub grants : Option AccessList → Text → Credentials → Bool
  grants none client_ip creds = true
  grants (some l) client_ip creds =
      let users = ltb 0 (length l.basic_auth) in
      let accepted = creds.present && (creds.verified || knows l.basic_auth creds) in
      if l.satisfy_any
      then address_passes l client_ip || (users && accepted)
      else address_passes l client_ip && (not users || accepted)

  -- A host without an access list grants everything. With `SatisfyAny` a request is granted if its
  -- address passes or it has a credential that the list, with users, accepts; otherwise the address
  -- must pass, and the credential too if the list has users. An address passes a list without rules;
  -- one with rules it passes exactly if it can be read, no rule is malformed, no deny rule covers it
  -- wherever that rule stands, and some rule covers it if there is an allow rule. A credential is
  -- accepted if it was verified before or the first user of its name has its password. A request
  -- that is not granted is asked for credentials exactly if verified ones would get it granted.
  pub evaluate_access_lem :
      (list : Option AccessList) (client_ip : Text) (creds : Credentials)
      → let evaluate = evaluate_access parse_addr parse_prefix compare_hash list client_ip in
        ((evaluate creds ≡ Decision.granted) ↔ (grants list client_ip creds ≡ true))
        × ((evaluate creds ≡ Decision.needs_credentials) ↔ (
            (evaluate creds ≢ Decision.granted)
            × (evaluate (record creds { present = true; verified = true }) ≡ Decision.granted)))
  unfolding evaluate_access accepts_credentials
  evaluate_access_lem none client_ip creds = ground arith
  evaluate_access_lem (some l) client_ip creds =
      ground (arith, allows_address_lem l client_ip, check_users-knows creds l.basic_auth)
