-- ===== src/Proxy/Access.antt =====
-- internal/domain/accesslist.go, `EvaluateAccess`, and internal/proxy/access.go and authcache.go,
-- which remember the credentials that were verified.
--
-- net/netip reads addresses and prefixes, golang.org/x/crypto/bcrypt compares passwords, and
-- `makeAuthKey` hashes a credential: these are parameters.
pub mod Rules
pub mod Entries
pub mod Remembering
mod Tests
use ponz_proxy.Prelude.{
  ℕ, ◌+◌, Bool, true, false, not, ◌&&◌, ◌||◌, Option, none, some, List, [], ◌∷◌, ltb, leb, ◌==◌,
  if◌then◌else◌, length,
}
use ponz_proxy.Prelude.Text.{Text, text_eq}
use ponz_proxy.Prelude.Maps.{lookup, insert, keep, delete}

-- `AccessAction` is a string.
pub data Action : Type 0 where
  allow deny : Action
  other : Text → Action

pub record Rule : Type 0 where
  pub action : Action
  pub cidr : Text

pub record User : Type 0 where
  pub username : Text
  pub password_hash : Text

pub record AccessList : Type 0 where
  pub satisfy_any : Bool
  pub rules : List Rule
  pub basic_auth : List User

pub data Decision : Type 0 where
  granted refused needs_credentials : Decision

pub record Credentials : Type 0 where
  pub username : Text
  pub password : Text
  pub present : Bool
  pub verified : Bool

abbrev pub is_allow : Action → Bool
is_allow Action.allow = true
is_allow Action.deny = false
is_allow (Action.other a) = false

abbrev pub is_deny : Action → Bool
is_deny Action.allow = false
is_deny Action.deny = true
is_deny (Action.other a) = false

abbrev pub Address : Type 0
Address = List ℕ

-- `auth_ttl` and `auth_cache_max`.
abbrev pub auth_ttl : ℕ
auth_ttl = 30_000_000_000

abbrev pub auth_cache_max : ℕ
auth_cache_max = 4096

-- The expiry of each remembered credential, by its key.
abbrev pub AuthCache : Type 0
AuthCache = List (Text × ℕ)

-- `parse_addr` is `netip.ParseAddr` and `Unmap`, `parse_prefix` gives what a prefix contains.
module _ (parse_addr : Text → Option Address) (parse_prefix : Text → Option (Address → Bool))
    (compare_hash : Text → Text → Bool) where
  unfoldable pub scan : Address → List Rule → Bool → Bool → Bool
  scan addr [] has_allow matched_allow = not has_allow || matched_allow
  scan addr (r ∷ rs) has_allow matched_allow =
      let has = if is_allow r.action then true else has_allow in
      let missed = scan addr rs has matched_allow in
      let matched = scan addr rs has true in
      elim (parse_prefix r.cidr) [
        | none ↦ false
        | some contains ↦
            if not (contains addr) then missed else if is_deny r.action then false else matched
      ]

  unfoldable pub allows_address : AccessList → Text → Bool
  allows_address l client_ip =
      if length l.rules == 0
      then true
      else elim (parse_addr client_ip) [ none ↦ false | some addr ↦ scan addr l.rules false false ]

  unfoldable pub check_users : Credentials → List User → Bool
  check_users creds [] = false
  check_users creds (u ∷ us) =
      let rest = check_users creds us in
      if not (text_eq u.username creds.username)
      then rest
      else compare_hash u.password_hash creds.password

  unfoldable pub accepts_credentials : AccessList → Credentials → Bool
  accepts_credentials l creds =
      if not creds.present
      then false
      else if creds.verified
      then true
      else check_users creds l.basic_auth

  unfoldable pub evaluate_access : Option AccessList → Text → Credentials → Decision
  evaluate_access none client_ip creds = Decision.granted
  evaluate_access (some l) client_ip creds =
      let address_ok = allows_address l client_ip in
      let auth_configured = ltb 0 (length l.basic_auth) in
      if l.satisfy_any && address_ok
      then Decision.granted
      else if not l.satisfy_any && not address_ok
      then Decision.refused
      else if not auth_configured
      then (if address_ok then Decision.granted else Decision.refused)
      else if accepts_credentials l creds
      then Decision.granted
      else Decision.needs_credentials

-- `authCache.granted`: an expired entry goes.
unfoldable pub was_granted : Text → ℕ → AuthCache → AuthCache × Bool
was_granted key now c = elim (lookup key c) [
  | none ↦ (c, false)
  | some expiry ↦ if ltb expiry now then (delete key c, false) else (c, true)
]

unfoldable pub evict_expired : ℕ → AuthCache → AuthCache
evict_expired now c = keep (λ k expiry. not (ltb expiry now)) c

abbrev pub with_room : ℕ → AuthCache → AuthCache
with_room now c =
    if leb auth_cache_max (length c)
    then (let c' = evict_expired now c in if leb auth_cache_max (length c') then [] else c')
    else c

unfoldable pub remember : Text → ℕ → AuthCache → AuthCache
remember key now c = insert key (now + auth_ttl) (with_room now c)

-- `key_of` is `makeAuthKey` for this list and version.
module _ (parse_addr : Text → Option Address) (parse_prefix : Text → Option (Address → Bool))
    (compare_hash : Text → Text → Bool) (key_of : Text → Text → Text) where
  -- What `enforce_access` decides for a host with the access list `l`, and the cache after it.
  unfoldable pub enforce_access :
      AccessList → Text → Text → Text → Bool → ℕ → AuthCache → AuthCache × Decision
  enforce_access l client user password present now c =
      let key = key_of user password in
      let ask = present && ltb 0 (length l.basic_auth) in
      let (c', cached) = if ask then was_granted key now c else (c, false) in
      let creds : Credentials = record {
        username = user;
        password = password;
        present = present;
        verified = cached;
      } in
      let decision = evaluate_access parse_addr parse_prefix compare_hash (some l) client creds in
      elim decision [
        | Decision.granted ↦ (
          (if present && (not cached && ltb 0 (length l.basic_auth))
              then remember key now c'
              else c'),
          Decision.granted,
        )
        | Decision.refused ↦ (c', Decision.refused)
        | Decision.needs_credentials ↦ (c', Decision.needs_credentials)
      ]
