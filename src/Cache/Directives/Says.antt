-- ===== src/Cache/Directives/Says.antt =====
-- internal/cache/policy.go, `parseCacheControl`: which directives a list of field values has.
use ponz_proxy.Prelude.{
  ◌≡◌, refl, ◌∙◌, Bool, true, false, not, ◌||◌, List, [], ◌∷◌, arith, ◌==◌, length,
}
use ponz_proxy.Prelude.Text.{Text, codes, text_eq, text_eq_iff}
use ponz_proxy.Prelude.Strings.{to_lower, lower}
use ponz_proxy.Prelude.Fields.{equal_fold, split}
use ponz_proxy.Cache.Directives.{
  CacheControl, unset, name_and_argument, set_age, apply_directive, apply_directives, apply_values,
  parse_cache_control,
}

-- One of the parts between commas has this name, case and the argument aside.
abbrev names : Text → Text → Bool
names d part = equal_fold (name_and_argument part).0 d

abbrev among : Text → List Text → Bool
among d [] = false
among d (part ∷ parts) = names d part || among d parts

abbrev pub says : Text → List Text → Bool
says d [] = false
says d (v ∷ vs) = among d (split v 44) || says d vs

equal_fold-other :
    (name d e : Text)
    → text_eq (to_lower d) (to_lower e) ≡ false
    → equal_fold name d ≡ true
    → equal_fold name e ≡ false
unfolding equal_fold
equal_fold-other name d e n h = grind (
  arith,
  text_eq_iff (to_lower name) (to_lower d),
  text_eq_iff (to_lower d) (to_lower e),
  text_eq_iff (to_lower name) (to_lower e),
  h,
  n,
)

-- A value of the switch settles one name only.
apply_directive-no_store :
    (part : Text) (cc : CacheControl)
    → (apply_directive part cc).no_store ≡ (names (codes "no-store") part || cc.no_store)
unfolding apply_directive set_age
apply_directive-no_store part cc = ground arith

apply_directive-no_cache :
    (part : Text) (cc : CacheControl)
    → (apply_directive part cc).no_cache ≡ (names (codes "no-cache") part || cc.no_cache)
unfolding apply_directive set_age text_eq lower
apply_directive-no_cache part cc =
    let name = (name_and_argument part).0 in
    ground (arith, equal_fold-other name (codes "no-store") (codes "no-cache") refl)

apply_directive-is_private :
    (part : Text) (cc : CacheControl)
    → (apply_directive part cc).is_private ≡ (names (codes "private") part || cc.is_private)
unfolding apply_directive set_age text_eq lower
apply_directive-is_private part cc =
    let name = (name_and_argument part).0 in
    ground (
      arith,
      equal_fold-other name (codes "no-store") (codes "private") refl,
      equal_fold-other name (codes "no-cache") (codes "private") refl,
    )

apply_directive-is_public :
    (part : Text) (cc : CacheControl)
    → (apply_directive part cc).is_public ≡ (names (codes "public") part || cc.is_public)
unfolding apply_directive set_age text_eq lower
apply_directive-is_public part cc =
    let name = (name_and_argument part).0 in
    ground (
      arith,
      equal_fold-other name (codes "no-store") (codes "public") refl,
      equal_fold-other name (codes "no-cache") (codes "public") refl,
      equal_fold-other name (codes "private") (codes "public") refl,
    )

-- A flag that a directive `d` sets, and nothing else of the loop.
module _ (d : Text) (flag : CacheControl → Bool)
    (step : (part : Text) (cc : CacheControl)
      → flag (apply_directive part cc) ≡ (names d part || flag cc))
    (start : (b : Bool) (cc : CacheControl) → flag (record cc { any = b }) ≡ flag cc) where
  flag-parts :
      (parts : List Text) (cc : CacheControl)
      → flag (apply_directives parts cc) ≡ (among d parts || flag cc)
  unfolding apply_directives
  flag-parts [] cc = refl
  flag-parts (part ∷ parts) cc =
      ground (arith, flag-parts parts (apply_directive part cc), step part cc)

  flag-values :
      (vs : List Text) (cc : CacheControl) → flag (apply_values vs cc) ≡ (says d vs || flag cc)
  unfolding apply_values
  flag-values [] cc = refl
  flag-values (v ∷ vs) cc =
      let b = cc.any || not (length v == 0) in
      let seen : CacheControl = record cc { any = b } in
      ground (
        arith,
        flag-values vs (apply_directives (split v 44) seen),
        flag-parts (split v 44) seen,
        start b cc,
      )

or_false : (b : Bool) → (b || false) ≡ b
or_false b = ground arith

-- The flags of a Cache-Control field say exactly which directives one of its values has: a part
-- between commas whose name, up to a `=`, is the directive's, in any case and among any others.
pub parse_cache_control-says :
    (vs : List Text)
    → let cc = parse_cache_control vs in
      (cc.no_store ≡ says (codes "no-store") vs)
      × (cc.no_cache ≡ says (codes "no-cache") vs)
      × (cc.is_private ≡ says (codes "private") vs)
      × (cc.is_public ≡ says (codes "public") vs)
unfolding parse_cache_control
parse_cache_control-says vs = (
  flag-values (codes "no-store") (λ c. c.no_store) apply_directive-no_store (λ b c. refl) vs unset
      ∙ or_false _,
  flag-values (codes "no-cache") (λ c. c.no_cache) apply_directive-no_cache (λ b c. refl) vs unset
      ∙ or_false _,
  flag-values (codes "private") (λ c. c.is_private) apply_directive-is_private (λ b c. refl) vs
        unset
      ∙ or_false _,
  flag-values (codes "public") (λ c. c.is_public) apply_directive-is_public (λ b c. refl) vs unset
      ∙ or_false _,
)
