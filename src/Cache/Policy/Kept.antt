-- ===== src/Cache/Policy/Kept.antt =====
-- internal/cache/policy.go, `CopyStorableHeader`: which fields a stored response has.
use ponz_proxy.Prelude.{
  ◌≡◌, sym, ◌∙◌, true, false, not, Option, none, some, List, [], ◌∷◌, arith, if◌then◌else◌,
}
use ponz_proxy.Prelude.Text.{Text, codes, text_eq_iff}
use ponz_proxy.Prelude.Strings.{trim_space}
use ponz_proxy.Prelude.Maps.{lookup, Distinct, lookup-keep}
use ponz_proxy.Prelude.Fields.{equal_fold, split}
use ponz_proxy.Prelude.Entries.{member}
use ponz_proxy.Cache.Directives.{Header, values}
use ponz_proxy.Cache.Policy.{
  named_by_connection, named_by_any, hop_by_hop, fold_member, skip_header, copy_storable_header,
}

unnamed_by_connection :
    (key : Text) (names : List Text) (name : Text)
    → named_by_connection key names ≡ false
    → member name names ≡ true
    → equal_fold (trim_space name) key ≡ false
unfolding named_by_connection member
unnamed_by_connection key [] name off there = ground (arith, there)
unnamed_by_connection key (n ∷ names) name off there =
    grind (arith, text_eq_iff name n, unnamed_by_connection key names name, off, there)

unnamed_by_any :
    (key : Text) (vs : List Text) (v name : Text)
    → named_by_any key vs ≡ false
    → member v vs ≡ true
    → member name (split v 44) ≡ true
    → equal_fold (trim_space name) key ≡ false
unfolding named_by_any member
unnamed_by_any key [] v name off there inside = ground (arith, there)
unnamed_by_any key (w ∷ vs) v name off there inside = grind (
  arith,
  text_eq_iff v w,
  unnamed_by_connection key (split v 44) name,
  unnamed_by_any key vs v name,
  off,
  there,
  inside,
)

skip_header-parts :
    (h : Header) (key : Text)
    → skip_header h key ≡ false
    → (equal_fold key (codes "Set-Cookie") ≡ false)
      × (fold_member key hop_by_hop ≡ false)
      × (named_by_any key (values (codes "Connection") h) ≡ false)
unfolding skip_header
skip_header-parts h key s = ground (arith, s)

-- A field of a stored response is the origin's, and is not Set-Cookie in any spelling, nor a
-- hop-by-hop field, nor one that a value of Connection names.
pub lookup-copy_storable_header :
    (h : Header) (key : Text) (vs : List Text)
    → Distinct h
    → lookup key (copy_storable_header h) ≡ some vs
    → (lookup key h ≡ some vs)
      × (equal_fold key (codes "Set-Cookie") ≡ false)
      × (fold_member key hop_by_hop ≡ false)
      × ((v name : Text)
          → member v (values (codes "Connection") h) ≡ true
          → member name (split v 44) ≡ true
          → equal_fold (trim_space name) key ≡ false)
unfolding copy_storable_header
lookup-copy_storable_header h key vs d found =
    let same = lookup-keep (λ j ws. not (skip_header h j)) key h d in
    let (there, kept) = through h key vs (lookup key h) (sym same ∙ found) in
    let (cookie, hop, named) = skip_header-parts h key kept in
    (
      there,
      cookie,
      hop,
      (λ v name. unnamed_by_any key (values (codes "Connection") h) v name named),
    )
  where
    through :
        (h : Header) (key : Text) (vs : List Text) (o : Option (List Text))
        → (elim o [ none ↦ none | some ws ↦ if not (skip_header h key) then some ws else none ])
          ≡ some vs
        → (o ≡ some vs) × (skip_header h key ≡ false)
    through h key vs none e = ground (arith, e)
    through h key vs (some ws) e = ground (arith, e)
