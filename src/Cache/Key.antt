-- ===== src/Cache/Key.antt =====
-- internal/cache/cache.go, `Key`, and Go's map over such keys as an association list.
use ponz_proxy.Prelude.{
  ◌≡◌, ◌↔◌, Bool, true, not, ◌&&◌, Option, none, some, List, [], ◌∷◌, arith, if◌then◌else◌, bool_ne,
}
use ponz_proxy.Prelude.Text.{Text, text_eq, text_eq_iff}
use ponz_proxy.Cache.Revalidation.{Encodings}

pub record Key : Type 0 where
  pub host : Text
  pub path : Text
  pub query : Text
  pub enc : Encodings

abbrev same : Bool → Bool → Bool
same a b = not (bool_ne a b)

unfoldable pub encodings_eq : Encodings → Encodings → Bool
encodings_eq a b =
    same a.gzip b.gzip && same a.brotli b.brotli && same a.deflate b.deflate && same a.zstd b.zstd

unfoldable pub key_eq : Key → Key → Bool
key_eq j k =
    text_eq j.host k.host
    && text_eq j.path k.path
    && text_eq j.query k.query
    && encodings_eq j.enc k.enc

encodings_eq_iff : (a b : Encodings) → (encodings_eq a b ≡ true) ↔ (a ≡ b)
unfolding encodings_eq
encodings_eq_iff a b = ground arith

pub key_eq_iff : (j k : Key) → (key_eq j k ≡ true) ↔ (j ≡ k)
unfolding key_eq
key_eq_iff j k = ground (
  arith,
  text_eq_iff j.host k.host,
  text_eq_iff j.path k.path,
  text_eq_iff j.query k.query,
  encodings_eq_iff j.enc k.enc,
)

module _ {ℓ} {V : Type ℓ} where
  unfoldable pub find : Key → List (Key × V) → Option V
  find k [] = none
  find k ((j, v) ∷ m) = if key_eq j k then some v else find k m

  unfoldable pub delete : Key → List (Key × V) → List (Key × V)
  delete k [] = []
  delete k ((j, v) ∷ m) = if key_eq j k then delete k m else (j, v) ∷ delete k m

  abbrev pub insert : Key → V → List (Key × V) → List (Key × V)
  insert k v m = (k, v) ∷ delete k m

module _ {ℓ} {V : Type ℓ} where
  pub find-delete :
      (j k : Key) (m : List (Key × V))
      → find j (delete k m) ≡ (if key_eq j k then none else find j m)
  unfolding find delete
  find-delete j k [] = ground arith
  find-delete j k ((i, v) ∷ m) =
      grind (arith, key_eq_iff i j, key_eq_iff i k, key_eq_iff j k, find-delete j k m)

  pub find-insert :
      (j k : Key) (v : V) (m : List (Key × V))
      → find j (insert k v m) ≡ (if key_eq j k then some v else find j m)
  unfolding find
  find-insert j k v m = grind (arith, key_eq_iff j k, key_eq_iff k j, find-delete j k m)

module _ {ℓ} {V : Type ℓ} where
  abbrev pub Distinct : List (Key × V) → Type ℓ
  Distinct [] = Unit {ℓ}
  Distinct ((k, v) ∷ m) = (find k m ≡ none) × Distinct m

  pub delete-Distinct : (k : Key) (m : List (Key × V)) → Distinct m → Distinct (delete k m)
  unfolding delete
  delete-Distinct k [] d = d
  delete-Distinct k ((j, v) ∷ m) (n, d) =
      ground (arith, n, find-delete j k m, delete-Distinct k m d)

  pub insert-Distinct :
      (k : Key) (v : V) (m : List (Key × V)) → Distinct m → Distinct (insert k v m)
  insert-Distinct k v m d =
      (ground (arith, find-delete k k m, key_eq_iff k k), delete-Distinct k m d)
