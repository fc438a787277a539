-- ===== src/Cache/Entry.antt =====
-- internal/cache/cache.go, `Entry`: one stored response.
use ponz_proxy.Prelude.{ℕ, ◌+◌, ◌-◌, Bool, List, [], ◌∷◌, ltb, length}
use ponz_proxy.Prelude.Text.{Text, codes}
use ponz_proxy.Cache.Directives.{Header, field}
use ponz_proxy.Cache.Policy.{Storability, copy_storable_header}

pub record Entry : Type 0 where
  pub status : ℕ
  pub header : Header
  pub body : Text
  pub etag : Text
  pub last_modified : Text
  pub public : Bool
  pub stored_at : ℕ
  pub expires_at : ℕ
  pub size : ℕ

abbrev pub entry_overhead : ℕ
entry_overhead = 256

unfoldable pub values_size : Text → List Text → ℕ
values_size k [] = 0
values_size k (v ∷ vs) = length k + length v + 4 + values_size k vs

unfoldable pub header_size : Header → ℕ
header_size [] = 0
header_size ((k, vs) ∷ h) = values_size k vs + header_size h

unfoldable pub new_entry : ℕ → Header → Text → Storability → ℕ → Entry
new_entry status header body s now =
    let stored = copy_storable_header header in
    record {
      status = status;
      header = stored;
      body = body;
      etag = field (codes "Etag") stored;
      last_modified = field (codes "Last-Modified") stored;
      public = s.public;
      stored_at = now;
      expires_at = s.expires_at;
      size = length body + entry_overhead + header_size stored;
    }

unfoldable pub fresh : ℕ → Entry → Bool
fresh now e = ltb now e.expires_at

-- A clock that went backwards gives the age 0.
unfoldable pub age : ℕ → Entry → ℕ
age now e = now - e.stored_at
