-- ===== src/Proxy/Caching/Lengths.antt =====
-- internal/proxy/cache.go, `serveCached`: the length that a reply declares.
use ponz_proxy.Prelude.{
  ℕ, ◌≤◌, ◌≡◌, refl, ap, ◌∙◌, ◌⊎◌, inl, inr, Bool, true, false, Option, none, some, [], ◌∷◌, arith,
  if◌then◌else◌, length,
}
use ponz_proxy.Prelude.Int.{ℤ, pos, negsuc}
use ponz_proxy.Prelude.Text.{Text, codes, text_eq_iff}
use ponz_proxy.Prelude.Maps.{lookup, insert, lookup-insert}
use ponz_proxy.Prelude.Fields.{parse_int, itoa, max_int64}
use ponz_proxy.Prelude.Fields.Decimal.{parse_int-itoa}
use ponz_proxy.Cache.Directives.{Header, values, field}
use ponz_proxy.Cache.Policy.{Request, content_length}
use ponz_proxy.Cache.Revalidation.{not_modified}
use ponz_proxy.Cache.Entry.{Entry}
use ponz_proxy.Proxy.Caching.{Reply, served_header, serve_cached}

field-insert : (key v : Text) (h : Header) → field key (insert key (v ∷ []) h) ≡ v
unfolding field values
field-insert key v h =
    let there : lookup key (insert key (v ∷ []) h) ≡ some (v ∷ []) =
      ground (arith, lookup-insert key key (v ∷ []) h, text_eq_iff key key) in
    rw (field, values, there) refl

content_length-insert :
    (n : ℕ) (h : Header)
    → n ≤ max_int64
    → content_length (insert (codes "Content-Length") (itoa n ∷ []) h) ≡ some n
unfolding content_length
content_length-insert n h small =
    ap (λ z. read (parse_int z)) (field-insert (codes "Content-Length") (itoa n) h)
    ∙ ap read (parse_int-itoa n small)
  where
    read : Option ℤ → Option ℕ
    read o = elim o [ none ↦ none | some (negsuc n) ↦ none | some (pos n) ↦ some n ]

-- A reply from the cache is a 304 without a body, or has the stored status and body, perhaps empty,
-- and declares the length of that body in digits that `Storable` reads back.
pub serve_cached-length :
    (parse_time : Text → Option ℕ) (hsts : ℕ) (r : Request) (e : Entry) (now : ℕ) (h : Header)
    → length e.body ≤ max_int64
    → let reply = serve_cached parse_time hsts r e now h in
      ((reply.status ≡ 304) × (reply.body ≡ []))
      ⊎ ((reply.status ≡ e.status)
          × (reply.body ≡ e.body)
          × (content_length reply.header ≡ some (length reply.body)))
unfolding serve_cached
serve_cached-length parse_time hsts r e now h small =
    go (not_modified parse_time e.etag e.last_modified r.header)
  where
    shown : Header
    shown = served_header hsts r e now h

    go :
        (b : Bool)
        → let reply : Reply =
            if b then record { status = 304; header = shown; body = [] } else record {
              status = e.status;
              header = insert (codes "Content-Length") (itoa (length e.body) ∷ []) shown;
              body = e.body;
            } in
          ((reply.status ≡ 304) × (reply.body ≡ []))
          ⊎ ((reply.status ≡ e.status)
              × (reply.body ≡ e.body)
              × (content_length reply.header ≡ some (length reply.body)))
    go true = inl (refl, refl)
    go false = inr (refl, refl, content_length-insert (length e.body) shown small)
