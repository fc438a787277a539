-- ===== src/Proxy/Redirects/Tests.antt =====
-- internal/proxy/routing.go: two redirects, one with a wildcard.
use ponz_proxy.Prelude.{◌≡◌, ◌⊎◌, refl, true, false, none, some, [], ◌∷◌}
use ponz_proxy.Prelude.Text.{codes, text_eq}
use ponz_proxy.Prelude.Strings.{cut_prefix, cut}
use ponz_proxy.Prelude.Maps.{lookup, insert}
use ponz_proxy.Domain.Redirect.{Redirect, any_covers}
use ponz_proxy.Proxy.Redirects.{
  no_redirects, enter_domain, enter_domains, enter_redirects, redirect_of,
}
use ponz_proxy.Proxy.Redirects.Agree.{answered, Among, redirect_of-answered}

abbrev moved : Redirect
moved = record {
  id = 1;
  name = codes "moved";
  enabled = true;
  domains = codes "old.io" ∷ codes "*.old.io" ∷ [];
  target = codes "https://new.io";
  status_code = 301;
  preserve_path = true;
  certificate_id = none;
}

covered : redirect_of (codes "a.old.io") (enter_redirects (moved ∷ []) no_redirects) ≡ some moved
unfolding redirect_of enter_redirects enter_domains enter_domain cut_prefix cut lookup insert
    text_eq
covered = refl

redirect_of-answered_example :
    let found = redirect_of (codes "a.old.io") (enter_redirects (moved ∷ []) no_redirects) in
    ((found ≡ none) × (answered (codes "a.old.io") (moved ∷ []) ≡ false))
    ⊎ ((r : Redirect) × (found ≡ some r)
        × (answered (codes "a.old.io") (moved ∷ []) ≡ true)
        × (Among r (moved ∷ [])
            × (r.enabled ≡ true)
            × (any_covers (codes "a.old.io") r.domains ≡ true)))
redirect_of-answered_example = redirect_of-answered (moved ∷ []) (codes "a.old.io")
