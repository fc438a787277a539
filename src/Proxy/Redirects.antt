-- ===== src/Proxy/Redirects.antt =====
-- internal/proxy/routing.go: the tables of the redirects.
pub mod Agree
mod Tests
use ponz_proxy.Prelude.{
  ℕ, Bool, true, false, Option, none, some, List, [], ◌∷◌, ◌==◌, if◌then◌else◌, length,
}
use ponz_proxy.Prelude.Text.{Text}
use ponz_proxy.Prelude.Strings.{cut_prefix, cut}
use ponz_proxy.Prelude.Maps.{lookup, insert}
use ponz_proxy.Domain.Redirect.{Redirect, star_dot}
use ponz_proxy.Proxy.Routing.{normalize_host_header}

pub record Redirects : Type 0 where
  pub exact : List (Text × Redirect)
  pub wildcard : List (Text × Redirect)

abbrev pub no_redirects : Redirects
no_redirects = record { exact = []; wildcard = [] }

unfoldable pub enter_domain : Redirect → Text → Redirects → Redirects
enter_domain r d t = elim (cut_prefix d star_dot) [
  | some parent ↦ record t { wildcard = insert parent r t.wildcard }
  | none ↦ record t { exact = insert d r t.exact }
]

unfoldable pub enter_domains : Redirect → List Text → Redirects → Redirects
enter_domains r [] t = t
enter_domains r (d ∷ ds) t = enter_domains r ds (enter_domain r d t)

unfoldable pub enter_redirects : List Redirect → Redirects → Redirects
enter_redirects [] t = t
enter_redirects (r ∷ rs) t =
    enter_redirects rs (if r.enabled then enter_domains r r.domains t else t)

unfoldable pub redirect_of : Text → Redirects → Option Redirect
redirect_of name t = elim (lookup name t.exact) [
  | some r ↦ some r
  | none ↦ elim (cut name 46) [ none ↦ none | some (_, parent) ↦ lookup parent t.wildcard ]
]

unfoldable pub lookup_redirect : Text → Redirects → Option Redirect
lookup_redirect host_header t =
    let name = normalize_host_header host_header in
    if length name == 0 then none else redirect_of name t
