-- ===== src/Domain/Names/Routed.antt =====
-- internal/domain/host.go with internal/proxy/routing.go: a request for an accepted domain.
use ponz_proxy.Prelude.{◌≡◌, refl, ap, ◌∙◌, true, false, none, some, List, arith, length, ◌==◌}
use ponz_proxy.Prelude.Text.{Text}
use ponz_proxy.Prelude.Strings.{cut_prefix, trim_last, to_lower}
use ponz_proxy.Domain.Names.{validate_domain}
use ponz_proxy.Domain.Names.Plain.{
  all_named, validate_domain-Named, trim_space_named, to_lower_named, cut_last_named, no_bracket,
}
use ponz_proxy.Proxy.Routing.{
  Host, Route, star, build_routing_table, without_port, unbracketed, normalize_host_header,
  lookup_name, lookup_host,
}
use ponz_proxy.Proxy.Routing.Hosts.{Owns}
use ponz_proxy.Proxy.Routing.Exact.{lookup_name-exact}

unbracketed_named : (d : Text) → all_named d ≡ true → unbracketed d ≡ d
unfolding unbracketed without_port
unbracketed_named d all =
    rw (unbracketed, no_bracket d all, without_port, cut_last_named d all) refl

-- What arrives as the Host header for an accepted domain is looked up under the very domain.
pub normalize_host_header_named :
    (d : Text) → validate_domain d ≡ none → normalize_host_header d ≡ d
unfolding normalize_host_header
normalize_host_header_named d h =
    let (all, dot) = validate_domain-Named d h in
    ap (λ z. to_lower (trim_last (unbracketed z) 46)) (trim_space_named d all)
    ∙ ap (λ z. to_lower (trim_last z 46)) (unbracketed_named d all)
    ∙ ap to_lower dot
    ∙ to_lower_named d all

not_empty : (d : Text) → validate_domain d ≡ none → (length d == 0) ≡ false
unfolding validate_domain
not_empty d h = ground (arith, h)

-- A request that names a domain which validation accepts, not a wildcard, and which an enabled host
-- lists is looked up, among the hosts, as an enabled host that lists it. (A redirect of that name is
-- consulted before the hosts.)
pub lookup_host-validated :
    (hosts : List Host) (prev : List Route) (d : Text) (h : Host)
    → validate_domain d ≡ none
    → cut_prefix d star ≡ none
    → Owns d h hosts
    → (r : Route) × (lookup_host d (build_routing_table hosts prev) ≡ some r) × Owns d r.host hosts
unfolding lookup_host
lookup_host-validated hosts prev d h accepted plain owns =
    let (r, found, owner) = lookup_name-exact hosts prev d h plain (not_empty d accepted) owns in
    (
      r,
      ap (λ z. lookup_name z (build_routing_table hosts prev))
            (normalize_host_header_named d accepted)
          ∙ found,
      owner,
    )
