-- ===== src/Ingress/Samples.antt =====
-- internal/ingress/ingress.go on the metadata of services.
use firework.Base.{String, ◌≡◌, refl, [], ◌∷◌}
use firework.Base.Dict.{Dict, lookup}
use firework.Base.Text.{trim_space, split_on, contains_any}
use firework.Base.Decimal.{trim_suffix, has_suffix}
use firework.Ingress.{
  resolve, resolve_subdomain, routed, refused, no_route, is_subdomain, is_dns_name, validate_host,
  normalize_domain, compose_fqdn, matches_label, any_bad_label, any_contained,
}
use firework.Ingress.Names.{IsLegal, resolve-IsLegal}

abbrev pub web_metadata : Dict String
web_metadata = ("subdomain", "web") ∷ []

-- The names below are in lower case already.
abbrev pub same_text : String → String
same_text s = s

web_resolves : resolve same_text web_metadata "example.com." ≡ routed "web.example.com"
unfolding resolve lookup resolve_subdomain is_subdomain is_dns_name normalize_domain compose_fqdn
    matches_label any_bad_label any_contained trim_space split_on trim_suffix has_suffix
web_resolves = refl

needs_domain : resolve same_text web_metadata " " ≡ refused
unfolding resolve lookup resolve_subdomain is_subdomain matches_label trim_space
needs_domain = refl

both_refused : resolve same_text (("host", "a.b") ∷ web_metadata) "c.d" ≡ refused
unfolding resolve lookup
both_refused = refl

neither : resolve same_text [] "c.d" ≡ no_route
unfolding resolve lookup
neither = refl

bad_host : resolve same_text (("host", "a_b.c") ∷ []) "" ≡ refused
unfolding resolve lookup validate_host is_dns_name any_contained any_bad_label split_on
    matches_label trim_space trim_suffix has_suffix contains_any
bad_host = refl

resolve-IsLegal_example : IsLegal (resolve same_text web_metadata "example.com.")
resolve-IsLegal_example = resolve-IsLegal same_text web_metadata "example.com."
