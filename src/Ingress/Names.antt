-- ===== src/Ingress/Names.antt =====
-- internal/ingress/ingress.go: the host name that Resolve returns is a legal one.
use Prim.Native.String.{String, len}
use text.Mathlib.TextLemmas.{cons-ne-nil}
use firework.Base.{
  List, ◌∷◌, str_append, Bool, true, false, ◌≡◌, refl, ◌&&◌, not, ◌==◌, Option, none, some, ◌∷◌,
  leb, ltb, arith, Bool-cases, inl, inr, if_ind, eq_iff,
}
use firework.Base.Dict.{Dict, lookup}
use firework.Base.Text.{trim_space, contains_any, split_on, contains_char}
use firework.Base.Decimal.{trim_suffix}
use firework.Base.Splits.{split-append}
use firework.Ingress.{
  Resolved, routed, resolved, composed, resolve, resolve_from, resolve_subdomain, is_dns_name,
  is_subdomain, compose_fqdn, normalize_domain, validate_host, any_bad_label, bad_label,
  matches_label, ends_label, max_name_len, max_label_len, forbidden_characters, metadata_host,
  metadata_subdomain,
}

-- A legal host name: at most 253 bytes, and between its dots only DNS labels.
abbrev pub is_host_name : String → Bool
is_host_name d = leb (len d) max_name_len && not (any_bad_label (split_on 46 d))

abbrev pub IsLegal : Resolved → Type 0
IsLegal (routed h) = is_host_name h ≡ true
IsLegal _ = Unit

is_dns_name-is_host_name : (d : String) → is_dns_name d ≡ true → is_host_name d ≡ true
unfolding is_dns_name
is_dns_name-is_host_name d h = ground (arith, h)

ends_label-contains_char : (s : String) → ends_label s ≡ true → contains_char 46 s ≡ false
unfolding ends_label contains_char
ends_label-contains_char String.[] h = refl
ends_label-contains_char (String.◌∷◌ c String.[]) h = ground (arith, h)
ends_label-contains_char (String.◌∷◌ c (String.◌∷◌ d s)) h =
    rw (ends_label-contains_char (String.◌∷◌ d s) (ground (arith, h))) (ground (arith, h))

matches_label-contains_char : (s : String) → matches_label s ≡ true → contains_char 46 s ≡ false
unfolding matches_label
matches_label-contains_char String.[] h = absurd (ground (arith, h))
matches_label-contains_char (String.◌∷◌ c s) h =
    ends_label-contains_char (String.◌∷◌ c s) (ground (arith, h))

matches_label-bad_label :
    (s : String) → matches_label s ≡ true → ltb max_label_len (len s) ≡ false → bad_label s ≡ false
unfolding matches_label
matches_label-bad_label String.[] h l = absurd (ground (arith, h))
matches_label-bad_label (String.◌∷◌ c s) h l =
    let filled : (String.◌∷◌ c s == "") ≡ false = elim (Bool-cases (String.◌∷◌ c s == "")) [
      | inl e ↦ absurd (cons-ne-nil c s ((eq_iff (String.◌∷◌ c s) "").0 e))
      | inr e ↦ e
    ] in
    rw filled (ground (arith, h, l))

any_bad_label-cons :
    (l : String) (ls : List String)
    → bad_label l ≡ false
    → any_bad_label ls ≡ false
    → any_bad_label (l ∷ ls) ≡ false
unfolding any_bad_label
any_bad_label-cons l ls h k = rw (h, k) refl

good_labels : (d : String) → is_host_name d ≡ true → any_bad_label (split_on 46 d) ≡ false
good_labels d k = ground (arith, k)

-- A label before a legal domain, and not too long together, makes a legal name.
compose_fqdn-IsLegal :
    (sub domain : String)
    → is_subdomain sub ≡ true
    → is_host_name domain ≡ true
    → IsLegal (resolved (compose_fqdn sub domain))
unfolding is_subdomain compose_fqdn
compose_fqdn-IsLegal sub domain h k =
    let fqdn : String = str_append sub (str_append "." domain) in
    let label : matches_label sub ≡ true = ground (arith, h) in
    let good : bad_label sub ≡ false = matches_label-bad_label sub label (ground (arith, h)) in
    if_ind (λ o. IsLegal (resolved o)) (ltb max_name_len (len fqdn)) (λ _. tt)
      (λ e.
        rw
          (
            split-append sub domain (matches_label-contains_char sub label),
            any_bad_label-cons sub (split_on 46 domain) good (good_labels domain k),
          )
          (ground (arith, e)))

module _ (to_lower : String → String) where
  validate_host-IsLegal : (raw : String) → IsLegal (resolved (validate_host to_lower raw))
  unfolding validate_host
  validate_host-IsLegal raw =
      let h : String = to_lower (trim_suffix (trim_space raw) ".") in
      if_ind (λ o. IsLegal (resolved o)) (trim_space raw == "") (λ _. tt)
        (λ _.
          if_ind (λ o. IsLegal (resolved o)) (contains_any h forbidden_characters) (λ _. tt)
            (λ _.
              if_ind (λ o. IsLegal (resolved o)) (is_dns_name h) (λ e. is_dns_name-is_host_name h e)
                (λ _. tt)))

  normalize_domain-IsLegal : (raw : String) → IsLegal (resolved (normalize_domain to_lower raw))
  unfolding normalize_domain
  normalize_domain-IsLegal raw =
      let d : String = to_lower (trim_suffix (trim_space raw) ".") in
      if_ind (λ o. IsLegal (resolved o)) (trim_space raw == "") (λ _. tt)
        (λ _.
          if_ind (λ o. IsLegal (resolved o)) (is_dns_name d) (λ e. is_dns_name-is_host_name d e)
            (λ _. tt))

  composed-IsLegal :
      (sub : String) (domain : Option String)
      → is_subdomain sub ≡ true
      → IsLegal (resolved domain)
      → IsLegal (composed sub domain)
  composed-IsLegal sub none h k = tt
  composed-IsLegal sub (some domain) h k = compose_fqdn-IsLegal sub domain h k

  resolve_subdomain-IsLegal :
      (sub domain : String) → IsLegal (resolve_subdomain to_lower sub domain)
  unfolding resolve_subdomain
  resolve_subdomain-IsLegal sub domain =
      if_ind IsLegal (not (is_subdomain sub)) (λ _. tt)
        (λ e.
          if_ind IsLegal (trim_space domain == "") (λ _. tt)
            (λ _.
              composed-IsLegal sub (normalize_domain to_lower domain) (ground (arith, e))
                (normalize_domain-IsLegal domain)))

  resolve_from-IsLegal :
      (host sub : Option String) (domain : String) → IsLegal (resolve_from to_lower host sub domain)
  resolve_from-IsLegal none none domain = tt
  resolve_from-IsLegal (some host) (some sub) domain = tt
  resolve_from-IsLegal (some host) none domain = validate_host-IsLegal host
  resolve_from-IsLegal none (some sub) domain = resolve_subdomain-IsLegal sub domain

  -- Whatever the metadata and the domain of the agent are, a host that Resolve returns is a legal
  -- name: at most 253 bytes, and between its dots labels of at most 63 of [a-z0-9-] that neither
  -- begin nor end with a hyphen.
  pub resolve-IsLegal :
      (metadata : Dict String) (ingress_domain : String)
      → IsLegal (resolve to_lower metadata ingress_domain)
  unfolding resolve
  resolve-IsLegal metadata ingress_domain =
      resolve_from-IsLegal (lookup metadata_host metadata) (lookup metadata_subdomain metadata)
        ingress_domain
