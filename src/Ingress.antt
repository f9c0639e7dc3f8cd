-- ===== src/Ingress.antt =====
-- internal/ingress/ingress.go: the host name that the metadata of a service asks for. An error is
-- `none` where no caller tells errors apart. strings.ToLower is a parameter: it reads Unicode's tables,
-- and what comes out of it is validated.
use Prim.Native.Char.{code}
use Prim.Native.String.{String, len}
use firework.Base.{
  ℕ, suc, str_append, Bool, true, false, ◌&&◌, ◌||◌, not, ◌==◌, if◌then◌else◌, Option, none, some,
  List, [], ◌∷◌, eqb, leb, ltb, is_some,
}
use firework.Base.Dict.{Dict, lookup}
use firework.Base.Text.{trim_space, contains, contains_any, split_on}
use firework.Base.Decimal.{is_digit, trim_suffix}
pub mod Names
pub mod Samples

abbrev pub max_label_len : ℕ
max_label_len = 63

abbrev pub max_name_len : ℕ
max_name_len = 253

abbrev pub metadata_subdomain : String
metadata_subdomain = "subdomain"

abbrev pub metadata_host : String
metadata_host = "host"

-- The characters of labelRE: [a-z0-9], and the hyphen inside.
abbrev pub is_alnum : ℕ → Bool
is_alnum c = (leb 97 c && leb c 122) || is_digit c

-- A text of [a-z0-9-] that ends in [a-z0-9].
unfoldable pub ends_label : String → Bool
ends_label String.[] = false
ends_label (String.◌∷◌ c String.[]) = is_alnum (code c)
ends_label (String.◌∷◌ c (String.◌∷◌ d s)) =
    (is_alnum (code c) || eqb (code c) 45) && ends_label (String.◌∷◌ d s)

-- labelRE.MatchString: at most 63 characters, the first and the last of [a-z0-9].
unfoldable pub matches_label : String → Bool
unfolding ends_label
matches_label String.[] = false
matches_label (String.◌∷◌ c s) =
    is_alnum (code c) && ends_label (String.◌∷◌ c s) && leb (len (String.◌∷◌ c s)) 63

-- Whether any of the labels is refused by the loop of validateDNSName.
abbrev pub bad_label : String → Bool
bad_label l = (l == "") || ltb max_label_len (len l) || not (matches_label l)

unfoldable pub any_bad_label : List String → Bool
any_bad_label [] = false
any_bad_label (l ∷ ls) = if bad_label l then true else any_bad_label ls

unfoldable pub any_contained : String → List String → Bool
any_contained d [] = false
any_contained d (bad ∷ rest) = if contains d bad then true else any_contained d rest

abbrev pub bad_sequences : List String
bad_sequences = "://" ∷ "/" ∷ ":" ∷ "*" ∷ "?" ∷ "#" ∷ "@" ∷ "%" ∷ []

-- Whether validateDNSName returns no error.
unfoldable pub is_dns_name : String → Bool
is_dns_name d =
    if d == ""
    then false
    else if ltb max_name_len (len d)
    then false
    else if any_contained d bad_sequences
    then false
    else not (any_bad_label (split_on 46 d))

-- Whether ValidateSubdomain returns no error.
unfoldable pub is_subdomain : String → Bool
is_subdomain sub =
    if trim_space sub == ""
    then false
    else if contains sub "."
    then false
    else if ltb max_label_len (len sub)
    then false
    else matches_label sub

unfoldable pub compose_fqdn : String → String → Option String
compose_fqdn subdomain domain =
    let fqdn = str_append subdomain (str_append "." domain) in
    if ltb max_name_len (len fqdn) then none else some fqdn

abbrev pub forbidden_characters : String
forbidden_characters = "`$(){}[]<>\"'\\| \t\r\n"

-- What Resolve returns: no host asked for, a host, or an error.
pub data Resolved : Type 0 where
  no_route refused : Resolved
  routed : String → Resolved

abbrev pub resolved : Option String → Resolved
resolved none = refused
resolved (some h) = routed h

abbrev pub composed : String → Option String → Resolved
composed sub none = refused
composed sub (some domain) = resolved (compose_fqdn sub domain)

module _ (to_lower : String → String) where
  unfoldable pub normalize_domain : String → Option String
  normalize_domain raw =
      let d = trim_space raw in
      if d == ""
      then none
      else (let e = to_lower (trim_suffix d ".") in if is_dns_name e then some e else none)

  unfoldable pub validate_host : String → Option String
  validate_host raw =
      if trim_space raw == ""
      then none
      else (let h = to_lower (trim_suffix (trim_space raw) ".") in
          if contains_any h forbidden_characters
          then none
          else if is_dns_name h
          then some h
          else none)

  unfoldable pub resolve_subdomain : String → String → Resolved
  resolve_subdomain sub ingress_domain =
      if not (is_subdomain sub)
      then refused
      else if trim_space ingress_domain == ""
      then refused
      else composed sub (normalize_domain ingress_domain)

  abbrev pub resolve_from : Option String → Option String → String → Resolved
  resolve_from none none domain = no_route
  resolve_from (some host) (some sub) domain = refused
  resolve_from (some host) none domain = resolved (validate_host host)
  resolve_from none (some sub) domain = resolve_subdomain sub domain

  unfoldable pub resolve : Dict String → String → Resolved
  resolve metadata ingress_domain =
      resolve_from (lookup metadata_host metadata) (lookup metadata_subdomain metadata)
        ingress_domain
