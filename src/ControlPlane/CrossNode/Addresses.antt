-- ===== src/ControlPlane/CrossNode/Addresses.antt =====
-- applyHostIPAndCrossNodeLinks of internal/controlplane/controller.go: what a linked variable holds.
use firework.Base.{
  String, str_append, Bool, true, false, ◌≡◌, refl, ap, subst, ◌∙◌, ◌&&◌, not, ◌==◌, if◌then◌else◌,
  Option, some, List, [], ◌∷◌, or_else, if_ind, Bool-cases, inl, inr, eq_iff, eq_refl,
}
use firework.Base.Dict.{Dict, lookup, lookup-insert}
use firework.Config.{CrossNodeLink}
use firework.ControlPlane.CrossNode.{address, set_link, set_links}

-- The addresses for one variable, in the order of the links.
unfoldable pub addresses : Dict String → String → List CrossNodeLink → List String
addresses ips env [] = []
addresses ips env (link ∷ links) =
    let ip = or_else (lookup link.service ips) "" in
    let rest = addresses ips env links in
    if not (ip == "") && (link.env == env) then address link ip ∷ rest else rest

-- The first address replaces what a variable held, and the others follow it after commas.
unfoldable pub joined : String → List String → String
joined text [] = text
joined text (a ∷ rest) = joined (str_append text (str_append "," a)) rest

-- What a variable holds that held `v` before, and was set already or not.
abbrev pub linked : Option String → Bool → List String → Option String
linked v was_set [] = v
linked v true (a ∷ rest) = some (joined (or_else v "") (a ∷ rest))
linked v false (a ∷ rest) = some (joined a rest)

linked-some :
    (text : String) (rest : List String) → linked (some text) true rest ≡ some (joined text rest)
unfolding joined
linked-some text [] = refl
linked-some text (a ∷ rest) = refl

-- A link for another variable, and one for this one.
abbrev Other : String → Dict String → Dict Bool → Dict String × Dict Bool → Type 0
Other env vars set st =
    (lookup env st.0 ≡ lookup env vars)
    × (or_else (lookup env st.1) false ≡ or_else (lookup env set) false)

set_link-Other :
    (link : CrossNodeLink) (ip env : String) (vars : Dict String) (set : Dict Bool)
    → (link.env == env) ≡ false
    → Other env vars set (set_link link ip (vars, set))
set_link-Other link ip env vars set h =
    if_ind (Other env vars set) (or_else (lookup link.env set) false)
      (λ _. (lookup-insert link.env env _ vars ∙ rw h refl, refl))
      (λ _. (
        lookup-insert link.env env _ vars ∙ rw h refl,
        ap (λ o. or_else o false) {y = lookup env set}
            (lookup-insert link.env env true set ∙ rw h refl),
      ))

abbrev This : String → String → Dict String → Dict Bool → Dict String × Dict Bool → Type 0
This env a vars set st =
    (lookup env st.0
      ≡ some (
          if or_else (lookup env set) false
          then str_append (or_else (lookup env vars) "") (str_append "," a)
          else a))
    × (or_else (lookup env st.1) false ≡ true)

set_link-This :
    (link : CrossNodeLink) (ip : String) (vars : Dict String) (set : Dict Bool)
    → This link.env (address link ip) vars set (set_link link ip (vars, set))
set_link-This link ip vars set = elim (Bool-cases (or_else (lookup link.env set) false)) [
  | inl e ↦ rw e (lookup-insert link.env link.env _ vars ∙ rw (eq_refl link.env) refl, e)
  | inr e ↦ rw e (
    lookup-insert link.env link.env _ vars ∙ rw (eq_refl link.env) refl,
    ap (λ o. or_else o false) {y = some true}
        (lookup-insert link.env link.env true set ∙ rw (eq_refl link.env) refl),
  )
]

-- The address of a link goes where it belongs.
linked-first :
    (v : Option String) (was_set : Bool) (a : String) (rest : List String)
    → linked (some (if was_set then str_append (or_else v "") (str_append "," a) else a)) true rest
      ≡ linked v was_set (a ∷ rest)
unfolding joined
linked-first v true a rest = linked-some (str_append (or_else v "") (str_append "," a)) rest
linked-first v false a rest = linked-some a rest

set_links-linked :
    (ips : Dict String) (env : String) (links : List CrossNodeLink) (vars : Dict String)
    (set : Dict Bool)
    → lookup env (set_links ips links (vars, set)).0
      ≡ linked (lookup env vars) (or_else (lookup env set) false) (addresses ips env links)
unfolding set_links addresses
set_links-linked ips env [] vars set = refl
set_links-linked ips env (link ∷ links) vars set =
    let ip : String = or_else (lookup link.service ips) "" in
    let st = set_link link ip (vars, set) in
    let rest = addresses ips env links in
    elim (Bool-cases (ip == "")) [
      | inl e ↦ rw (set_links, e) (set_links-linked ips env links vars set)
      | inr e ↦ elim (Bool-cases (link.env == env)) [
        | inl t ↦
            let this : This env (address link ip) vars set st =
              subst (λ k. This k (address link ip) vars set st) ((eq_iff link.env env).0 t)
                (set_link-This link ip vars set) in
            rw (set_links, e, t)
              (set_links-linked ips env links st.0 st.1
                ∙ rw (this.0, this.1)
                    (linked-first (lookup env vars) (or_else (lookup env set) false)
                      (address link ip) rest))
        | inr t ↦
            let other = set_link-Other link ip env vars set t in
            rw (set_links, e, t)
              (set_links-linked ips env links st.0 st.1 ∙ rw (other.0, other.1) refl)
      ]
    ]

-- A variable of the links of a service holds the addresses of the linked services whose node has one, in the order of
-- the links, after commas but the first, in place of what it held; without any it keeps what it held.
pub set_links-addresses :
    (ips : Dict String) (env : String) (links : List CrossNodeLink) (vars : Dict String)
    → lookup env (set_links ips links (vars, [])).0
      ≡ linked (lookup env vars) false (addresses ips env links)
unfolding lookup
set_links-addresses ips env links vars = set_links-linked ips env links vars []
