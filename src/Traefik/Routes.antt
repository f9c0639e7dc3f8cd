-- ===== src/Traefik/Routes.antt =====
-- internal/traefik/traefik.go: a host name is claimed by one file, is a legal name, and a route of another
-- node replaces no file.
use firework.Base.{
  ℕ, String, true, false, ◌≡◌, refl, ap, sym, ◌∙◌, subst, ◌==◌, if◌then◌else◌, Option, some, List,
  is_some, arith, if_ind, Bool-cases, Option-cases, inl, inr, eq_iff, eq_refl, ◌⊎◌,
}
use mathlib.Core.Option.{some-ne-none, some-injective}
use firework.Base.Dict.{Dict, lookup, insert, lookup-insert}
use firework.Config.{ServiceConfig, NodeConfig}
use firework.Ingress.Names.{is_host_name}
use firework.Traefik.{Rendering, render_local, render_remote, nothing_rendered, render}
use firework.Traefik.Render.{Ends, AddsLocal, render_local-Ends, render_remote-add}

-- Every file routes a legal host that has an owner, and no two files route one host.
pub record IsClaimed {C : Type 0} (host_of : C → String) (r : Rendering C) : Type 0 where
  pub legal :
      (file : String) (c : C) → lookup file r.desired ≡ some c → is_host_name (host_of c) ≡ true
  pub owned :
      (file : String) (c : C)
      → lookup file r.desired ≡ some c
      → is_some (lookup (host_of c) r.owner) ≡ true
  pub once :
      (f g : String) (c d : C)
      → lookup f r.desired ≡ some c
      → lookup g r.desired ≡ some d
      → host_of c ≡ host_of d
      → f ≡ g

nothing-IsClaimed : {C : Type 0} (host_of : C → String) → IsClaimed host_of nothing_rendered
unfolding lookup
nothing-IsClaimed host_of = record {
  legal = λ file c e. absurd (some-ne-none c (sym e));
  owned = λ file c e. absurd (some-ne-none c (sym e));
  once = λ f g c d e e' h. absurd (some-ne-none c (sym e));
}

-- A file that is there after one was added is the new one or was there before.
insert-found :
    {C : Type 0} (file sought : String) (new c : C) (files : Dict C)
    → lookup sought (insert file new files) ≡ some c
    → (file ≡ sought) × (new ≡ c) ⊎ (lookup sought files ≡ some c)
insert-found file sought new c files e =
    let found = sym (lookup-insert file sought new files) ∙ e in
    elim (Bool-cases (file == sought)) [
      | inl t ↦
          inl ((eq_iff file sought).0 t, some-injective new c (rw (t, if◌then◌else◌) at found))
      | inr t ↦ inr (rw (t, if◌then◌else◌) at found)
    ]

-- A host that is routed is not free.
taken :
    {C : Type 0} (host_of : C → String) (r : Rendering C) (c : C) (file : String) {host : String}
    → IsClaimed host_of r
    → lookup file r.desired ≡ some c
    → host_of c ≡ host
    → is_some (lookup host r.owner) ≡ false
    → ⊥
taken host_of r c file k e t free = absurd (ground (arith, rw t at (k.owned file c e), free))

with_file-IsClaimed : {C : Type 0} (host_of : C → String) → AddsLocal host_of (IsClaimed host_of)
with_file-IsClaimed host_of file host identity c r h law free k = record {
  legal = λ f d e. elim (insert-found file f c d r.desired e) [
    | inl (_, same) ↦ subst (λ x. is_host_name x ≡ true) (sym law ∙ ap host_of same) h
    | inr old ↦ k.legal f d old
  ];
  owned = λ f d e. elim (insert-found file f c d r.desired e) [
    | inl (_, same) ↦
        rw (lookup-insert host (host_of d) identity r.owner, sym same, law, eq_refl host) refl
    | inr old ↦
        rw (lookup-insert host (host_of d) identity r.owner) (ground (arith, k.owned f d old))
  ];
  once = λ f g d d' e e' t. elim (insert-found file f c d r.desired e) [
    | inl (a, same) ↦ elim (insert-found file g c d' r.desired e') [
      | inl (b, _) ↦ sym a ∙ b
      | inr old ↦ absurd (taken host_of r d' g k old (sym t ∙ sym (ap host_of same) ∙ law) free)
    ]
    | inr old ↦ elim (insert-found file g c d' r.desired e') [
      | inl (_, same) ↦ absurd (taken host_of r d f k old (t ∙ sym (ap host_of same) ∙ law) free)
      | inr old' ↦ k.once f g d d' old old' t
    ]
  ];
}

kept_by_insert :
    {C : Type 0} (file f : String) (new c : C) (files : Dict C)
    → is_some (lookup file files) ≡ false
    → lookup f files ≡ some c
    → lookup f (insert file new files) ≡ some c
kept_by_insert file f new c files fresh k = rw (lookup-insert file f new files) (
    if_ind (λ o. o ≡ some c) (file == f)
      (λ e. absurd (ground (arith, rw ((eq_iff file f).0 e, k) at fresh))) (λ _. k))

-- A file is there.
abbrev Keeps : {C : Type 0} → String → C → Rendering C → Type 0
Keeps file c r = lookup file r.desired ≡ some c

module _ {C : Type 0} (host_of : C → String) (to_lower : String → String)
    (marshal : String → String → String → ℕ → Option C)
    (sort_nodes : List NodeConfig → List NodeConfig)
    (sort_services : List ServiceConfig → List ServiceConfig) (ingress_domain : String)
    (marshal_host : (name host address : String) (port : ℕ) (c : C)
      → marshal name host address port ≡ some c
      → host_of c ≡ host) where
  render-IsClaimed :
      (services : List ServiceConfig) (nodes : List NodeConfig)
      → Ends
          (IsClaimed host_of)
          (render to_lower marshal sort_nodes sort_services ingress_domain services nodes)
  unfolding render Ends
  render-IsClaimed services nodes =
      let local =
        render_local-Ends host_of to_lower marshal sort_nodes sort_services ingress_domain
          marshal_host (IsClaimed host_of) services nothing_rendered (with_file-IsClaimed host_of)
          (nothing-IsClaimed host_of) in
      elim (Option-cases (
        render_local to_lower marshal sort_nodes sort_services ingress_domain services
          nothing_rendered)) [
            | inl e ↦ rw e tt
            | inr (r, e) ↦ rw e (
                render_remote-add host_of to_lower marshal sort_nodes sort_services ingress_domain
                  marshal_host (IsClaimed host_of) nodes r
                  (λ file host identity c r' h law free fresh k.
                    with_file-IsClaimed host_of file host identity c r' h law free k)
                  (subst (Ends (IsClaimed host_of)) e local))
          ]

  -- The printer keeps the host in the file. Then no two of the files that are rendered, local and remote
  -- together, route one host.
  pub render-host_once :
      (services : List ServiceConfig) (nodes : List NodeConfig) (r : Rendering C) (f g : String)
      (c d : C)
      → render to_lower marshal sort_nodes sort_services ingress_domain services nodes ≡ some r
      → lookup f r.desired ≡ some c
      → lookup g r.desired ≡ some d
      → host_of c ≡ host_of d
      → f ≡ g
  unfolding Ends
  render-host_once services nodes r f g c d e =
      IsClaimed.once (subst (Ends (IsClaimed host_of)) e (render-IsClaimed services nodes)) f g c d

  -- The printer keeps the host in the file. Then every file that is rendered routes a legal host name.
  pub render-is_host_name :
      (services : List ServiceConfig) (nodes : List NodeConfig) (r : Rendering C) (f : String)
      (c : C)
      → render to_lower marshal sort_nodes sort_services ingress_domain services nodes ≡ some r
      → lookup f r.desired ≡ some c
      → is_host_name (host_of c) ≡ true
  unfolding Ends
  render-is_host_name services nodes r f c e =
      IsClaimed.legal (subst (Ends (IsClaimed host_of)) e (render-IsClaimed services nodes)) f c

  -- A route of another node replaces no file: what is rendered for the services of the node itself
  -- stands in what is rendered with the other nodes.
  pub render_remote-keeps :
      (nodes : List NodeConfig) (r : Rendering C) (f : String) (c : C)
      → lookup f r.desired ≡ some c
      → lookup f
          (render_remote to_lower marshal sort_nodes sort_services ingress_domain nodes r).desired
        ≡ some c
  render_remote-keeps nodes r f c e =
      render_remote-add host_of to_lower marshal sort_nodes sort_services ingress_domain
        marshal_host (Keeps f c) nodes r
        (λ file host identity new r' h law free fresh k.
          kept_by_insert file f new c r'.desired fresh k)
        e
