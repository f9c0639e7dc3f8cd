-- ===== src/Reconciler/Plan/Actions.antt =====
-- The actions of a whole plan, name by name (internal/reconciler/reconciler.go: Plan).
use firework.Base.{
  String, ◌≡◌, refl, ap, sym, subst, ◌∙◌, ◌==◌, if◌then◌else◌, Option, none, some, List, [], ◌∷◌,
  ◌++◌, arith, eq_iff, Bool-cases, inl, inr, All, All-map, All-append,
}
use firework.Config.{ServiceConfig, NodeConfig}
use firework.Reconciler.{Action, Host, plan_service, plan_delete, plan_desired, plan_deletes, plan}
use firework.Reconciler.Laws.{IsWellNamed}
use firework.Reconciler.Plan.{
  Each-map, HasNoRepeats, HasNoTwins, HasNoTwins-service_of, IsDistinct, IsFor, IsNamed, IsRid,
  action_on, action_on-prepend, first_again, first_of, has, plan_delete-IsRid, plan_delete-desired,
  plan_service-IsFor, prepend-All, prepend-IsDistinct, prepend_append, service_of,
  service_of-desired,
}

module _ {W : Type 0} (h : Host W) (w : W)
    (all_named : (n : String) → IsNamed n (h.instance_of w n)) where
  abbrev pub wanted : Option ServiceConfig → Option Action
  wanted none = none
  wanted (some svc) = plan_service h.sort_slice (h.instance_of w svc.name) svc

  -- The action on a name in a plan: what the desired service of that name wants, or what comes after.
  pub action_on-plan_desired :
      (services : List ServiceConfig) (ds : List Action) (n : String)
      → HasNoTwins services
      → action_on (plan_desired h w services ++ ds) n
        ≡ first_of (wanted (service_of services n)) (action_on ds n)
  unfolding plan_desired
  action_on-plan_desired [] ds n d = refl
  action_on-plan_desired (s ∷ services) ds n (alone, d) =
      let o = plan_service h.sort_slice (h.instance_of w s.name) s in
      let rest = plan_desired h w services ++ ds in
      let ih = action_on-plan_desired services ds n d in
      ap (λ actions. action_on actions n) (prepend_append o (plan_desired h w services) ds)
      ∙ action_on-prepend o rest s.name n (
          Each-map (IsFor s) (λ a. a.service.name ≡ s.name) o (λ a p. p.0)
            (plan_service-IsFor h.sort_slice (h.instance_of w s.name) s (all_named s.name)))
      ∙ elim (Bool-cases (s.name == n)) [
        | inl e ↦ rw e (
            ap (first_of o) (
              ih
              ∙ ap (λ found. first_of (wanted found) (action_on ds n))
                  (subst (λ k. service_of services k ≡ none) ((eq_iff s.name n).0 e) alone)))
        | inr e ↦ rw e ih
      ]

  pub action_on-plan_deletes :
      (desired : List ServiceConfig) (names : List String) (n : String)
      → action_on (plan_deletes h w desired names) n
        ≡ (if has names n then plan_delete desired n (h.instance_of w n) else none)
  unfolding plan_deletes
  action_on-plan_deletes desired [] n = refl
  action_on-plan_deletes desired (name ∷ names) n =
      let o = plan_delete desired name (h.instance_of w name) in
      let ih = action_on-plan_deletes desired names n in
      action_on-prepend o (plan_deletes h w desired names) name n (
        Each-map (IsRid name) (λ a. a.service.name ≡ name) o (λ a p. p.0)
          (plan_delete-IsRid desired name (h.instance_of w name) (all_named name)))
      ∙ elim (Bool-cases (name == n)) [
        | inl e ↦ rw e (
            ap
              (λ k.
                first_of (plan_delete desired k (h.instance_of w k))
                  (action_on (plan_deletes h w desired names) n))
              ((eq_iff name n).0 e)
            ∙ ap (first_of (plan_delete desired n (h.instance_of w n))) ih
            ∙ first_again (plan_delete desired n (h.instance_of w n)) (has names n))
        | inr e ↦ rw e ih
      ]

  plan_deletes-IsDistinct :
      (desired : List ServiceConfig) (names : List String)
      → HasNoRepeats names
      → IsDistinct (plan_deletes h w desired names)
  unfolding plan_deletes
  plan_deletes-IsDistinct desired [] d = tt
  plan_deletes-IsDistinct desired (name ∷ names) (once, d) =
      prepend-IsDistinct (plan_delete desired name (h.instance_of w name))
        (plan_deletes h w desired names)
        (Each-map (IsRid name)
          (λ a. action_on (plan_deletes h w desired names) a.service.name ≡ none)
          (plan_delete desired name (h.instance_of w name))
          (λ a p. action_on-plan_deletes desired names a.service.name ∙ rw p.0 (rw once refl))
          (plan_delete-IsRid desired name (h.instance_of w name) (all_named name)))
        (plan_deletes-IsDistinct desired names d)

  plan_desired-IsDistinct :
      (services : List ServiceConfig) (ds : List Action)
      → HasNoTwins services
      → All (λ svc. action_on ds svc.name ≡ none) services
      → IsDistinct ds
      → IsDistinct (plan_desired h w services ++ ds)
  unfolding plan_desired
  plan_desired-IsDistinct [] ds d apart d' = d'
  plan_desired-IsDistinct (s ∷ services) ds (alone, d) (apart_s, apart) d' =
      let o = plan_service h.sort_slice (h.instance_of w s.name) s in
      let rest = plan_desired h w services ++ ds in
      subst IsDistinct (sym (prepend_append o (plan_desired h w services) ds)) (
        prepend-IsDistinct o rest
          (Each-map (IsFor s) (λ a. action_on rest a.service.name ≡ none) o
            (λ a p. rw p.0 (
              action_on-plan_desired services ds s.name d
              ∙ ap (λ found. first_of (wanted found) (action_on ds s.name)) alone
              ∙ apart_s))
            (plan_service-IsFor h.sort_slice (h.instance_of w s.name) s (all_named s.name)))
          (plan_desired-IsDistinct services ds d apart d'))

  pub action_on-plan_split :
      (desired : NodeConfig) (n : String)
      → HasNoTwins desired.services
      → action_on (plan h w desired) n
        ≡ first_of
            (wanted (service_of desired.services n))
            (action_on (plan_deletes h w desired.services (h.names w)) n)
  unfolding plan
  action_on-plan_split desired n d =
      action_on-plan_desired desired.services (plan_deletes h w desired.services (h.names w)) n d

  -- The action of a plan on a name.
  pub action_on-plan :
      (desired : NodeConfig) (n : String)
      → HasNoTwins desired.services
      → action_on (plan h w desired) n
        ≡ first_of
            (wanted (service_of desired.services n))
            (if has (h.names w) n then plan_delete desired.services n (h.instance_of w n) else none)
  action_on-plan desired n d =
      action_on-plan_split desired n d
      ∙ ap (first_of (wanted (service_of desired.services n)))
          (action_on-plan_deletes desired.services (h.names w) n)

  -- No action is planned against a desired service.
  pub spares :
      (desired : List ServiceConfig) (names : List String) (svc : ServiceConfig)
      → service_of desired svc.name ≡ some svc
      → action_on (plan_deletes h w desired names) svc.name ≡ none
  spares desired names svc e =
      action_on-plan_deletes desired names svc.name
      ∙ rw
          (plan_delete-desired desired svc.name (h.instance_of w svc.name)
            (service_of-desired desired svc.name svc e))
          (ground arith)

  pub plan-IsDistinct :
      (desired : NodeConfig)
      → HasNoTwins desired.services
      → HasNoRepeats (h.names w)
      → IsDistinct (plan h w desired)
  unfolding plan
  plan-IsDistinct desired d once =
      plan_desired-IsDistinct desired.services (plan_deletes h w desired.services (h.names w)) d
        (All-map (λ svc. service_of desired.services svc.name ≡ some svc)
          (λ svc. action_on (plan_deletes h w desired.services (h.names w)) svc.name ≡ none)
          desired.services (spares desired.services (h.names w))
          (HasNoTwins-service_of desired.services d))
        (plan_deletes-IsDistinct desired.services (h.names w) once)

  plan_desired-IsWellNamed :
      (services : List ServiceConfig) → All IsWellNamed (plan_desired h w services)
  unfolding plan_desired
  plan_desired-IsWellNamed [] = tt
  plan_desired-IsWellNamed (s ∷ services) =
      let o = plan_service h.sort_slice (h.instance_of w s.name) s in
      prepend-All IsWellNamed o (plan_desired h w services)
        (Each-map (IsFor s) IsWellNamed o (λ a p. p.1)
          (plan_service-IsFor h.sort_slice (h.instance_of w s.name) s (all_named s.name)))
        (plan_desired-IsWellNamed services)

  plan_deletes-IsWellNamed :
      (desired : List ServiceConfig) (names : List String)
      → All IsWellNamed (plan_deletes h w desired names)
  unfolding plan_deletes
  plan_deletes-IsWellNamed desired [] = tt
  plan_deletes-IsWellNamed desired (name ∷ names) =
      let o = plan_delete desired name (h.instance_of w name) in
      prepend-All IsWellNamed o (plan_deletes h w desired names)
        (Each-map (IsRid name) IsWellNamed o (λ a p. p.1)
          (plan_delete-IsRid desired name (h.instance_of w name) (all_named name)))
        (plan_deletes-IsWellNamed desired names)

  pub plan-IsWellNamed : (desired : NodeConfig) → All IsWellNamed (plan h w desired)
  unfolding plan
  plan-IsWellNamed desired =
      All-append IsWellNamed (plan_desired h w desired.services)
        (plan_deletes h w desired.services (h.names w)) (plan_desired-IsWellNamed desired.services)
        (plan_deletes-IsWellNamed desired.services (h.names w))
