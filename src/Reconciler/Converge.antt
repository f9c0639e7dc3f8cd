-- ===== src/Reconciler/Converge.antt =====
-- A reconciliation without errors leaves nothing to do (internal/reconciler/reconciler.go: Plan and
-- applyAllAtOnce).
use firework.Base.{
  String, ◌≡◌, refl, ap, sym, subst, ◌∙◌, Bool, true, false, ◌==◌, if◌then◌else◌, Option, none,
  some, List, [], ◌∷◌, is_some, arith, eq_iff, Bool-cases, inl, inr, All, All-map,
}
use firework.Config.{ServiceConfig, NodeConfig}
use firework.Vm.{Instance}
use firework.Reconciler.{
  Action, action_delete, ActionError, Host, Options, add_error, is_desired, plan_service,
  plan_delete, plan_desired, plan_deletes, plan, apply_action, apply_all_at_once,
}
use firework.Reconciler.Compare.{needs_update-same}
use firework.Reconciler.Plan.{
  action_on, IsDistinct, HasNoTwins, has, HasNoRepeats, service_of, IsNamed, IsFor, Each, first_of,
  plan_service-IsFor, plan_delete-desired, HasNoTwins-service_of, is_desired-service_of,
}
use firework.Reconciler.Plan.Actions.{
  wanted, action_on-plan, action_on-plan_split, spares, plan-IsDistinct, plan-IsWellNamed,
}
use firework.Reconciler.Laws.{
  Laws, IsRunning, IsWellNamed, Reached, apply_action-frame, apply_action-Reached,
}

abbrev pub no_errors : List ActionError → Bool
no_errors [] = true
no_errors (_ ∷ _) = false

no_errors-add_error :
    (e : Option ActionError) (errs : List ActionError)
    → no_errors (add_error e errs) ≡ true
    → (e ≡ none) × (no_errors errs ≡ true)
unfolding add_error
no_errors-add_error none errs h = (refl, h)
no_errors-add_error (some e) errs h = ground (arith, h)

-- Where an entry of the table stands after the actions: as its action says, or as it stood.
abbrev pub IsAfter : Option Action → Option Instance → Option Instance → Type 0
IsAfter none before after = after ≡ before
IsAfter (some a) before after = Reached a.type a.service after

module _ {W : Type 0} (h : Host W) (laws : Laws h) (o : Options) where
  apply_all_at_once-IsAfter :
      (actions : List Action) (w : W)
      → IsDistinct actions
      → All IsWellNamed actions
      → no_errors (apply_all_at_once h o actions w).1 ≡ true
      → (n : String)
      → IsAfter
          (action_on actions n)
          (h.instance_of w n)
          (h.instance_of (apply_all_at_once h o actions w).0 n)
  unfolding apply_all_at_once
  apply_all_at_once-IsAfter [] w d named ok n = refl
  apply_all_at_once-IsAfter (a ∷ actions) w (alone, d) (named_a, named) ok n =
      let w' = (apply_action h o a.type a w).0 in
      let (done, rest_ok) =
        no_errors-add_error (apply_action h o a.type a w).1 (apply_all_at_once h o actions w').1
          ok in
      let rest = apply_all_at_once-IsAfter actions w' d named rest_ok in
      elim (Bool-cases (a.service.name == n)) [
        | inl e ↦ rw e (
            let n' = a.service.name in
            let final = (apply_all_at_once h o actions w').0 in
            let kept : h.instance_of final n' ≡ h.instance_of w' n' =
              subst (λ found. IsAfter found (h.instance_of w' n') (h.instance_of final n')) alone
                (rest n') in
            subst (λ k. Reached a.type a.service (h.instance_of final k))
              ((eq_iff a.service.name n).0 e)
              (subst (Reached a.type a.service) (sym kept)
                (apply_action-Reached h laws o a.type a w done)))
        | inr e ↦ rw e (
            subst
              (λ before.
                IsAfter (action_on actions n) before
                  (h.instance_of (apply_all_at_once h o actions w').0 n))
              (apply_action-frame h laws o a.type a w n named_a e) (rest n))
      ]

  module _ (desired : NodeConfig) (no_twins : HasNoTwins desired.services) (w : W)
      (all_named : (n : String) → IsNamed n (h.instance_of w n)) (once : HasNoRepeats (h.names w))
      (complete : (n : String) → is_some (h.instance_of w n) ≡ true → has (h.names w) n ≡ true)
      (ok : no_errors (apply_all_at_once h o (plan h w desired) w).1 ≡ true) where
    abbrev final : W
    final = (apply_all_at_once h o (plan h w desired) w).0

    plan-IsAfter :
        (n : String)
        → IsAfter (action_on (plan h w desired) n) (h.instance_of w n) (h.instance_of final n)
    plan-IsAfter n =
        apply_all_at_once-IsAfter (plan h w desired) w
          (plan-IsDistinct h w all_named desired no_twins once)
          (plan-IsWellNamed h w all_named desired) ok n

    running_needs_nothing :
        (svc : ServiceConfig) (found : Option Instance)
        → IsRunning svc found
        → plan_service h.sort_slice found svc ≡ none
    unfolding plan_service
    running_needs_nothing svc found (inst, e, same, runs) =
        rw e (rw (needs_update-same h.sort_slice inst svc same runs) refl)

    -- What is wanted for a service, once done, is not wanted again.
    wanted_once :
        (svc : ServiceConfig) (before after : Option Instance) (rest a : Option Action)
        → plan_service h.sort_slice before svc ≡ a
        → rest ≡ none
        → Each (IsFor svc) a
        → IsAfter (first_of a rest) before after
        → plan_service h.sort_slice after svc ≡ none
    wanted_once svc before after rest none e none_left p r =
        ap (λ found. plan_service h.sort_slice found svc)
          (subst (λ q. IsAfter q before after) none_left r)
        ∙ e
    wanted_once svc before after rest (some a) e none_left p r =
        running_needs_nothing svc after (p.2 after r)

    service_done :
        (svc : ServiceConfig)
        → service_of desired.services svc.name ≡ some svc
        → plan_service h.sort_slice (h.instance_of final svc.name) svc ≡ none
    service_done svc e =
        wanted_once svc (h.instance_of w svc.name) (h.instance_of final svc.name)
          (action_on (plan_deletes h w desired.services (h.names w)) svc.name)
          (plan_service h.sort_slice (h.instance_of w svc.name) svc) refl
          (spares h w all_named desired.services (h.names w) svc e)
          (plan_service-IsFor h.sort_slice (h.instance_of w svc.name) svc (all_named svc.name))
          (subst (λ a. IsAfter a (h.instance_of w svc.name) (h.instance_of final svc.name))
            (action_on-plan_split h w all_named desired svc.name no_twins
              ∙ ap
                  (λ found.
                    first_of (wanted h w all_named found)
                      (action_on (plan_deletes h w desired.services (h.names w)) svc.name))
                  e)
            (plan-IsAfter svc.name))

    -- What is not desired is gone.
    rid_once :
        (n : String) (before after : Option Instance) (listed : Bool)
        → is_desired desired.services n ≡ false
        → IsNamed n before
        → (is_some before ≡ true → listed ≡ true)
        → IsAfter (if listed then plan_delete desired.services n before else none) before after
        → after ≡ none
    unfolding plan_delete
    rid_once n none after true e named all r = r
    rid_once n none after false e named all r = r
    rid_once n (some inst) after listed e named all r =
        subst
          (λ b.
            IsAfter
              (if b
                then none
                else some (record {
                  type = action_delete;
                  service = inst.config;
                  previous_service = none;
                }))
              (some inst) after)
          e
          (subst
            (λ b.
              IsAfter (if b then plan_delete desired.services n (some inst) else none) (some inst)
                after)
            (all refl) r)

    name_done : (n : String) → plan_delete desired.services n (h.instance_of final n) ≡ none
    unfolding plan_delete
    name_done n = elim (Bool-cases (is_desired desired.services n)) [
      | inl e ↦ plan_delete-desired desired.services n (h.instance_of final n) e
      | inr e ↦ ap (plan_delete desired.services n) (
          rid_once n (h.instance_of w n) (h.instance_of final n) (has (h.names w) n) e (all_named n)
            (complete n)
            (subst (λ a. IsAfter a (h.instance_of w n) (h.instance_of final n))
              (action_on-plan h w all_named desired n no_twins
                ∙ ap
                    (λ found. first_of (wanted h w all_named found) (
                      if has (h.names w) n
                      then plan_delete desired.services n (h.instance_of w n)
                      else none))
                    (is_desired-service_of desired.services n e))
              (plan-IsAfter n)))
    ]

    plan_desired_empty :
        (services : List ServiceConfig)
        → All (λ svc. plan_service h.sort_slice (h.instance_of final svc.name) svc ≡ none) services
        → plan_desired h final services ≡ []
    unfolding plan_desired
    plan_desired_empty [] all = refl
    plan_desired_empty (s ∷ services) (e, all) = rw e (plan_desired_empty services all)

    plan_deletes_empty : (names : List String) → plan_deletes h final desired.services names ≡ []
    unfolding plan_deletes
    plan_deletes_empty [] = refl
    plan_deletes_empty (n ∷ names) = rw (name_done n) (plan_deletes_empty names)

    -- When no two desired services and no two machines have one name, the machines are listed under
    -- their own names, and the actions of the plan, applied all at once, report no error, then the
    -- plan made of the machines that this leaves is empty.
    pub plan-apply_all_at_once : plan h final desired ≡ []
    unfolding plan
    plan-apply_all_at_once =
        rw
          (
            plan_desired_empty desired.services (
                All-map (λ svc. service_of desired.services svc.name ≡ some svc)
                  (λ svc. plan_service h.sort_slice (h.instance_of final svc.name) svc ≡ none)
                  desired.services service_done (HasNoTwins-service_of desired.services no_twins)),
            plan_deletes_empty (h.names final),
          )
          refl
