-- ===== src/Reconciler.antt =====
-- internal/reconciler/reconciler.go: the plan that turns the virtual machines of a node into those
-- that are desired, and its execution. What the reconciler calls, the virtual-machine manager, the
-- network manager, the health monitor and the sleep between updates, is a parameter: `Host`.
pub mod Compare
pub mod Laws
pub mod Plan
pub mod Converge
pub mod OnManager
use firework.Base.{
  ℕ, String, ◌<◌, Bool, true, false, ◌&&◌, ◌||◌, not, ◌==◌, if◌then◌else◌, Option, none, some, List,
  [], ◌∷◌, ◌++◌, snoc, ltb, is_some, or_else, filter_by,
}
use firework.Base.Int64.{gt64}
use firework.Config.{NetworkConfig, PortForward, ServiceConfig, NodeConfig}
use firework.Reconciler.Compare.{SortSlice, needs_update}
use firework.Vm.{Instance}

pub data ActionType : Type 0 where
  action_create action_update action_delete : ActionType

pub record Action : Type 0 where
  pub type : ActionType
  pub service : ServiceConfig
  pub previous_service : Option ServiceConfig

-- The world of the reconciler. A Boolean result is true where the Go function returns no error; of the
-- functions with no such result the error is only logged.
pub record Host (W : Type 0) : Type 0 where
  -- List(), as a lookup and as the order in which its keys are met.
  pub instance_of : W → String → Option Instance
  pub names : W → List String
  pub sort_slice : SortSlice
  pub start : ServiceConfig → W → W × Bool
  pub remove : String → W → W
  pub preflight : ServiceConfig → W → W × Bool
  pub network_setup : ServiceConfig → W → W × Bool
  pub network_teardown : ServiceConfig → W → W
  pub setup_port_forward : ℕ → String → ℕ → W → W
  pub teardown_port_forward : ℕ → String → ℕ → W → W
  pub health_register : ServiceConfig → W → W
  pub health_deregister : String → W → W
  pub sleep : W → W × Bool

-- The fields of Reconciler: which managers are not nil, and the strategy of updates.
pub record Options : Type 0 where
  pub has_network : Bool
  pub has_health : Bool
  pub rolling : Bool
  pub update_delay : ℕ

-- An error of an action: what failed, and of which service.
pub record ActionError : Type 0 where
  pub stage : String
  pub service : String

unfoldable pub add_error : Option ActionError → List ActionError → List ActionError
add_error none errs = errs
add_error (some e) errs = e ∷ errs

pub data ApplyResult : Type 0 where
  succeeded interrupted : ApplyResult
  had_errors : List ActionError → ApplyResult

unfoldable pub result_of : List ActionError → ApplyResult
result_of [] = succeeded
result_of (e ∷ errs) = had_errors (e ∷ errs)

abbrev pub is_empty {ℓ} : {A : Type ℓ} → List A → Bool
is_empty [] = true
is_empty (_ ∷ _) = false

unfoldable pub is_desired : List ServiceConfig → String → Bool
is_desired [] name = false
is_desired (svc ∷ services) name = svc.name == name || is_desired services name

-- The body of the first loop of Plan: the action on a desired service, if any, by its machine.
unfoldable pub plan_service : SortSlice → Option Instance → ServiceConfig → Option Action
plan_service sort_slice none svc =
    some (record { type = action_create; service = svc; previous_service = none })
plan_service sort_slice (some inst) svc =
    if needs_update sort_slice inst svc
    then some (record { type = action_update; service = svc; previous_service = some inst.config })
    else none

-- The body of the second loop, for one key of the actual machines.
unfoldable pub plan_delete : List ServiceConfig → String → Option Instance → Option Action
plan_delete desired name none = none
plan_delete desired name (some inst) =
    if is_desired desired name
    then none
    else some (record { type = action_delete; service = inst.config; previous_service = none })

abbrev pub prepend : Option Action → List Action → List Action
prepend none actions = actions
prepend (some a) actions = a ∷ actions

module _ {W : Type 0} (h : Host W) where
  unfoldable pub plan_desired : W → List ServiceConfig → List Action
  plan_desired w [] = []
  plan_desired w (svc ∷ services) =
      prepend (plan_service h.sort_slice (h.instance_of w svc.name) svc) (plan_desired w services)

  unfoldable pub plan_deletes : W → List ServiceConfig → List String → List Action
  plan_deletes w desired [] = []
  plan_deletes w desired (name ∷ names) =
      prepend (plan_delete desired name (h.instance_of w name)) (plan_deletes w desired names)

  unfoldable pub plan : W → NodeConfig → List Action
  plan w desired = plan_desired w desired.services ++ plan_deletes w desired.services (h.names w)

  module _ (o : Options) where
    unfoldable pub setup_forwards : String → List PortForward → W → W
    setup_forwards ip [] w = w
    setup_forwards ip (pf ∷ pfs) w =
        setup_forwards ip pfs (h.setup_port_forward pf.host_port ip pf.vm_port w)

    unfoldable pub teardown_forwards : String → List PortForward → W → W
    teardown_forwards ip [] w = w
    teardown_forwards ip (pf ∷ pfs) w =
        teardown_forwards ip pfs (h.teardown_port_forward pf.host_port ip pf.vm_port w)

    -- if r.networkMgr != nil && svc.Network != nil, over the service's port forwards
    unfoldable pub with_network : (String → List PortForward → W → W) → ServiceConfig → W → W
    with_network f svc w = elim svc.network [
      | none ↦ w
      | some net ↦ if o.has_network then f net.guest_ip svc.port_forwards w else w
    ]

    -- The part of createService after the network is up.
    unfoldable pub start_service : ServiceConfig → W → W × Bool
    start_service svc w =
        let (started, ok) = h.start svc w in
        let forwarded = with_network setup_forwards svc started in
        if ok
        then (
          if o.has_health && is_some svc.health_check
              then h.health_register svc forwarded
              else forwarded,
          true,
        )
        else (if o.has_network then h.network_teardown svc started else started, false)

    unfoldable pub create_service : ServiceConfig → W → W × Bool
    create_service svc w =
        let (up, ok) = h.network_setup svc w in
        if o.has_network
        then (if ok then start_service svc up else (up, false))
        else start_service svc w

    unfoldable pub delete_service : ServiceConfig → W → W
    delete_service svc w =
        let w₁ = if o.has_health then h.health_deregister svc.name w else w in
        let w₂ = with_network teardown_forwards svc w₁ in
        let w₃ = h.remove svc.name w₂ in if o.has_network then h.network_teardown svc w₃ else w₃

    -- The stop and start of an update, after its preflight.
    unfoldable pub replace_service : Action → W → W × Bool
    replace_service a w =
        create_service a.service (delete_service (or_else a.previous_service a.service) w)

    abbrev error_of : String → Action → ActionError
    error_of stage a = record { stage = stage; service = a.service.name }

    -- What one action makes of the world, with the error that it adds, if any.
    unfoldable pub apply_action : ActionType → Action → W → W × Option ActionError
    apply_action action_create a w =
        let (w', ok) = create_service a.service w in
        (w', if ok then none else some (error_of "create" a))
    apply_action action_update a w =
        let (w', ready) = h.preflight a.service w in
        let (w'', ok) = replace_service a w' in
        if ready
        then (w'', if ok then none else some (error_of "update" a))
        else (w', some (error_of "preflight update" a))
    apply_action action_delete a w = (delete_service a.service w, none)

    -- applyAllAtOnce: the world and the errors, in the order of the actions.
    unfoldable pub apply_all_at_once : List Action → W → W × List ActionError
    apply_all_at_once [] w = (w, [])
    apply_all_at_once (a ∷ actions) w =
        let (w', e) = apply_action a.type a w in
        let (w'', errs) = apply_all_at_once actions w' in (w'', add_error e errs)

    -- The first two loops of applyRolling: the deletes, then the creates.
    unfoldable pub apply_deletes : List Action → W → W
    apply_deletes [] w = w
    apply_deletes (a ∷ actions) w =
        apply_deletes actions (elim a.type [ action_delete ↦ delete_service a.service w | _ ↦ w ])

    abbrev create_only : ActionType → Action → W → W × Option ActionError
    create_only action_create a w = apply_action action_create a w
    create_only action_update a w = (w, none)
    create_only action_delete a w = (w, none)

    unfoldable pub apply_creates : List Action → W → W × List ActionError
    apply_creates [] w = (w, [])
    apply_creates (a ∷ actions) w =
        let (w₁, e) = create_only a.type a w in
        let (w₂, errs) = apply_creates actions w₁ in (w₂, add_error e errs)

    abbrev is_update : Action → Bool
    is_update a = elim a.type [ action_update ↦ true | _ ↦ false ]

    -- The third loop, over the updates: it ends at the first that fails, and at a sleep that is cut
    -- short, which is the second result.
    unfoldable pub apply_updates : List Action → W → W × (List ActionError × Bool)
    apply_updates [] w = (w, ([], false))
    apply_updates (a ∷ updates) w =
        let (w₁, e) = apply_action action_update a w in
        let (w₂, woke) = h.sleep w₁ in
        let slept = apply_updates updates w₂ in
        let at_once = apply_updates updates w₁ in
        elim e [
          | some err ↦ (w₁, (err ∷ [], false))
          | none ↦
              if not (is_empty updates) && gt64 o.update_delay 0
              then (if woke then slept else (w₂, ([], true)))
              else at_once
        ]

    -- What Apply returns: no error, those of the actions, or the interruption.
    unfoldable pub apply_rolling : List Action → W → W × ApplyResult
    apply_rolling actions w =
        let (w₁, created) = apply_creates actions (apply_deletes actions w) in
        let (w₂, ended) = apply_updates (filter_by is_update actions) w₁ in
        let (updated, cut) = ended in
        (w₂, if cut then interrupted else result_of (created ++ updated))

    unfoldable pub apply : List Action → W → W × ApplyResult
    apply actions w =
        let (w', errs) = apply_all_at_once actions w in
        if o.rolling then apply_rolling actions w else (w', result_of errs)

    unfoldable pub reconcile : NodeConfig → W → W × ApplyResult
    reconcile desired w =
        let actions = plan w desired in if is_empty actions then (w, succeeded) else apply actions w
