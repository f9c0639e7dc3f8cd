-- ===== src/Reconciler/Laws.antt =====
-- What the reconciler relies on in the managers that it calls, and what one of its actions does to the
-- table of machines (internal/reconciler/reconciler.go: createService, deleteService, the bodies of
-- applyAllAtOnce).
use firework.Base.{
  ℕ, String, ◌≡◌, refl, ap, sym, subst, ◌∙◌, Bool, true, false, ◌&&◌, ◌==◌, if◌then◌else◌, Option,
  none, some, List, [], ◌∷◌, is_some, or_else, arith, if_ind,
}
use firework.Config.{ServiceConfig, PortForward}
use firework.Vm.{Instance, state_running}
use firework.Reconciler.{
  Action, ActionType, action_create, action_update, action_delete, Host, Options, setup_forwards,
  teardown_forwards, with_network, start_service, create_service, delete_service, replace_service,
  apply_action, ActionError,
}

-- The machine that the table has runs this very configuration.
abbrev pub IsRunning : ServiceConfig → Option Instance → Type 0
IsRunning svc found =
    (inst : Instance) × (found ≡ some inst) × (inst.config ≡ svc) × (inst.state ≡ state_running)

-- Start that returns no error leaves the machine running, Remove takes it out of the table, and both
-- touch no other; the network, the monitor, the preflight and the sleep do not touch the table.
pub record Laws {W : Type 0} (h : Host W) : Type 0 where
  pub start_runs :
      (svc : ServiceConfig) (w : W)
      → (h.start svc w).1 ≡ true
      → IsRunning svc (h.instance_of (h.start svc w).0 svc.name)
  pub start_frame :
      (svc : ServiceConfig) (w : W) (n : String)
      → (svc.name == n) ≡ false
      → h.instance_of (h.start svc w).0 n ≡ h.instance_of w n
  pub remove_gone : (name : String) (w : W) → h.instance_of (h.remove name w) name ≡ none
  pub remove_frame :
      (name : String) (w : W) (n : String)
      → (name == n) ≡ false
      → h.instance_of (h.remove name w) n ≡ h.instance_of w n
  pub preflight_frame :
      (svc : ServiceConfig) (w : W) (n : String)
      → h.instance_of (h.preflight svc w).0 n ≡ h.instance_of w n
  pub network_setup_frame :
      (svc : ServiceConfig) (w : W) (n : String)
      → h.instance_of (h.network_setup svc w).0 n ≡ h.instance_of w n
  pub network_teardown_frame :
      (svc : ServiceConfig) (w : W) (n : String)
      → h.instance_of (h.network_teardown svc w) n ≡ h.instance_of w n
  pub setup_port_forward_frame :
      (p : ℕ) (ip : String) (q : ℕ) (w : W) (n : String)
      → h.instance_of (h.setup_port_forward p ip q w) n ≡ h.instance_of w n
  pub teardown_port_forward_frame :
      (p : ℕ) (ip : String) (q : ℕ) (w : W) (n : String)
      → h.instance_of (h.teardown_port_forward p ip q w) n ≡ h.instance_of w n
  pub health_register_frame :
      (svc : ServiceConfig) (w : W) (n : String)
      → h.instance_of (h.health_register svc w) n ≡ h.instance_of w n
  pub health_deregister_frame :
      (name : String) (w : W) (n : String)
      → h.instance_of (h.health_deregister name w) n ≡ h.instance_of w n

-- The configuration that an update takes down has the name of the one that it brings up.
abbrev pub IsWellNamed : Action → Type 0
IsWellNamed a = (or_else a.previous_service a.service).name ≡ a.service.name

-- What an action is for: that the machine runs the configuration, or is gone.
abbrev pub Reached : ActionType → ServiceConfig → Option Instance → Type 0
Reached action_create svc found = IsRunning svc found
Reached action_update svc found = IsRunning svc found
Reached action_delete svc found = found ≡ none

-- A step that is taken under a condition leaves alone what it leaves alone when taken.
when_frame {ℓ} :
    {W : Type ℓ} {A : Type 0} (view : W → A) (b : Bool) (w' w : W)
    → view w' ≡ view w
    → view (if b then w' else w) ≡ view w
when_frame view true w' w e = e
when_frame view false w' w e = refl

option_frame {ℓ κ} :
    {W : Type ℓ} {B : Type κ} {A : Type 0} (view : W → A) (found : Option B) (f : B → W) (w : W)
    → ((b : B) → view (f b) ≡ view w)
    → view (elim found [ none ↦ w | some b ↦ f b ]) ≡ view w
option_frame view none f w e = refl
option_frame view (some b) f w e = e b

-- The error of a step that is left out exactly when the step succeeds.
no_error {ℓ} : {E : Type ℓ} (b : Bool) (e : E) → (if b then none else some e) ≡ none → b ≡ true
no_error b e h = ground (arith, h)

module _ {W : Type 0} (h : Host W) (laws : Laws h) (o : Options) where
  setup_forwards_frame :
      (ip : String) (pfs : List PortForward) (w : W) (n : String)
      → h.instance_of (setup_forwards h o ip pfs w) n ≡ h.instance_of w n
  unfolding setup_forwards
  setup_forwards_frame ip [] w n = refl
  setup_forwards_frame ip (pf ∷ pfs) w n =
      setup_forwards_frame ip pfs (h.setup_port_forward pf.host_port ip pf.vm_port w) n
      ∙ laws.setup_port_forward_frame pf.host_port ip pf.vm_port w n

  teardown_forwards_frame :
      (ip : String) (pfs : List PortForward) (w : W) (n : String)
      → h.instance_of (teardown_forwards h o ip pfs w) n ≡ h.instance_of w n
  unfolding teardown_forwards
  teardown_forwards_frame ip [] w n = refl
  teardown_forwards_frame ip (pf ∷ pfs) w n =
      teardown_forwards_frame ip pfs (h.teardown_port_forward pf.host_port ip pf.vm_port w) n
      ∙ laws.teardown_port_forward_frame pf.host_port ip pf.vm_port w n

  with_network_frame :
      (f : String → List PortForward → W → W) (svc : ServiceConfig) (w : W) (n : String)
      → ((ip : String) (pfs : List PortForward) → h.instance_of (f ip pfs w) n ≡ h.instance_of w n)
      → h.instance_of (with_network h o f svc w) n ≡ h.instance_of w n
  unfolding with_network
  with_network_frame f svc w n e =
      option_frame (λ w'. h.instance_of w' n) svc.network
        (λ net. if o.has_network then f net.guest_ip svc.port_forwards w else w) w
        (λ net.
          when_frame (λ w'. h.instance_of w' n) o.has_network (f net.guest_ip svc.port_forwards w) w
            (e net.guest_ip svc.port_forwards))

  -- deleteService, up to the removal of the machine and after it.
  delete_service-gone :
      (svc : ServiceConfig) (w : W) → h.instance_of (delete_service h o svc w) svc.name ≡ none
  unfolding delete_service
  delete_service-gone svc w =
      when_frame (λ w'. h.instance_of w' svc.name) o.has_network _ _
        (laws.network_teardown_frame svc _ svc.name)
      ∙ laws.remove_gone svc.name _

  delete_service-frame :
      (svc : ServiceConfig) (w : W) (n : String)
      → (svc.name == n) ≡ false
      → h.instance_of (delete_service h o svc w) n ≡ h.instance_of w n
  unfolding delete_service
  delete_service-frame svc w n other =
      when_frame (λ w'. h.instance_of w' n) o.has_network _ _ (laws.network_teardown_frame svc _ n)
      ∙ laws.remove_frame svc.name _ n other
      ∙ with_network_frame (teardown_forwards h o) svc _ n
          (λ ip pfs. teardown_forwards_frame ip pfs _ n)
      ∙ when_frame (λ w'. h.instance_of w' n) o.has_health _ w
          (laws.health_deregister_frame svc.name w n)

  start_service-frame :
      (svc : ServiceConfig) (w : W) (n : String)
      → (svc.name == n) ≡ false
      → h.instance_of (start_service h o svc w).0 n ≡ h.instance_of w n
  unfolding start_service
  start_service-frame svc w n other =
      if_ind (λ (p : W × Bool). h.instance_of p.0 n ≡ h.instance_of w n) (h.start svc w).1
        (λ _.
          when_frame (λ w'. h.instance_of w' n) (o.has_health && is_some svc.health_check) _ _
            (laws.health_register_frame svc _ n)
          ∙ with_network_frame (setup_forwards h o) svc _ n
              (λ ip pfs. setup_forwards_frame ip pfs _ n)
          ∙ laws.start_frame svc w n other)
        (λ _.
          when_frame (λ w'. h.instance_of w' n) o.has_network _ _
            (laws.network_teardown_frame svc _ n)
          ∙ laws.start_frame svc w n other)

  start_service-runs :
      (svc : ServiceConfig) (w : W)
      → (start_service h o svc w).1 ≡ true
      → IsRunning svc (h.instance_of (start_service h o svc w).0 svc.name)
  unfolding start_service
  start_service-runs svc w =
      if_ind (λ (p : W × Bool). p.1 ≡ true → IsRunning svc (h.instance_of p.0 svc.name))
        (h.start svc w).1
        (λ ok _.
          subst (IsRunning svc)
            (sym (
              when_frame (λ w'. h.instance_of w' svc.name)
                (o.has_health && is_some svc.health_check) _ _
                (laws.health_register_frame svc _ svc.name)
              ∙ with_network_frame (setup_forwards h o) svc _ svc.name
                  (λ ip pfs. setup_forwards_frame ip pfs _ svc.name)))
            (laws.start_runs svc w ok))
        (λ _ e. ground (arith, e))

  create_service-frame :
      (svc : ServiceConfig) (w : W) (n : String)
      → (svc.name == n) ≡ false
      → h.instance_of (create_service h o svc w).0 n ≡ h.instance_of w n
  unfolding create_service
  create_service-frame svc w n other =
      let up = (h.network_setup svc w).0 in
      if_ind (λ (p : W × Bool). h.instance_of p.0 n ≡ h.instance_of w n) o.has_network
        (λ _.
          if_ind (λ (p : W × Bool). h.instance_of p.0 n ≡ h.instance_of w n)
            (h.network_setup svc w).1
            (λ _. start_service-frame svc up n other ∙ laws.network_setup_frame svc w n)
            (λ _. laws.network_setup_frame svc w n))
        (λ _. start_service-frame svc w n other)

  create_service-runs :
      (svc : ServiceConfig) (w : W)
      → (create_service h o svc w).1 ≡ true
      → IsRunning svc (h.instance_of (create_service h o svc w).0 svc.name)
  unfolding create_service
  create_service-runs svc w =
      let Q : W × Bool → Type 0 = λ p. p.1 ≡ true → IsRunning svc (h.instance_of p.0 svc.name) in
      if_ind Q o.has_network
        (λ _.
          if_ind Q (h.network_setup svc w).1 (λ _. start_service-runs svc (h.network_setup svc w).0)
            (λ _ e. ground (arith, e)))
        (λ _. start_service-runs svc w)

  -- An action changes the entry of its own service only.
  pub apply_action-frame :
      (t : ActionType) (a : Action) (w : W) (n : String)
      → IsWellNamed a
      → (a.service.name == n) ≡ false
      → h.instance_of (apply_action h o t a w).0 n ≡ h.instance_of w n
  unfolding apply_action replace_service
  apply_action-frame action_create a w n named other = create_service-frame a.service w n other
  apply_action-frame action_update a w n named other =
      let w' = (h.preflight a.service w).0 in
      let old = or_else a.previous_service a.service in
      if_ind (λ (p : W × Option ActionError). h.instance_of p.0 n ≡ h.instance_of w n)
        (h.preflight a.service w).1
        (λ _.
          create_service-frame a.service (delete_service h o old w') n other
          ∙ delete_service-frame old w' n (ap (λ k. k == n) named ∙ other)
          ∙ laws.preflight_frame a.service w n)
        (λ _. laws.preflight_frame a.service w n)
  apply_action-frame action_delete a w n named other = delete_service-frame a.service w n other

  -- An action without an error reaches what it is for.
  pub apply_action-Reached :
      (t : ActionType) (a : Action) (w : W)
      → (apply_action h o t a w).1 ≡ none
      → Reached t a.service (h.instance_of (apply_action h o t a w).0 a.service.name)
  unfolding apply_action replace_service
  apply_action-Reached action_create a w e =
      create_service-runs a.service w (no_error (create_service h o a.service w).1 _ e)
  apply_action-Reached action_update a w none_failed =
      let w' = (h.preflight a.service w).0 in
      let old = or_else a.previous_service a.service in
      if_ind
        (λ (p : W × Option ActionError).
          p.1 ≡ none → IsRunning a.service (h.instance_of p.0 a.service.name))
        (h.preflight a.service w).1
        (λ _ e. create_service-runs a.service (delete_service h o old w') (no_error _ _ e))
        (λ _ e. ground (arith, e)) none_failed
  apply_action-Reached action_delete a w e = delete_service-gone a.service w
