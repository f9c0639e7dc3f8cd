-- ===== src/Reconciler/OnManager/Samples.antt =====
-- A node on which one service runs that is not desired and one is desired that does not run.
use firework.Base.{
  String, ◌≡◌, refl, sym, ◌∙◌, Bool-cases, inl, inr, Bool, true, false, ◌==◌, Option, none, some,
  [], ◌∷◌, arith, eq_iff, is_some, ap, map,
}
use firework.Base.Dict.{lookup, insert, remove}
use firework.Config.{ServiceConfig, NodeConfig}
use firework.Scheduler.Place.Samples.{service}
use firework.Vm.{
  Manager, Instance, Launch, launched, start, stop, stop_instance, put_launched, remove_machine,
  state_running,
}
use firework.Reconciler.{
  Options, plan, plan_desired, plan_deletes, plan_service, plan_delete, is_desired,
  apply_all_at_once, apply_action, create_service, start_service, delete_service, with_network,
  setup_forwards, teardown_forwards, add_error,
}
use firework.Reconciler.Compare.{SortSlice}
use firework.Reconciler.Plan.{IsNamed, has}
use firework.Reconciler.Converge.{plan-apply_all_at_once}
use firework.Reconciler.OnManager.{on_manager, on_manager-Laws}

program : Unit {0}
unfolding plan plan_desired plan_deletes plan_service plan_delete is_desired apply_all_at_once
    apply_action create_service start_service delete_service with_network setup_forwards
    teardown_forwards add_error start stop stop_instance put_launched remove_machine lookup insert
    remove
program = tt

abbrev as_given : SortSlice
as_given less volumes = volumes

abbrev launch_all : ServiceConfig → Launch
launch_all svc = launched 42

abbrev yes_of : {A : Type 0} → A → Bool
yes_of a = true

abbrev old : ServiceConfig
old = service "old" 1 512 "" []

abbrev web : ServiceConfig
web = service "web" 1 512 "" []

abbrev running_old : Instance
running_old = record { name = "old"; config = old; state = state_running; pid = 7; last_error = "" }

abbrev machines : Manager
machines = record { instances = ("old", running_old) ∷ []; volume_errors = λ n. "" }

abbrev desired : NodeConfig
desired = record {
  node = "i-1";
  services = web ∷ [];
  host_ip = "";
  desired_revision = "";
  placement_revision = "";
  rendered_revision = "";
}

abbrev options : Options
options = record { has_network = false; has_health = false; rolling = false; update_delay = 0 }

abbrev name_in : String → Option Instance → String
name_in n none = n
name_in n (some inst) = inst.config.name

machines-IsNamed : (n : String) → IsNamed n (lookup n machines.instances)
unfolding lookup
machines-IsNamed n inst e = elim (Bool-cases ("old" == n)) [
  | inl same ↦ sym (ap (name_in n) (rw same at e)) ∙ (eq_iff "old" n).0 same
  | inr other ↦ absurd (ground (arith, e, other))
]

machines_listed :
    (n : String)
    → is_some (lookup n machines.instances) ≡ true
    → has (map (λ (entry : String × Instance). entry.0) machines.instances) n ≡ true
unfolding lookup
machines_listed n e = ground (arith, e)

plan-apply_all_at_once_example :
    plan
      (on_manager launch_all yes_of yes_of yes_of as_given)
      (apply_all_at_once
        (on_manager launch_all yes_of yes_of yes_of as_given)
        options
        (plan (on_manager launch_all yes_of yes_of yes_of as_given) machines desired)
        machines).0
      desired
    ≡ []
unfolding program
plan-apply_all_at_once_example =
    plan-apply_all_at_once (on_manager launch_all yes_of yes_of yes_of as_given)
      (on_manager-Laws launch_all yes_of yes_of yes_of as_given) options desired (refl, tt) machines
      machines-IsNamed (refl, tt) machines_listed refl
