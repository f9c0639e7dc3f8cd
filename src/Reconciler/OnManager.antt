-- ===== src/Reconciler/OnManager.antt =====
-- The reconciler (internal/reconciler) on the virtual-machine manager of internal/vm/manager.go: the
-- manager's table keeps the laws that the reconciler relies on. What the operating system answers to a
-- launch and to the look-up of a process is a parameter, and so is the outcome of the network's set-up.
pub mod Samples
use firework.Base.{
  ℕ, String, ◌≡◌, refl, sym, subst, Bool, true, false, ◌==◌, if◌then◌else◌, Option, none, some,
  List, [], ◌∷◌, arith, eq_iff, eq_refl, if_ind, map, Option-cases, Bool-cases, inl, inr,
}
use firework.Base.Dict.{lookup, insert, remove, lookup-insert, lookup-remove}
use firework.Config.{ServiceConfig}
use firework.Vm.{
  Manager, Instance, Launch, volumes_fail, launch_fail, launched, start, stop, stop_instance,
  put_launched, remove_machine, is_running, state_running,
}
use firework.Reconciler.{Host}
use firework.Reconciler.Compare.{SortSlice}
use firework.Reconciler.Laws.{Laws, IsRunning}

abbrev pub name_of : String × Instance → String
name_of entry = entry.0

module _ (launch : ServiceConfig → Launch) (found : String → Bool)
    (networked : ServiceConfig → Bool) (prepared : ServiceConfig → Bool)
    (sort_slice : SortSlice) where
  abbrev pub on_manager : Host Manager
  on_manager = record {
    instance_of = λ m n. lookup n m.instances;
    names = λ m. map name_of m.instances;
    sort_slice = sort_slice;
    start = λ svc m. start (launch svc) svc m;
    remove = λ name m. remove_machine (found name) name m;
    preflight = λ svc m. (m, prepared svc);
    network_setup = λ svc m. (m, networked svc);
    network_teardown = λ svc m. m;
    setup_port_forward = λ p ip q m. m;
    teardown_port_forward = λ p ip q m. m;
    health_register = λ svc m. m;
    health_deregister = λ name m. m;
    sleep = λ m. (m, true);
  }

  put_launched-runs :
      (svc : ServiceConfig) (l : Launch) (m : Manager)
      → (put_launched svc l m).1 ≡ true
      → IsRunning svc (lookup svc.name (put_launched svc l m).0.instances)
  unfolding put_launched
  put_launched-runs svc (volumes_fail err) m e = ground (arith, e)
  put_launched-runs svc (launch_fail err) m e = ground (arith, e)
  put_launched-runs svc (launched pid) m e = (
    record { name = svc.name; config = svc; state = state_running; pid = pid; last_error = "" },
    rw (lookup-insert svc.name svc.name _ m.instances) (rw (eq_refl svc.name) refl),
    refl,
    refl,
  )

  put_launched-frame :
      (svc : ServiceConfig) (l : Launch) (m : Manager) (n : String)
      → (svc.name == n) ≡ false
      → lookup n (put_launched svc l m).0.instances ≡ lookup n m.instances
  unfolding put_launched
  put_launched-frame svc (volumes_fail err) m n e = refl
  put_launched-frame svc (launch_fail err) m n e = refl
  put_launched-frame svc (launched pid) m n e =
      rw (lookup-insert svc.name n _ m.instances) (rw e refl)

  start-runs :
      (svc : ServiceConfig) (l : Launch) (m : Manager)
      → (start l svc m).1 ≡ true
      → IsRunning svc (lookup svc.name (start l svc m).0.instances)
  unfolding start
  start-runs svc l m =
      if_ind (λ (p : Manager × Bool). p.1 ≡ true → IsRunning svc (lookup svc.name p.0.instances))
        (is_running (lookup svc.name m.instances)) (λ _ e. ground (arith, e))
        (λ _. put_launched-runs svc l m)

  start-frame :
      (svc : ServiceConfig) (l : Launch) (m : Manager) (n : String)
      → (svc.name == n) ≡ false
      → lookup n (start l svc m).0.instances ≡ lookup n m.instances
  unfolding start
  start-frame svc l m n e =
      if_ind (λ (p : Manager × Bool). lookup n p.0.instances ≡ lookup n m.instances)
        (is_running (lookup svc.name m.instances)) (λ _. refl) (λ _. put_launched-frame svc l m n e)

  stop_instance-frame :
      (b : Bool) (name : String) (m : Manager) (o : Option Instance) (n : String)
      → (name == n) ≡ false
      → lookup n (stop_instance b name m o).0.instances ≡ lookup n m.instances
  unfolding stop_instance
  stop_instance-frame b name m none n e = refl
  stop_instance-frame b name m (some inst) n e =
      if_ind (λ (p : Manager × Bool). lookup n p.0.instances ≡ lookup n m.instances) b
        (λ _. rw (lookup-insert name n _ m.instances) (rw e refl)) (λ _. refl)

  stop-frame :
      (b : Bool) (name : String) (m : Manager) (n : String)
      → (name == n) ≡ false
      → lookup n (stop b name m).0.instances ≡ lookup n m.instances
  unfolding stop
  stop-frame b name m n e = stop_instance-frame b name m (lookup name m.instances) n e

  remove_machine-gone :
      (b : Bool) (name : String) (m : Manager)
      → lookup name (remove_machine b name m).instances ≡ none
  unfolding remove_machine
  remove_machine-gone b name m = rw (lookup-remove name name _) (rw (eq_refl name) refl)

  remove_machine-frame :
      (b : Bool) (name : String) (m : Manager) (n : String)
      → (name == n) ≡ false
      → lookup n (remove_machine b name m).instances ≡ lookup n m.instances
  unfolding remove_machine
  remove_machine-frame b name m n e = rw (lookup-remove name n _) (
      rw e (
        if_ind (λ (m' : Manager). lookup n m'.instances ≡ lookup n m.instances)
          (is_running (lookup name m.instances)) (λ _. stop-frame b name m n e) (λ _. refl)))

  -- The manager keeps the laws of a host.
  pub on_manager-Laws : Laws on_manager
  on_manager-Laws = record {
    start_runs = λ svc m. start-runs svc (launch svc) m;
    start_frame = λ svc m n. start-frame svc (launch svc) m n;
    remove_gone = λ name m. remove_machine-gone (found name) name m;
    remove_frame = λ name m n. remove_machine-frame (found name) name m n;
    preflight_frame = λ svc m n. refl;
    network_setup_frame = λ svc m n. refl;
    network_teardown_frame = λ svc m n. refl;
    setup_port_forward_frame = λ p ip q m n. refl;
    teardown_port_forward_frame = λ p ip q m n. refl;
    health_register_frame = λ svc m n. refl;
    health_deregister_frame = λ name m n. refl;
  }
