-- ===== src/Vm.antt =====
-- internal/vm/manager.go: the table of the virtual machines of a node. What the operating system does
-- (directories, processes, signals) and the volume manager are arguments: the outcome of a launch, of
-- looking up a process and of its end.
use firework.Base.{ℕ, String, Bool, true, false, ◌==◌, if◌then◌else◌, Option, none, some}
use firework.Base.Dict.{Dict, lookup, insert, remove, update}
use firework.Config.{ServiceConfig}

abbrev pub state_running : String
state_running = "running"

abbrev pub state_stopped : String
state_stopped = "stopped"

abbrev pub state_failed : String
state_failed = "failed"

pub record Instance : Type 0 where
  pub name : String
  pub config : ServiceConfig
  pub state : String
  pub pid : ℕ
  pub last_error : String

pub record Manager : Type 0 where
  pub instances : Dict Instance
  pub volume_errors : String → String

-- What the launch of a machine comes to: the volumes cannot be prepared, a later step fails, or a
-- process runs.
pub data Launch : Type 0 where
  volumes_fail launch_fail : String → Launch
  launched : ℕ → Launch

abbrev pub is_running : Option Instance → Bool
is_running none = false
is_running (some i) = i.state == state_running

unfoldable pub put_launched : ServiceConfig → Launch → Manager → Manager × Bool
put_launched svc (volumes_fail err) m =
    (record m { volume_errors = update m.volume_errors svc.name err }, false)
put_launched svc (launch_fail err) m = (m, false)
put_launched svc (launched pid) m = (
  record {
    instances =
        insert svc.name
          (record {
            name = svc.name;
            config = svc;
            state = state_running;
            pid = pid;
            last_error = "";
          })
          m.instances;
    volume_errors = update m.volume_errors svc.name "";
  },
  true,
)

unfoldable pub start : Launch → ServiceConfig → Manager → Manager × Bool
start launch svc m =
    if is_running (lookup svc.name m.instances) then (m, false) else put_launched svc launch m

-- Stop, on the instance that it finds; `found` is whether the operating system has a process of that
-- number.
unfoldable pub stop_instance : Bool → String → Manager → Option Instance → Manager × Bool
stop_instance found name m none = (m, false)
stop_instance found name m (some inst) =
    if found
    then (
      record m {
        instances = insert name (record inst { state = state_stopped; pid = 0 }) m.instances;
      },
      true,
    )
    else (m, false)

unfoldable pub stop : Bool → String → Manager → Manager × Bool
stop found name m = stop_instance found name m (lookup name m.instances)

-- An error of the stop and one of the directory's removal leave the table as it is without them.
unfoldable pub remove_machine : Bool → String → Manager → Manager
remove_machine found name m =
    let stopped = (stop found name m).0 in
    let m' = if is_running (lookup name m.instances) then stopped else m in
    record m' { instances = remove name m'.instances }

-- What the end of the process, with or without an error, makes of an instance.
unfoldable pub ended : Option String → Instance → Instance
ended none inst = record inst { state = state_stopped; pid = 0 }
ended (some err) inst =
    if inst.state == state_stopped
    then inst
    else record inst { state = state_failed; last_error = err; pid = 0 }

unfoldable pub monitor : Option String → String → Manager → Manager
monitor err name m = elim (lookup name m.instances) [
  | none ↦ m
  | some inst ↦ record m { instances = insert name (ended err inst) m.instances }
]
