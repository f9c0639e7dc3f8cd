-- ===== src/ControlPlane/Samples.antt =====
-- Stores, controllers, records of nodes and of volumes on which the control plane is run.
use firework.Base.{
  ◌≤◌, ℕ, String, ◌≡◌, ◌+◌, ◌<◌, ◌⊎◌, refl, Bool, true, false, ◌&&◌, ◌==◌, none, some, [], ◌∷◌, eqb,
  arith, eq_iff, eq_refl, if◌then◌else◌,
}
use firework.Base.Dict.{lookup}
use firework.Base.Int64.{half_word, gt64, lt64, add64}
use firework.Base.Text.{trim_space}
use firework.Config.{VolumeConfig, volume_type_local}
use firework.ControlPlane.StateStore.{CellStore, stored}
use firework.ControlPlane.StateStore.ByContents.{by_contents}
use firework.ControlPlane.Upsert.{Mutation, keep, refuse, Round, upsert}
use firework.ControlPlane.Upsert.Atomic.{Explains, upsert-Explains}
use firework.ControlPlane.Leader.{
  still_leader, LeaderLock, Controller, create, decide, conclude, attempt, outcome_of, won,
  forget_on_change,
}
use firework.ControlPlane.Leader.System.{System, idle, Reach, steps, here, next, read, answer}
use firework.ControlPlane.Leader.Seats.{IsFresh}
use firework.ControlPlane.Leader.Epochs.{epoch_has_one_leader, leader_holds_or_is_behind}
use firework.ControlPlane.Leader.Publication.{still_leader_is_last}
use firework.ControlPlane.Registry.{
  NodeRecord, NodeRegisterRequest, NodeHeartbeatRequest, Refusal, VolumeStatus, new_record,
  register, heartbeat, beat, apply_heartbeat_agent_status, no_resources,
}
use firework.ControlPlane.Registry.Generations.{
  registered, beaten, Change-generation, Change-registered_at,
}
use firework.ControlPlane.Registry.Handlers.{EnrollRequest, Signer, enroll, handle_enroll, certify}
use firework.ControlPlane.Registry.Handlers.Access.{handle_enroll-certificate}
use firework.ControlPlane.VolumeRecords.{
  VolumeRecord, resize_pending, resize_applied, record_error, acknowledge, concerns, observed,
  apply_existing, bound_to, resized,
}
use firework.ControlPlane.VolumeRecords.Resizes.{
  IsResize, acknowledge-record_error, apply_existing-IsResize,
}

-- A store of numbers, and rounds in which someone else writes first and no call fails.
eqb-eq : (a b : ℕ) → eqb a b ≡ true → a ≡ b
eqb-eq a b h = ground arith

eqb_refl : (a : ℕ) → eqb a a ≡ true
eqb_refl a = ground arith

abbrev counter : CellStore ℕ
counter = by_contents eqb eqb-eq eqb_refl

abbrev calm : ℕ → Round counter
calm i = record {
  before = λ c. c;
  between = λ c. if eqb i 0 then some 7 else c;
  now = i;
  get_fails = false;
  put_fails = false;
  put_lands = false;
}

abbrev add_one : ℕ → ℕ → Mutation Refusal ℕ
add_one now v = keep (v + 1)

upsert-Explains_example : Explains counter calm 0 add_one none (upsert counter 0 add_one calm none)
upsert-Explains_example = upsert-Explains counter calm 0 add_one none

-- A store of locks, with two controllers.
abbrev same_lock : LeaderLock → LeaderLock → Bool
same_lock a b =
    a.holder_id == b.holder_id
    && eqb a.leader_epoch b.leader_epoch
    && eqb a.lease_expires_at b.lease_expires_at
    && eqb a.renewed_at b.renewed_at

same_lock-eq : (a b : LeaderLock) → same_lock a b ≡ true → a ≡ b
same_lock-eq a b h =
    let holder : a.holder_id ≡ b.holder_id = ground (arith, eq_iff a.holder_id b.holder_id) in
    let epoch : a.leader_epoch ≡ b.leader_epoch = ground arith in
    let expiry : a.lease_expires_at ≡ b.lease_expires_at = ground arith in
    let renewal : a.renewed_at ≡ b.renewed_at = ground arith in cc

same_lock_refl : (a : LeaderLock) → same_lock a a ≡ true
same_lock_refl a = simp eq_refl (ground arith)

abbrev locks : CellStore LeaderLock
locks = by_contents same_lock same_lock-eq same_lock_refl

abbrev follower : String → Controller
follower id = record { id = id; epoch = 0; leader = false; last_input_signature = "" }

abbrev fresh : System locks 10
fresh = record {
  cell = none;
  members = λ i. idle locks 10 (follower (if eqb i 0 then "a" else "b"));
}

fresh-IsFresh : IsFresh locks 10 fresh
fresh-IsFresh = record { no_lock = refl; followers = λ i. refl; quiet = λ i. refl }

program : Unit {0}
unfolding decide conclude attempt outcome_of won forget_on_change
program = tt

abbrev first_lock : LeaderLock
first_lock = record { holder_id = "a"; leader_epoch = 1; lease_expires_at = 15; renewed_at = 5 }

-- Controller 0 reads at time 5 and is told that its lock is written.
abbrev elected : (t : System locks 10) × Reach locks 10 fresh t
unfolding program
elected = (_, next (next here (read 0 5)) (answer 0 (create first_lock) refl))

epoch_has_one_leader_example : (elected.0.members 0).ctl.id ≡ (elected.0.members 0).ctl.id
unfolding program elected steps
epoch_has_one_leader_example =
    epoch_has_one_leader locks 10 0 0 fresh-IsFresh elected.1 (omega arith) refl refl refl

leader_holds_or_is_behind_example :
    (w : LeaderLock) × (stored locks elected.0.cell ≡ some w)
    × (w.leader_epoch < half_word)
    × (((w.holder_id ≡ "a") × (w.leader_epoch ≡ 1)) ⊎ (1 < w.leader_epoch))
unfolding program elected steps
leader_holds_or_is_behind_example =
    leader_holds_or_is_behind locks 10 0 fresh-IsFresh elected.1 (omega arith) refl

still_leader_is_last_example : ((elected.0.members 0).ctl.epoch ≤ 1) × (1 < half_word)
unfolding program elected steps still_leader
still_leader_is_last_example =
    still_leader_is_last locks 10 0 0 6 fresh-IsFresh elected.1 (omega arith) refl refl

-- A node that registers and then sends a heartbeat.
abbrev as_it_is : String → String
as_it_is t = t

abbrev registration : NodeRegisterRequest
registration = record {
  node_id = "i-1";
  generation = 5;
  labels = "web" ∷ [];
  capacity = record { vcpus = 4; memory_mb = 4096 };
  state = "";
  host_ip = "10.0.0.1";
  storage = record { local_capacity_bytes = 0; shared_backend_id = ""; shared_capacity_bytes = 0 };
}

abbrev heartbeat_request : NodeHeartbeatRequest
heartbeat_request = record {
  node_id = "i-1";
  generation = 5;
  capacity = no_resources;
  used = record { vcpus = 1; memory_mb = 512 };
  host_ip = "";
  agent_status = none;
  storage = record { local_capacity_bytes = 0; shared_backend_id = ""; shared_capacity_bytes = 0 };
}

abbrev kept : Mutation Refusal NodeRecord → NodeRecord
kept (keep r) = r
kept (refuse e) = new_record ""

registry : Unit {0}
unfolding register heartbeat beat apply_heartbeat_agent_status lt64
registry = tt

abbrev node_after_register : NodeRecord
node_after_register = kept (register registration 10 (new_record "i-1"))

abbrev node_after_heartbeat : NodeRecord
node_after_heartbeat = kept (heartbeat as_it_is heartbeat_request 20 node_after_register)

Change-generation_example :
    gt64 (new_record "i-1").generation node_after_register.generation ≡ false
unfolding registry
Change-generation_example =
    Change-generation as_it_is 10 {cur = new_record "i-1"} {next = node_after_register}
      (omega arith) (registered registration refl)

Change-registered_at_example :
    node_after_heartbeat.registered_at ≡ node_after_register.registered_at
unfolding registry
Change-registered_at_example =
    Change-registered_at as_it_is 20 {cur = node_after_register} {next = node_after_heartbeat}
      (beaten heartbeat_request refl) refl (λ e. ground (arith, e))

-- A node that enrolls with a token that is bound to it.
abbrev signer : Signer
signer node_id csr = some ("CERTIFICATE", 100)

abbrev enrolling : EnrollRequest
enrolling = record { node_id = "i-1"; bootstrap_token = "secret"; csr_pem = "CSR" }

handle_enroll-certificate_example :
    (signer (trim_space "i-1") "CSR" ≡ some ("CERTIFICATE", 100))
    × ((bound : String) × (lookup "secret" (("secret", "i-1") ∷ []) ≡ some bound)
        × ((bound ≡ "") ⊎ (bound ≡ trim_space "i-1")))
unfolding handle_enroll enroll certify trim_space lookup
handle_enroll-certificate_example =
    handle_enroll-certificate signer (("secret", "i-1") ∷ []) enrolling "CERTIFICATE" 100 refl

-- A volume of 50 bytes that grows to 80.
abbrev volume_record : VolumeRecord
volume_record = record {
  logical_id = "db/data";
  type = volume_type_local;
  bound_node = "i-1";
  shared_backend_id = "";
  desired_size_bytes = 50;
  applied_size_bytes = 0;
  resize_generation = 1;
  resize_state = resize_pending;
  last_error = "";
  created_at = 1;
  updated_at = 1;
}

abbrev prepared_volume : VolumeStatus
prepared_volume = record {
  logical_id = "db/data";
  mount_path = "/data";
  desired_size_bytes = 50;
  type = volume_type_local;
  bound_node = "i-1";
  shared_backend_id = "";
  applied_size_bytes = 50;
  resize_generation = 1;
  state = "prepared";
  last_error = "";
}

abbrev applied_record : VolumeRecord
applied_record = record volume_record {
  applied_size_bytes = 50;
  resize_state = resize_applied;
  updated_at = 2;
}

abbrev desired_volume : VolumeConfig
desired_volume = record {
  name = "data";
  type = volume_type_local;
  mount_path = "/data";
  size_bytes = 80;
  bound_node = "";
  shared_backend_id = "";
  resize_generation = 0;
}

volumes : Unit {0}
unfolding record_error acknowledge concerns observed apply_existing bound_to resized lt64 add64
volumes = tt

acknowledge-record_error_example : record_error applied_record ≡ none
unfolding volumes
acknowledge-record_error_example =
    acknowledge-record_error as_it_is 2 "i-1" prepared_volume volume_record applied_record refl refl

apply_existing-IsResize_example :
    IsResize as_it_is 4 "i-1" prepared_volume desired_volume volume_record
      (apply_existing 3 desired_volume (some volume_record))
apply_existing-IsResize_example =
    apply_existing-IsResize as_it_is 4 "i-1" prepared_volume 3 desired_volume volume_record
      (omega arith) refl
