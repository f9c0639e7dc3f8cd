-- ===== src/ControlPlane/VolumeRecords.antt =====
-- internal/controlplane/volume_records.go: the checks of a stored volume record, what a desired volume
-- takes from it, what the agents' observations make of it, and the storage that the records reserve.
-- One record at a time: the loops over the keys of the store, and its writes, are left out.
-- BoundedMessage (internal/statusmodel) is a parameter.
pub mod Resizes
use firework.Base.{
  ℕ, String, Bool, true, false, ◌&&◌, ◌||◌, not, ◌==◌, if◌then◌else◌, Option, none, some, List, [],
  ◌∷◌, eqb,
}
use firework.Base.Int64.{add64, lt64}
use firework.Base.Dict.{update}
use firework.Config.{VolumeConfig, volume_type_local, volume_type_shared}
use firework.Scheduler.{StorageReservations, add_at}
use firework.ControlPlane.Registry.{VolumeStatus}

-- VolumeResizeState is a string with three legal values.
abbrev pub resize_pending : String
resize_pending = "pending"

abbrev pub resize_applied : String
resize_applied = "applied"

abbrev pub resize_failed : String
resize_failed = "failed"

pub record VolumeRecord : Type 0 where
  pub logical_id : String
  pub type : String
  pub bound_node : String
  pub shared_backend_id : String
  pub desired_size_bytes : ℕ
  pub applied_size_bytes : ℕ
  pub resize_generation : ℕ
  pub resize_state : String
  pub last_error : String
  pub created_at : ℕ
  pub updated_at : ℕ

-- x <= 0
abbrev pub not_positive : ℕ → Bool
not_positive x = not (lt64 0 x)

pub data Complaint : Type 0 where
  size_or_generation negative_applied resize_state applied_mismatch : Complaint
  no_bound_node no_shared_backend bad_type : Complaint

-- The checks that loadVolumeRecords makes of a record that it read, once its key is right.
unfoldable pub record_error : VolumeRecord → Option Complaint
record_error r =
    if not_positive r.desired_size_bytes || not_positive r.resize_generation
    then some size_or_generation
    else if lt64 r.applied_size_bytes 0
    then some negative_applied
    else if not (r.resize_state == resize_pending)
        && not (r.resize_state == resize_applied)
        && not (r.resize_state == resize_failed)
    then some resize_state
    else if r.resize_state == resize_applied && not (eqb r.applied_size_bytes r.desired_size_bytes)
    then some applied_mismatch
    else if r.type == volume_type_local && r.bound_node == ""
    then some no_bound_node
    else if r.type == volume_type_shared && r.shared_backend_id == ""
    then some no_shared_backend
    else if not (r.type == volume_type_local) && not (r.type == volume_type_shared)
    then some bad_type
    else none

-- What applyExistingVolumeRecords makes of one desired volume.
pub data Bind : Type 0 where
  bind_refused : Complaint → Bind
  bind_as : VolumeConfig → Bind
  -- The record is written first, on the token that was read with it.
  bind_after_write : VolumeConfig → VolumeRecord → Bind

unfoldable pub resized : ℕ → VolumeConfig → VolumeRecord → VolumeRecord
resized now v r = record r {
  desired_size_bytes = v.size_bytes;
  resize_generation = add64 r.resize_generation 1;
  resize_state = resize_pending;
  last_error = "";
  updated_at = now;
}

-- The volume with what its record says of its place and of its generation.
unfoldable pub bound_to : VolumeConfig → VolumeRecord → ℕ → VolumeConfig
bound_to v r generation = record v {
  bound_node = r.bound_node;
  shared_backend_id = r.shared_backend_id;
  resize_generation = generation;
}

unfoldable pub apply_existing : ℕ → VolumeConfig → Option VolumeRecord → Bind
apply_existing now v none = bind_as (record v { resize_generation = 1 })
apply_existing now v (some r) =
    if not (r.type == v.type)
    then bind_refused bad_type
    else if r.type == volume_type_local && r.bound_node == ""
    then bind_refused no_bound_node
    else if r.type == volume_type_shared && r.shared_backend_id == ""
    then bind_refused no_shared_backend
    else if eqb r.desired_size_bytes v.size_bytes
    then bind_as (bound_to v r r.resize_generation)
    else bind_after_write (bound_to v r (resized now v r).resize_generation) (resized now v r)

-- The record that createAssignedVolumeRecords writes for a volume without one.
unfoldable pub created : ℕ → String → VolumeConfig → VolumeRecord
created now logical_id v = record {
  logical_id = logical_id;
  type = v.type;
  bound_node = v.bound_node;
  shared_backend_id = v.shared_backend_id;
  desired_size_bytes = v.size_bytes;
  applied_size_bytes = 0;
  resize_generation = if lt64 1 v.resize_generation then v.resize_generation else 1;
  resize_state = resize_pending;
  last_error = "";
  created_at = now;
  updated_at = now;
}

-- The larger of the desired and the applied size is reserved.
unfoldable pub reserved_size : VolumeRecord → ℕ
reserved_size r =
    if lt64 r.desired_size_bytes r.applied_size_bytes
    then r.applied_size_bytes
    else r.desired_size_bytes

unfoldable pub reserve_record : VolumeRecord → StorageReservations → StorageReservations
reserve_record r s =
    let local = record s {
      recorded_logical_ids = update s.recorded_logical_ids r.logical_id true;
      local_by_node = add_at s.local_by_node r.bound_node (reserved_size r);
    } in
    let shared = record s {
      recorded_logical_ids = update s.recorded_logical_ids r.logical_id true;
      shared_by_backend = add_at s.shared_by_backend r.shared_backend_id (reserved_size r);
    } in
    if r.type == volume_type_local then local else shared

unfoldable pub storage_reservations : List VolumeRecord → StorageReservations
storage_reservations [] = record {
  local_by_node = λ id. 0;
  shared_by_backend = λ id. 0;
  recorded_logical_ids = λ id. false;
  shared_enabled = false;
}
storage_reservations (r ∷ records) = reserve_record r (storage_reservations records)

-- Whether an agent on the node may speak for the record: acknowledgeVolumeRecords up to its second
-- switch.
unfoldable pub concerns : String → VolumeStatus → VolumeRecord → Bool
concerns node_id seen r =
    (seen.state == "prepared" || seen.state == "error")
    && eqb seen.resize_generation r.resize_generation
    && seen.type == r.type
    && (if r.type == volume_type_local
        then node_id == r.bound_node && seen.bound_node == r.bound_node
        else r.type == volume_type_shared && seen.shared_backend_id == r.shared_backend_id)

module _ (bounded_message : String → String) where
  -- The second switch; `none` is its `continue`.
  unfoldable pub observed : VolumeStatus → VolumeRecord → Option VolumeRecord
  observed seen r =
      if seen.state == "prepared"
      then (if not_positive seen.applied_size_bytes
            || not (eqb seen.applied_size_bytes r.desired_size_bytes)
          then none
          else if eqb r.applied_size_bytes seen.applied_size_bytes
              && r.resize_state == resize_applied
              && r.last_error == ""
          then none
          else some (record r {
            applied_size_bytes = seen.applied_size_bytes;
            resize_state = resize_applied;
            last_error = "";
          }))
      else if r.resize_state == resize_failed && r.last_error == bounded_message seen.last_error
      then none
      else some
          (record r { resize_state = resize_failed; last_error = bounded_message seen.last_error })

  abbrev pub stamp : ℕ → Option VolumeRecord → Option VolumeRecord
  stamp now none = none
  stamp now (some r) = some (record r { updated_at = now })

  -- The record to write for one observed volume, if any.
  unfoldable pub acknowledge : ℕ → String → VolumeStatus → VolumeRecord → Option VolumeRecord
  acknowledge now node_id seen r =
      if concerns node_id seen r then stamp now (observed seen r) else none
