-- ===== src/Scheduler/Storage.antt =====
-- internal/scheduler/scheduler.go: localBinding, hasSharedVolume and fitStorage.
use firework.Base.{
  ℕ, String, Bool, true, false, ◌&&◌, ◌||◌, not, ◌==◌, if◌then◌else◌, Option, none, some, List, [],
  ◌∷◌, str_append,
}
use firework.Base.Int64.{add64, gt64}
use firework.Config.{VolumeConfig, ServiceConfig, volume_type_local, volume_type_shared}
use firework.Scheduler.{Node, StorageReservations}

-- The loop of localBinding: the binding found so far, and whether two bindings disagree.
unfoldable pub binding_from : String → List VolumeConfig → String × Bool
binding_from bound [] = (bound, false)
binding_from bound (volume ∷ volumes) =
    let skip = binding_from bound volumes in
    let rest = binding_from volume.bound_node volumes in
    if not (volume.type == volume_type_local) || volume.bound_node == ""
    then skip
    else if not (bound == "") && not (bound == volume.bound_node)
    then ("", true)
    else rest

unfoldable pub local_binding : ServiceConfig → String × Bool
local_binding service = binding_from "" service.volumes

unfoldable pub any_shared : List VolumeConfig → Bool
any_shared [] = false
any_shared (volume ∷ volumes) = volume.type == volume_type_shared || any_shared volumes

unfoldable pub has_shared_volume : ServiceConfig → Bool
has_shared_volume service = any_shared service.volumes

-- service.Name + "/" + volume.Name
abbrev pub logical_id : String → String → String
logical_id service volume = str_append service (str_append "/" volume)

-- A service bound to a node's storage, with the bytes that it newly reserves.
pub record Fit : Type 0 where
  pub candidate : ServiceConfig
  pub local_delta : ℕ
  pub shared_delta : ℕ

module _ (service : String) (node : Node) (reservations : StorageReservations) where
  -- What a volume adds to a delta: a recorded volume is already reserved.
  unfoldable pub charge : VolumeConfig → ℕ → ℕ
  charge volume delta =
      if reservations.recorded_logical_ids (logical_id service volume.name)
      then delta
      else add64 delta volume.size_bytes

  -- The body of the loop over the volumes: `none` is its early return.
  unfoldable pub fit_volume : VolumeConfig → ℕ → ℕ → Option (VolumeConfig × ℕ × ℕ)
  fit_volume volume local shared =
      if volume.type == volume_type_local
      then (if not (gt64 node.local_capacity_bytes 0)
            || (not (volume.bound_node == "") && not (volume.bound_node == node.instance_id))
          then none
          else some (record volume { bound_node = node.instance_id }, charge volume local, shared))
      else if volume.type == volume_type_shared
      then (if node.shared_backend_id == ""
            || (not (volume.shared_backend_id == "")
                && not (volume.shared_backend_id == node.shared_backend_id))
          then none
          else some (
            record volume { shared_backend_id = node.shared_backend_id },
            local,
            charge volume shared,
          ))
      else some (volume, local, shared)

  unfoldable pub fit_volumes : List VolumeConfig → ℕ → ℕ → Option (List VolumeConfig × ℕ × ℕ)
  fit_volumes [] local shared = some ([], local, shared)
  fit_volumes (volume ∷ volumes) local shared = elim (fit_volume volume local shared) [
    | none ↦ none
    | some (volume', local', shared') ↦ elim (fit_volumes volumes local' shared') [
      | none ↦ none
      | some (volumes', l, s) ↦ some (volume' ∷ volumes', l, s)
    ]
  ]

-- The admission of the summed deltas against the node's and the backend's quota.
unfoldable pub admits_storage :
    Node → StorageReservations → (String → ℕ) → (String → ℕ) → ℕ → ℕ → Bool
admits_storage node reservations used_local used_shared local shared =
    let id = node.instance_id in
    let backend = node.shared_backend_id in
    if gt64 (add64 (add64 (reservations.local_by_node id) (used_local id)) local)
      node.local_capacity_bytes
    then false
    else if gt64 shared 0
        && gt64 node.shared_capacity_bytes 0
        && gt64
            (add64 (add64 (reservations.shared_by_backend backend) (used_shared backend)) shared)
            node.shared_capacity_bytes
    then false
    else true

-- fitStorage: `none` where the service does not fit.
unfoldable pub fit_storage :
    ServiceConfig → Node → StorageReservations → (String → ℕ) → (String → ℕ) → Option Fit
fit_storage service node reservations used_local used_shared =
    elim (fit_volumes service.name node reservations service.volumes 0 0) [
      | none ↦ none
      | some (volumes, local, shared) ↦
          if admits_storage node reservations used_local used_shared local shared
          then some (record {
            candidate = record service { volumes = volumes };
            local_delta = local;
            shared_delta = shared;
          })
          else none
    ]
