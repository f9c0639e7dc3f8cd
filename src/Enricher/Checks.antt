-- ===== src/Enricher/Checks.antt =====
-- internal/enricher/validation.go: the checks of the volumes and of the ports in the users' input. The
-- messages are data, in the order in which they are added; the maps that a check ranges over keep
-- the order of their entries.
use firework.Base.{
  ℕ, String, str_append, Bool, true, false, ◌&&◌, ◌||◌, not, ◌==◌, if◌then◌else◌, Option, none,
  some, List, [], ◌∷◌, ◌++◌, eqb, ltb, is_some, ◌⊎◌, inl, inr, length, join_all,
}
use text.Mathlib.Text.{starts_with}
use firework.Base.Int64.{gt64}
use firework.Base.Dict.{Dict, lookup, insert}
use firework.Base.Paths.{clean_path, is_abs}
use firework.Config.{PortForward, volume_type_local, volume_type_shared}
use firework.Config.Size.{SizeError, parse_volume_size}
use firework.Ingress.{matches_label}
use firework.Enricher.{ServiceSpec, VolumeSpec, HealthCheckSpec, VolumeDefaults, GlobalDefaults}
use firework.Enricher.Defaults.{merge_health_check}
pub mod Mounts

-- One message; the texts name the services, volumes and fields concerned.
pub data InputError : Type 0 where
  bad_default : String → InputError
  empty_name : InputError
  duplicate_name missing_image missing_node_type bad_health_type : String → InputError
  too_many_volumes : String → InputError
  bad_volume_name duplicate_volume bad_volume_type system_owned : String → String → InputError
  unclean_mount reserved_mount bad_volume_size : String → String → InputError
  duplicate_mount overlapping_mount : String → String → String → InputError
  both_routes bad_subdomain bad_host no_network no_backend : String → InputError
  duplicate_subdomain duplicate_host : String → String → InputError

abbrev pub complain {ℓ} : {A : Type ℓ} → Bool → A → List A
complain test message = if test then message ∷ [] else []

abbrev pub is_error : SizeError ⊎ ℕ → Bool
is_error (inl e) = true
is_error (inr bytes) = false

unfoldable pub check_default : String → String → List InputError
check_default field value =
    complain (not (value == "") && is_error (parse_volume_size value)) (bad_default field)

unfoldable pub validate_volume_defaults : VolumeDefaults → List InputError
unfolding check_default
validate_volume_defaults defs =
    check_default "volume_defaults.local_size" defs.local_size
    ++ check_default "volume_defaults.shared_size" defs.shared_size

unfoldable pub path_contains : String → String → Bool
path_contains parent child = not (parent == child) && starts_with child (str_append parent "/")

unfoldable pub within_any : String → List String → Bool
unfolding path_contains
within_any path [] = false
within_any path (reserved ∷ rest) =
    if (path == reserved) || path_contains reserved path then true else within_any path rest

abbrev pub reserved_mounts : List String
reserved_mounts = "/" ∷ "/proc" ∷ "/sys" ∷ "/dev" ∷ "/run" ∷ "/tmp" ∷ []

unfoldable pub forbidden_volume_mount : String → Bool
unfolding within_any
forbidden_volume_mount path = within_any path reserved_mounts

abbrev pub max_service_volumes : ℕ
max_service_volumes = 25

-- The mount paths met so far that contain the path or are in it.
unfoldable pub overlaps : String → String → String → Dict String → List InputError
overlaps svc volume cleaned [] = []
overlaps svc volume cleaned ((existing, name) ∷ paths) =
    complain (path_contains existing cleaned || path_contains cleaned existing)
      (overlapping_mount svc name volume)
    ++ overlaps svc volume cleaned paths

abbrev pub duplicate_path : String → String → Option String → List InputError
duplicate_path svc volume none = []
duplicate_path svc volume (some other) = duplicate_mount svc other volume ∷ []

abbrev pub check_mount : String → VolumeSpec → List InputError
check_mount svc volume =
    let path = volume.mount_path in
    if (path == "") || not (is_abs path) || not (clean_path path == path)
    then unclean_mount svc volume.name ∷ []
    else complain (forbidden_volume_mount (clean_path path)) (reserved_mount svc volume.name)

-- The body of the loop of validateVolumes, with the names and the paths met so far.
unfoldable pub volume_messages :
    String → Dict Bool → Dict String → VolumeSpec → List (List InputError)
volume_messages svc names paths volume =
    complain (not (matches_label volume.name)) (bad_volume_name svc volume.name)
    ∷ complain (is_some (lookup volume.name names)) (duplicate_volume svc volume.name)
    ∷ complain (not (volume.type == volume_type_local) && not (volume.type == volume_type_shared))
        (bad_volume_type svc volume.name)
    ∷ complain
        (not (volume.bound_node == "")
          || not (volume.shared_backend_id == "")
          || not (eqb volume.size_bytes 0)
          || not (eqb volume.resize_generation 0))
        (system_owned svc volume.name)
    ∷ check_mount svc volume
    ∷ duplicate_path svc volume.name (lookup (clean_path volume.mount_path) paths)
    ∷ overlaps svc volume.name (clean_path volume.mount_path) paths
    ∷ complain (not (volume.size == "") && is_error (parse_volume_size volume.size))
        (bad_volume_size svc volume.name)
    ∷ []

unfoldable pub check_volume : String → Dict Bool → Dict String → VolumeSpec → List InputError
unfolding volume_messages
check_volume svc names paths volume = join_all (volume_messages svc names paths volume)

unfoldable pub check_volumes : String → Dict Bool → Dict String → List VolumeSpec → List InputError
check_volumes svc names paths [] = []
check_volumes svc names paths (volume ∷ volumes) =
    check_volume svc names paths volume
    ++ check_volumes svc (insert volume.name true names)
        (insert (clean_path volume.mount_path) volume.name paths) volumes

unfoldable pub validate_volumes : ServiceSpec → List InputError
validate_volumes svc =
    complain (ltb max_service_volumes (length svc.volumes)) (too_many_volumes svc.name)
    ++ check_volumes svc.name [] [] svc.volumes

abbrev pub positive_port : Option HealthCheckSpec → ℕ
positive_port none = 0
positive_port (some hc) = if gt64 hc.port 0 then hc.port else 0

abbrev pub first_vm_port : List PortForward → ℕ → ℕ
first_vm_port [] fallback = fallback
first_vm_port (forward ∷ rest) fallback = forward.vm_port

unfoldable pub effective_backend_port : ServiceSpec → GlobalDefaults → ℕ
effective_backend_port spec defs =
    first_vm_port spec.port_forwards
      (positive_port (merge_health_check spec.health_check defs.health_check))
