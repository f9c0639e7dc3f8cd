-- ===== src/Reconciler/Compare.antt =====
-- internal/reconciler/reconciler.go: needsUpdate and the comparisons that it makes.
use firework.Base.{
  ◌≡◌, refl, Bool, true, false, ◌&&◌, ◌||◌, not, ◌==◌, if◌then◌else◌, Option, none, some, List, [],
  ◌∷◌, eqb, str_lt, eq_refl, arith, length,
}
use firework.Vm.{Instance, state_running}
use firework.Config.{NetworkConfig, PortForward, VolumeConfig, ServiceConfig}

unfoldable pub volume_eq : VolumeConfig → VolumeConfig → Bool
volume_eq a b =
    a.name == b.name
    && a.type == b.type
    && a.mount_path == b.mount_path
    && eqb a.size_bytes b.size_bytes
    && a.bound_node == b.bound_node
    && a.shared_backend_id == b.shared_backend_id
    && eqb a.resize_generation b.resize_generation

-- Whether two slices of one length agree item by item.
unfoldable pub all_eq {ℓ} : {A : Type ℓ} → (A → A → Bool) → List A → List A → Bool
all_eq same [] [] = true
all_eq same [] (_ ∷ _) = false
all_eq same (_ ∷ _) [] = false
all_eq same (a ∷ as') (b ∷ bs) = same a b && all_eq same as' bs

unfoldable pub volume_less : VolumeConfig → VolumeConfig → Bool
volume_less a b = str_lt a.name b.name

-- `sort_slice` is the library's sort.Slice, whose order among equal names is its own.
abbrev pub SortSlice : Type 0
SortSlice = (VolumeConfig → VolumeConfig → Bool) → List VolumeConfig → List VolumeConfig

unfoldable pub volumes_equal : SortSlice → List VolumeConfig → List VolumeConfig → Bool
volumes_equal sort_slice a b =
    if not (eqb (length a) (length b))
    then false
    else all_eq volume_eq (sort_slice volume_less a) (sort_slice volume_less b)

unfoldable pub network_equal : Option NetworkConfig → Option NetworkConfig → Bool
network_equal none none = true
network_equal none (some _) = false
network_equal (some _) none = false
network_equal (some a) (some b) =
    a.interface == b.interface
    && a.guest_ip == b.guest_ip
    && a.guest_mac == b.guest_mac
    && a.host_dev_name == b.host_dev_name

unfoldable pub port_forward_eq : PortForward → PortForward → Bool
port_forward_eq a b = eqb a.host_port b.host_port && eqb a.vm_port b.vm_port

unfoldable pub port_forwards_equal : List PortForward → List PortForward → Bool
port_forwards_equal a b =
    if not (eqb (length a) (length b)) then false else all_eq port_forward_eq a b

unfoldable pub needs_update : SortSlice → Instance → ServiceConfig → Bool
needs_update sort_slice inst desired =
    let cur = inst.config in
    not (cur.image == desired.image)
    || not (cur.kernel == desired.kernel)
    || not (eqb cur.vcpus desired.vcpus)
    || not (eqb cur.memory_mb desired.memory_mb)
    || not (cur.kernel_args == desired.kernel_args)
    || not (network_equal cur.network desired.network)
    || not (port_forwards_equal cur.port_forwards desired.port_forwards)
    || not (volumes_equal sort_slice cur.volumes desired.volumes)
    || not (inst.state == state_running)

all_eq_refl {ℓ} :
    {A : Type ℓ} (same : A → A → Bool) (xs : List A)
    → ((a : A) → same a a ≡ true)
    → all_eq same xs xs ≡ true
unfolding all_eq
all_eq_refl same [] h = refl
all_eq_refl same (x ∷ xs) h = ground (arith, h x, all_eq_refl same xs h)

volume_eq_refl : (v : VolumeConfig) → volume_eq v v ≡ true
unfolding volume_eq
volume_eq_refl v = simp eq_refl (ground arith)

port_forward_eq_refl : (p : PortForward) → port_forward_eq p p ≡ true
unfolding port_forward_eq
port_forward_eq_refl p = ground arith

network_equal_refl : (n : Option NetworkConfig) → network_equal n n ≡ true
unfolding network_equal
network_equal_refl none = refl
network_equal_refl (some n) = simp eq_refl

volumes_equal_refl : (f : SortSlice) (v : List VolumeConfig) → volumes_equal f v v ≡ true
unfolding volumes_equal
volumes_equal_refl f v = ground (arith, all_eq_refl volume_eq (f volume_less v) volume_eq_refl)

port_forwards_equal_refl : (v : List PortForward) → port_forwards_equal v v ≡ true
unfolding port_forwards_equal
port_forwards_equal_refl v = ground (arith, all_eq_refl port_forward_eq v port_forward_eq_refl)

-- A machine that runs the very configuration that is desired needs no update.
pub needs_update-same :
    (f : SortSlice) (inst : Instance) (svc : ServiceConfig)
    → inst.config ≡ svc
    → inst.state ≡ state_running
    → needs_update f inst svc ≡ false
unfolding needs_update
needs_update-same f inst svc same runs =
    rw
      (
        same,
        runs,
        network_equal_refl svc.network,
        port_forwards_equal_refl svc.port_forwards,
        volumes_equal_refl f svc.volumes,
      )
      (simp eq_refl (ground arith))
