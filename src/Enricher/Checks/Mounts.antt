-- ===== src/Enricher/Checks/Mounts.antt =====
-- validateVolumes of internal/enricher/validation.go: the mounts of an accepted service lie apart.
use text.Mathlib.Text.{starts_with}
use mathlib.Core.List.{cons-ne-nil}
use firework.Base.{
  ℕ, String, str_append, Bool, true, false, ◌≡◌, refl, sym, subst, ◌||◌, not, ◌==◌, if◌then◌else◌,
  Option, none, some, List, [], ◌∷◌, is_some, arith, Bool-cases, All, All-map, join_all-nil,
  append-eq_nil, inl, inr, eq_iff, ltb, length, ◌≤◌,
}
use firework.Base.Dict.{Dict, lookup, insert, lookup-insert}
use firework.Base.Sort.{Pairwise}
use firework.Base.Paths.{clean_path, is_abs}
use firework.Enricher.{ServiceSpec, VolumeSpec}
use firework.Enricher.Checks.{
  within_any, complain, path_contains, forbidden_volume_mount, overlaps, duplicate_path,
  check_mount, volume_messages, check_volume, check_volumes, validate_volumes, overlapping_mount,
  max_service_volumes, too_many_volumes,
}

pub complain-eq_nil : {A : Type 0} (b : Bool) (m : A) → complain b m ≡ [] → b ≡ false
complain-eq_nil true m e = absurd (cons-ne-nil m [] e)
complain-eq_nil false m e = refl

-- The path is none of the directories of the system, nor does it begin with one and a slash.
abbrev IsApartFrom : String → String → Type 0
IsApartFrom path directory =
    ((path == directory) ≡ false) × (starts_with path (str_append directory "/") ≡ false)

abbrev system_directories : List String
system_directories = "/" ∷ "/proc" ∷ "/sys" ∷ "/dev" ∷ "/run" ∷ "/tmp" ∷ []

abbrev pub IsOutside : String → Type 0
IsOutside path = All (IsApartFrom path) system_directories

within_any-IsApartFrom :
    (path : String) (directories : List String)
    → within_any path directories ≡ false
    → All (IsApartFrom path) directories
unfolding within_any path_contains
within_any-IsApartFrom path [] h = tt
within_any-IsApartFrom path (directory ∷ rest) h = (
  (ground (arith, h), ground (arith, h, eq_iff directory path, eq_iff path directory)),
  within_any-IsApartFrom path rest (ground (arith, h)),
)

forbidden_volume_mount-IsOutside :
    (path : String) → forbidden_volume_mount path ≡ false → IsOutside path
unfolding forbidden_volume_mount
forbidden_volume_mount-IsOutside path h = within_any-IsApartFrom path system_directories h

-- A mount is a clean absolute path, outside the directories of the system.
abbrev pub IsMount : VolumeSpec → Type 0
IsMount v =
    ((clean_path v.mount_path == v.mount_path) ≡ true)
    × (is_abs v.mount_path ≡ true)
    × (forbidden_volume_mount v.mount_path ≡ false)
    × IsOutside v.mount_path

-- Two volumes have different names, and neither is mounted at or below the other.
abbrev pub Apart : VolumeSpec → VolumeSpec → Type 0
Apart a b =
    ((a.name == b.name) ≡ false)
    × ((a.mount_path == b.mount_path) ≡ false)
    × ((path_contains a.mount_path b.mount_path || path_contains b.mount_path a.mount_path) ≡ false)

-- What the checks of a volume say, with the names and paths met so far.
record IsClear (svc : String) (names : Dict Bool) (paths : Dict String) (v : VolumeSpec)
    : Type 0 where
  new_name : is_some (lookup v.name names) ≡ false
  new_path : is_some (lookup v.mount_path paths) ≡ false
  disjoint : overlaps svc v.name v.mount_path paths ≡ []
  mounted : IsMount v

none_only :
    (svc volume : String) (o : Option String) → duplicate_path svc volume o ≡ [] → is_some o ≡ false
none_only svc volume none h = refl
none_only svc volume (some other) h = absurd (cons-ne-nil _ _ h)

duplicate_path-new :
    (svc volume path : String) (paths : Dict String)
    → duplicate_path svc volume (lookup path paths) ≡ []
    → is_some (lookup path paths) ≡ false
duplicate_path-new svc volume path paths h = none_only svc volume (lookup path paths) h

check_mount-IsMount : (svc : String) (v : VolumeSpec) → check_mount svc v ≡ [] → IsMount v
check_mount-IsMount svc v h =
    let dirty : Bool =
      (v.mount_path == "")
      || not (is_abs v.mount_path)
      || not (clean_path v.mount_path == v.mount_path) in
    elim (Bool-cases dirty) [
      | inl e ↦ absurd (cons-ne-nil _ _ (rw (e, if◌then◌else◌) at h))
      | inr e ↦
          let free = complain-eq_nil _ _ (rw (e, if◌then◌else◌) at h) in
          let clean : (clean_path v.mount_path == v.mount_path) ≡ true = ground (arith, e) in
          let same = (eq_iff (clean_path v.mount_path) v.mount_path).0 clean in
          let outside = rw same at free in
          (clean, ground (arith, e), outside, forbidden_volume_mount-IsOutside v.mount_path outside)
    ]

check_volume-IsClear :
    (svc : String) (names : Dict Bool) (paths : Dict String) (v : VolumeSpec)
    → check_volume svc names paths v ≡ []
    → IsClear svc names paths v
unfolding check_volume volume_messages
check_volume-IsClear svc names paths v h =
    let (_, (name_on, (_, (_, (mount_on, (path_on, (overlap_on, _))))))) =
      join_all-nil (volume_messages svc names paths v) h in
    let mounted = check_mount-IsMount svc v mount_on in
    let same : clean_path v.mount_path ≡ v.mount_path =
      (eq_iff (clean_path v.mount_path) v.mount_path).0 mounted.0 in
    record {
      new_name = complain-eq_nil _ _ name_on;
      new_path = duplicate_path-new svc v.name v.mount_path paths (rw same at path_on);
      disjoint = rw same at overlap_on;
      mounted = mounted;
    }

-- A path that was added is checked with the others.
overlaps-insert :
    (svc volume c p n : String) (paths : Dict String)
    → overlaps svc volume c (insert p n paths) ≡ []
    → (overlaps svc volume c paths ≡ []) × ((path_contains p c || path_contains c p) ≡ false)
unfolding overlaps insert
overlaps-insert svc volume c p n [] h = (refl, complain-eq_nil _ _ (append-eq_nil _ _ h).0)
overlaps-insert svc volume c p n ((k, w) ∷ rest) h = elim (Bool-cases (k == p)) [
  | inl e ↦
      let (first, others) =
        append-eq_nil
          (complain (path_contains p c || path_contains c p) (overlapping_mount svc n volume))
          (overlaps svc volume c rest) (rw (e, if◌then◌else◌) at h) in
      let apart = complain-eq_nil _ _ first in
      let same : k ≡ p = (eq_iff k p).0 e in
      let old : (path_contains k c || path_contains c k) ≡ false =
        subst (λ (q : String). (path_contains q c || path_contains c q) ≡ false) (sym same) apart in
      (rw (old, others) refl, apart)
  | inr e ↦
      let (first, others) =
        append-eq_nil
          (complain (path_contains k c || path_contains c k) (overlapping_mount svc w volume))
          (overlaps svc volume c (insert p n rest)) (rw (e, if◌then◌else◌) at h) in
      let (kept, apart) = overlaps-insert svc volume c p n rest others in
      (rw (complain-eq_nil _ _ first, kept) refl, apart)
]

some_unless :
    {A : Type 0} (a : A) (b : Bool) (o : Option A)
    → is_some (if b then some a else o) ≡ false
    → (b ≡ false) × (is_some o ≡ false)
some_unless a true o h = absurd (ground (arith, h))
some_unless a false o h = (refl, h)

IsClear-before :
    (svc : String) (names : Dict Bool) (paths : Dict String) (a b : VolumeSpec)
    → IsClear svc (insert a.name true names) (insert a.mount_path a.name paths) b
    → IsClear svc names paths b × Apart a b
IsClear-before svc names paths a b k =
    let name_found = lookup-insert a.name b.name true names in
    let path_found = lookup-insert a.mount_path b.mount_path a.name paths in
    let (kept, apart) =
      overlaps-insert svc b.name b.mount_path a.mount_path a.name paths k.disjoint in
    let (name_differs, name_new) =
      some_unless true (a.name == b.name) (lookup b.name names) (rw name_found at k.new_name) in
    let (path_differs, path_new) =
      some_unless a.name (a.mount_path == b.mount_path) (lookup b.mount_path paths)
        (rw path_found at k.new_path) in
    (
      record { new_name = name_new; new_path = path_new; disjoint = kept; mounted = k.mounted },
      (name_differs, path_differs, apart),
    )

check_volumes-Apart :
    (svc : String) (names : Dict Bool) (paths : Dict String) (volumes : List VolumeSpec)
    → check_volumes svc names paths volumes ≡ []
    → All (IsClear svc names paths) volumes × Pairwise Apart volumes
unfolding check_volumes
check_volumes-Apart svc names paths [] h = (tt, tt)
check_volumes-Apart svc names paths (v ∷ volumes) h =
    let (first, rest) = append-eq_nil (check_volume svc names paths v) _ h in
    let here = check_volume-IsClear svc names paths v first in
    let same = (eq_iff (clean_path v.mount_path) v.mount_path).0 here.mounted.0 in
    let (clears, apart) =
      check_volumes-Apart svc (insert v.name true names) (insert v.mount_path v.name paths) volumes
        (rw same at rest) in
    (
      (here, All-map _ _ volumes (λ b k. (IsClear-before svc names paths v b k).0) clears),
      (All-map _ _ volumes (λ b k. (IsClear-before svc names paths v b k).1) clears, apart),
    )

at_most : (n : ℕ) → ltb max_service_volumes n ≡ false → n ≤ 25
at_most n h = ground (arith, h)

-- The volumes of a service that passes are at most 25, each is mounted at a clean absolute path that is
-- none of /, /proc, /sys, /dev, /run and /tmp and begins with none of them and a slash, and any two of them have different names and mounts of which neither
-- lies at or below the other.
pub validate_volumes-Apart :
    (svc : ServiceSpec)
    → validate_volumes svc ≡ []
    → (length svc.volumes ≤ 25) × All IsMount svc.volumes × Pairwise Apart svc.volumes
unfolding validate_volumes lookup
validate_volumes-Apart svc h =
    let (few, each) =
      append-eq_nil
        (complain (ltb max_service_volumes (length svc.volumes)) (too_many_volumes svc.name))
        (check_volumes svc.name [] [] svc.volumes) h in
    let (clears, apart) = check_volumes-Apart svc.name [] [] svc.volumes each in
    (
      at_most (length svc.volumes) (complain-eq_nil _ _ few),
      All-map _ _ svc.volumes (λ v k. k.mounted) clears,
      apart,
    )
