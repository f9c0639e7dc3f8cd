-- ===== src/Enricher/Validation/Accepted.antt =====
-- internal/enricher/validation.go: what an input without errors is.
use firework.Base.{
  ℕ, String, Bool, true, false, ◌≡◌, refl, ap, sym, ◌∙◌, ◌&&◌, not, ◌==◌, if◌then◌else◌, List, [],
  ◌∷◌, ltb, length, join_all, join_all-nil, append-eq_nil, or_else, arith, if_ind, Bool-cases, All,
  All-map, ◌⊎◌, inl, inr,
}
use mathlib.Core.List.{cons-ne-nil}
use firework.Base.Paths.{clean_path}
use firework.Base.Int64.{gt64, lt64}
use firework.Base.Text.{trim_space}
use firework.Base.Decimal.{parse_int, has_suffix, trim_suffix}
use firework.Base.Dict.{Dict, lookup, insert, lookup-insert}
use firework.Base.Sort.{Pairwise}
use firework.Config.{volume_type_local, volume_type_shared}
use firework.Config.Size.{SizeError, parse_volume_size, parse_size}
use firework.Config.Size.Bounds.{Fits, Fits-bounds, parse_size-Fits}
use firework.Enricher.{ServiceSpec, VolumeSpec, VolumeDefaults, GlobalDefaults, InputConfig}
use firework.Enricher.Defaults.{
  resolve_volume, volume_size, coalesce, bytes_or_zero, fallback_volume_size,
}
use firework.Enricher.Checks.{
  InputError, bad_default, volume_messages, max_service_volumes, complain, is_error, check_default,
  validate_volume_defaults, check_volume, check_volumes, validate_volumes,
}
use firework.Enricher.Checks.Mounts.{complain-eq_nil}
use firework.Enricher.Validation.{
  Seen, service_messages, validate_routing, validate_services, validate_input,
}

-- A size that is read makes a positive number of bytes.
Fits-positive :
    (value : String) (r : SizeError ⊎ ℕ)
    → Fits value false r
    → is_error r ≡ false
    → gt64 (bytes_or_zero r) 0 ≡ true
unfolding lt64
Fits-positive value (inl e) f h = absurd (ground (arith, h))
Fits-positive value (inr n) f h = let (p, l) = Fits-bounds value false n f in ground (arith, p, l)

parsed-positive :
    (value : String)
    → is_error (parse_volume_size value) ≡ false
    → gt64 (bytes_or_zero (parse_volume_size value)) 0 ≡ true
unfolding parse_volume_size
parsed-positive value = Fits-positive value (parse_size value false) (parse_size-Fits value false)

ten_gib : is_error (parse_volume_size fallback_volume_size) ≡ false
unfolding parse_volume_size parse_int has_suffix trim_suffix trim_space lt64
ten_gib = refl

-- A default size that was accepted is read, and so is the fallback where there is none.
default_size :
    (field value : String)
    → check_default field value ≡ []
    → is_error (parse_volume_size (coalesce (value ∷ fallback_volume_size ∷ []))) ≡ false
unfolding check_default coalesce
default_size field value h =
    if_ind (λ s. is_error (parse_volume_size s) ≡ false) (value == "") (λ _. ten_gib)
      (λ e. ground (
        arith,
        e,
        complain-eq_nil (not (value == "") && is_error (parse_volume_size value))
            (bad_default field) h,
      ))

-- What the checks of a service say of its volumes.
abbrev pub IsSized : VolumeDefaults → VolumeSpec → Type 0
IsSized defs volume = gt64 (resolve_volume defs volume).size_bytes 0 ≡ true

check_volume-IsSized :
    (defs : VolumeDefaults) (svc : String) (names : Dict Bool) (paths : Dict String)
    (volume : VolumeSpec)
    → validate_volume_defaults defs ≡ []
    → check_volume svc names paths volume ≡ []
    → IsSized defs volume
unfolding resolve_volume volume_size check_volume volume_messages validate_volume_defaults
check_volume-IsSized defs svc names paths volume d h =
    let (_, (_, (type_on, (_, (_, (_, (_, (size_on, _)))))))) =
      join_all-nil (volume_messages svc names paths volume) h in
    let typed = complain-eq_nil _ _ type_on in
    let sized = complain-eq_nil _ _ size_on in
    let (local_on, shared_on) =
      append-eq_nil (check_default "volume_defaults.local_size" defs.local_size) _ d in
    parsed-positive (volume_size volume defs) (
      if_ind (λ s. is_error (parse_volume_size s) ≡ false) (volume.size == "")
        (λ _.
          if_ind (λ s. is_error (parse_volume_size s) ≡ false) (volume.type == volume_type_local)
            (λ _. default_size "volume_defaults.local_size" defs.local_size local_on)
            (λ not_local.
              if_ind (λ s. is_error (parse_volume_size s) ≡ false)
                (volume.type == volume_type_shared)
                (λ _. default_size "volume_defaults.shared_size" defs.shared_size shared_on)
                (λ not_shared. absurd (ground (arith, typed, not_local, not_shared)))))
        (λ e. ground (arith, sized, e)))

check_volumes-IsSized :
    (defs : VolumeDefaults) (svc : String) (names : Dict Bool) (paths : Dict String)
    (volumes : List VolumeSpec)
    → validate_volume_defaults defs ≡ []
    → check_volumes svc names paths volumes ≡ []
    → All (IsSized defs) volumes
unfolding check_volumes
check_volumes-IsSized defs svc names paths [] d h = tt
check_volumes-IsSized defs svc names paths (volume ∷ volumes) d h =
    let (first, rest) = append-eq_nil (check_volume svc names paths volume) _ h in
    (
      check_volume-IsSized defs svc names paths volume d first,
      check_volumes-IsSized defs svc (insert volume.name true names)
          (insert (clean_path volume.mount_path) volume.name paths) volumes d rest,
    )

-- What a service of an accepted input has.
pub record IsGood (defs : GlobalDefaults) (s : ServiceSpec) : Type 0 where
  pub named : (s.name == "") ≡ false
  pub imaged : (s.image == "") ≡ false
  pub typed : (s.node_type == "") ≡ false
  pub sized : All (IsSized defs.volume_defaults) s.volumes

-- The name was not met before.
abbrev pub IsFresh : Dict Bool → ServiceSpec → Type 0
IsFresh names s = or_else (lookup s.name names) false ≡ false

abbrev pub Differ : ServiceSpec → ServiceSpec → Type 0
Differ a b = (a.name == b.name) ≡ false

service-IsGood :
    (defs : GlobalDefaults) (names : Dict Bool) (routing : List InputError) (s : ServiceSpec)
    → validate_volume_defaults defs.volume_defaults ≡ []
    → (s.name == "") ≡ false
    → join_all (service_messages names routing s) ≡ []
    → IsFresh names s × IsGood defs s
unfolding service_messages validate_volumes
service-IsGood defs names routing s d named h =
    let (fresh, (image, (typed, (_, (_, (volumes, _)))))) =
      join_all-nil (service_messages names routing s) h in
    let (_, each) =
      append-eq_nil (complain (ltb max_service_volumes (length s.volumes)) _) _ volumes in
    (
      complain-eq_nil _ _ fresh,
      record {
        named = named;
        imaged = complain-eq_nil _ _ image;
        typed = complain-eq_nil _ _ typed;
        sized = check_volumes-IsSized defs.volume_defaults s.name [] [] s.volumes d each;
      },
    )

IsFresh-after :
    (names : Dict Bool) (s t : ServiceSpec)
    → IsFresh (insert s.name true names) t
    → IsFresh names t × Differ s t
IsFresh-after names s t h =
    let found = ap (λ o. or_else o false) (sym (lookup-insert s.name t.name true names)) ∙ h in
    elim (Bool-cases (s.name == t.name)) [
      | inl e ↦ absurd (ground (arith, rw (e, if◌then◌else◌) at found))
      | inr e ↦ (rw (e, if◌then◌else◌) at found, e)
    ]

module _ (to_lower : String → String) where
  validate_services-IsGood :
      (defs : GlobalDefaults) (names : Dict Bool) (seen : Seen) (services : List ServiceSpec)
      → validate_volume_defaults defs.volume_defaults ≡ []
      → validate_services to_lower defs names seen services ≡ []
      → All (λ s. IsFresh names s × IsGood defs s) services × Pairwise Differ services
  unfolding validate_services
  validate_services-IsGood defs names seen [] d h = (tt, tt)
  validate_services-IsGood defs names seen (s ∷ services) d h =
      let routing = validate_routing to_lower s defs seen in
      elim (Bool-cases (s.name == "")) [
        | inl e ↦ absurd (cons-ne-nil _ _ (rw (e, if◌then◌else◌) at h))
        | inr e ↦
            let (first, rest) =
              append-eq_nil (join_all (service_messages names routing.0 s))
                (validate_services to_lower defs (insert s.name true names) routing.1 services)
                (rw (e, if◌then◌else◌) at h) in
            let (goods, apart) =
              validate_services-IsGood defs (insert s.name true names) routing.1 services d rest in
            (
              (
                service-IsGood defs names routing.0 s d e first,
                All-map _ _ services (λ t (fresh, good). ((IsFresh-after names s t fresh).0, good))
                    goods,
              ),
              (
                All-map _ _ services (λ t (fresh, good). (IsFresh-after names s t fresh).1) goods,
                apart,
              ),
            )
      ]

  -- The services of an accepted input.
  pub validate_input-IsGood :
      (input : InputConfig)
      → validate_input to_lower input ≡ []
      → All (IsGood input.defaults) input.services × Pairwise Differ input.services
  unfolding validate_input
  validate_input-IsGood input h =
      let (d, each) = append-eq_nil (validate_volume_defaults input.defaults.volume_defaults) _ h in
      let (goods, apart) =
        validate_services-IsGood input.defaults [] (record { subdomains = []; hosts = [] })
          input.services d each in
      (All-map _ _ input.services (λ s (fresh, good). good) goods, apart)
