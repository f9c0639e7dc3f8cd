-- ===== src/ControlPlane/VolumeRecords/Resizes.antt =====
-- What the records of volumes keep over resizes and acknowledgements
-- (internal/controlplane/volume_records.go).
use firework.Base.{
  ℕ, ◌+◌, ◌<◌, String, false, ◌≡◌, refl, subst, ◌||◌, ◌&&◌, not, subst, ◌||◌, ◌&&◌, not, subst,
  ◌||◌, ◌&&◌, not, ◌==◌, ◌≢◌, ◌⊎◌, inl, inr, true, eq_iff, Option, none, some, eqb, arith, if_ind,
}
use firework.Base.Int64.{half_word, add64_small, lt64}
use firework.Config.{VolumeConfig, volume_type_local, volume_type_shared}
use firework.ControlPlane.Registry.{VolumeStatus}
use firework.ControlPlane.VolumeRecords.{
  VolumeRecord, record_error, stamp, not_positive, resize_applied, resize_failed, bind_refused,
  bind_as, stamp, not_positive, resize_applied, resize_failed, bind_refused, bind_as, stamp,
  not_positive, resize_applied, resize_failed, bind_refused, bind_as, acknowledge, observed,
  concerns, apply_existing, Bind, bind_after_write, resized, bound_to,
}

module _ (bounded_message : String → String) where
  -- The record that is to be written, if any, passes the checks.
  unfoldable IsGood : Option VolumeRecord → Type 0
  IsGood none = Unit
  IsGood (some r) = record_error r ≡ none

  nothing-IsGood : IsGood none
  unfolding IsGood
  nothing-IsGood = tt

  good_record : (r : VolumeRecord) → IsGood (some r) → record_error r ≡ none
  unfolding IsGood
  good_record r g = g

  stamp-IsGood :
      (now : ℕ) (o : Option VolumeRecord) → IsGood o → IsGood (stamp bounded_message now o)
  unfolding IsGood record_error
  stamp-IsGood now none g = tt
  stamp-IsGood now (some r) g = g

  prepared-IsGood :
      (size : ℕ) (r : VolumeRecord)
      → record_error r ≡ none
      → (not_positive size || not (eqb size r.desired_size_bytes)) ≡ false
      → IsGood (
          some (record r {
            applied_size_bytes = size;
            resize_state = resize_applied;
            last_error = "";
          }))
  unfolding IsGood record_error lt64
  prepared-IsGood size r ok fits = ground arith

  failed-IsGood :
      (message : String) (r : VolumeRecord)
      → record_error r ≡ none
      → IsGood (some (record r { resize_state = resize_failed; last_error = message }))
  unfolding IsGood record_error lt64
  failed-IsGood message r ok = ground arith

  observed-IsGood :
      (seen : VolumeStatus) (r : VolumeRecord)
      → record_error r ≡ none
      → IsGood (observed bounded_message seen r)
  unfolding observed
  observed-IsGood seen r ok =
      if_ind IsGood (seen.state == "prepared")
        (λ _.
          if_ind IsGood
            (not_positive seen.applied_size_bytes
              || not (eqb seen.applied_size_bytes r.desired_size_bytes))
            (λ _. nothing-IsGood)
            (λ fits.
              if_ind IsGood
                (eqb r.applied_size_bytes seen.applied_size_bytes
                  && r.resize_state == resize_applied
                  && r.last_error == "")
                (λ _. nothing-IsGood) (λ _. prepared-IsGood seen.applied_size_bytes r ok fits)))
        (λ _.
          if_ind IsGood
            (r.resize_state == resize_failed && r.last_error == bounded_message seen.last_error)
            (λ _. nothing-IsGood) (λ _. failed-IsGood (bounded_message seen.last_error) r ok))

  -- An acknowledgement that is written over a record that passes the checks passes them too: in
  -- particular, where it says that a resize is applied, the applied size is the desired one.
  pub acknowledge-record_error :
      (now : ℕ) (node_id : String) (seen : VolumeStatus) (r r' : VolumeRecord)
      → record_error r ≡ none
      → acknowledge bounded_message now node_id seen r ≡ some r'
      → record_error r' ≡ none
  unfolding acknowledge
  acknowledge-record_error now node_id seen r r' ok e = good_record r' (
      subst IsGood e (
        if_ind IsGood (concerns node_id seen r)
          (λ _. stamp-IsGood now (observed bounded_message seen r) (observed-IsGood seen r ok))
          (λ _. nothing-IsGood)))

  other_generation :
      (later : ℕ) (node_id : String) (seen : VolumeStatus) (r : VolumeRecord)
      → eqb seen.resize_generation r.resize_generation ≡ false
      → acknowledge bounded_message later node_id seen r ≡ none
  unfolding acknowledge concerns
  other_generation later node_id seen r h = ground (arith, h)

  -- The volume lives where the record says.
  abbrev pub IsBoundBy : VolumeConfig → VolumeRecord → Type 0
  IsBoundBy v' r = (v'.bound_node ≡ r.bound_node) × (v'.shared_backend_id ≡ r.shared_backend_id)

  module _ (later : ℕ) (node_id : String) (seen : VolumeStatus) where
    -- What becomes of a desired volume and its record, by the result of the three kinds.
    abbrev pub IsResize : VolumeConfig → VolumeRecord → Bind → Type 0
    IsResize v r (bind_refused c) = (r.type ≢ v.type) ⊎ (record_error r ≢ none)
    IsResize v r (bind_as v') =
        (r.desired_size_bytes ≡ v.size_bytes)
        × (v'.resize_generation ≡ r.resize_generation)
        × IsBoundBy v' r
    IsResize v r (bind_after_write v' r') =
        (r.desired_size_bytes ≢ v.size_bytes)
        × (r'.resize_generation ≡ r.resize_generation + 1)
        × (v'.resize_generation ≡ r'.resize_generation)
        × IsBoundBy v' r
        × (apply_existing later v (some r') ≡ bind_as v')
        × (acknowledge bounded_message later node_id seen r' ≡ none)

    -- The tests before the sizes fail only on a record that the checks refuse.
    no_node :
        (r : VolumeRecord)
        → (r.type == volume_type_local && r.bound_node == "") ≡ true
        → record_error r ≢ none
    unfolding record_error
    no_node r e k = ground (arith, e, k)

    no_backend :
        (r : VolumeRecord)
        → (r.type == volume_type_shared && r.shared_backend_id == "") ≡ true
        → record_error r ≢ none
    unfolding record_error
    no_backend r e k = ground (arith, e, k)

    other_type :
        (r : VolumeRecord) (v : VolumeConfig) → not (r.type == v.type) ≡ true → r.type ≢ v.type
    other_type r v e k = ground (arith, e, (eq_iff r.type v.type).1 k)

    resized-IsResize :
        (now : ℕ) (v : VolumeConfig) (r : VolumeRecord)
        → r.resize_generation + 1 < half_word
        → seen.resize_generation ≡ r.resize_generation
        → not (r.type == v.type) ≡ false
        → (r.type == volume_type_local && r.bound_node == "") ≡ false
        → (r.type == volume_type_shared && r.shared_backend_id == "") ≡ false
        → eqb r.desired_size_bytes v.size_bytes ≡ false
        → IsResize v r
            (bind_after_write (bound_to v r (resized now v r).resize_generation) (resized now v r))
    unfolding resized bound_to apply_existing
    resized-IsResize now v r small same typed node backend other =
        let next = add64_small r.resize_generation 1 small in
        let at_size : eqb v.size_bytes v.size_bytes ≡ true = ground arith in
        (
          λ e. ground (arith, other, e),
          next,
          refl,
          (refl, refl),
          rw (typed, node, backend, at_size) refl,
          other_generation later node_id seen (resized now v r) (rw next (ground (arith, same))),
        )

    -- A record is bound to a desired volume in three ways. It is refused only where the types differ or the record
    -- does not pass the checks. Where the sizes agree, the volume gets the record's place and generation.
    -- Where they differ, a record is written that counts one generation more, which the volume gets with the
    -- record's place; with that record the next round binds the same volume and writes nothing, and an
    -- observation of the generation before is not acknowledged. The conditions are that the next
    -- generation is below 2 ^ 63 and that the observation is of the record's generation.
    pub apply_existing-IsResize :
        (now : ℕ) (v : VolumeConfig) (r : VolumeRecord)
        → r.resize_generation + 1 < half_word
        → seen.resize_generation ≡ r.resize_generation
        → IsResize v r (apply_existing now v (some r))
    unfolding apply_existing bound_to
    apply_existing-IsResize now v r small same =
        if_ind (IsResize v r) (not (r.type == v.type)) (λ e. inl (other_type r v e))
          (λ typed.
            if_ind (IsResize v r) (r.type == volume_type_local && r.bound_node == "")
              (λ e. inr (no_node r e))
              (λ node.
                if_ind (IsResize v r) (r.type == volume_type_shared && r.shared_backend_id == "")
                  (λ e. inr (no_backend r e))
                  (λ backend.
                    if_ind (IsResize v r) (eqb r.desired_size_bytes v.size_bytes)
                      (λ e. (ground (arith, e), refl, (refl, refl)))
                      (λ other. resized-IsResize now v r small same typed node backend other))))
