-- ===== src/Scheduler/Place/Binding.antt =====
-- ScheduleWithStorage puts local volumes where they are bound, and binds the unbound ones.
use firework.Base.{
  ℕ, String, ◌≡◌, ◌⊎◌, inl, inr, ◌==◌, if◌then◌else◌, some, List, [], ◌∷◌, arith, All, All-append,
  All-of, if_ind, eq_iff, Bool-cases, Option-cases, subst, sym, ap,
}
use firework.Base.Dict.{Dict, items, items-append_at}
use firework.Base.Sort.{sort_stable, All-sort_stable}
use firework.Config.{VolumeConfig, ServiceConfig, volume_type_local}
use firework.Scheduler.{Node, StorageReservations}
use firework.Scheduler.Storage.{Fit, fit_volume, fit_volumes, fit_storage, local_binding}
use firework.Scheduler.Place.{
  Progress, start, service_less, try_node, leave, leave_unplaced, reserve, commit, settle,
  schedule_with_storage,
}
use firework.Scheduler.Place.Rules.{run-Inv, items-start}

-- The volume `after` is `before` as it is sent to the node `id`: a local volume is bound to it, and
-- was bound to no other node.
pub record IsSent (id : String) (before after : VolumeConfig) : Type 0 where
  pub same_name : after.name ≡ before.name
  pub same_type : after.type ≡ before.type
  pub same_size : after.size_bytes ≡ before.size_bytes
  pub bound : before.type ≡ volume_type_local → after.bound_node ≡ id
  pub was_bound :
      before.type ≡ volume_type_local → (before.bound_node ≡ "") ⊎ (before.bound_node ≡ id)

abbrev pub AreSent : String → List VolumeConfig → List VolumeConfig → Type 0
AreSent id [] [] = Unit
AreSent id [] (_ ∷ _) = ⊥
AreSent id (_ ∷ _) [] = ⊥
AreSent id (v ∷ vs) (w ∷ ws) = IsSent id v w × AreSent id vs ws

module _ (service : String) (node : Node) (r : StorageReservations) where
  fit_volume-IsSent :
      (v w : VolumeConfig) (local shared l s : ℕ)
      → fit_volume service node r v local shared ≡ some (w, l, s)
      → IsSent node.instance_id v w
  unfolding fit_volume
  fit_volume-IsSent v w local shared l s e = record {
    same_name = ground arith;
    same_type = ground arith;
    same_size = ground arith;
    bound = λ t. ground (arith, eq_iff v.type volume_type_local);
    was_bound = λ t. ground (
      arith,
      eq_iff v.type volume_type_local,
      eq_iff v.bound_node "",
      eq_iff v.bound_node node.instance_id,
    );
  }

  fit_volumes-AreSent :
      (vs ws : List VolumeConfig) (local shared l s : ℕ)
      → fit_volumes service node r vs local shared ≡ some (ws, l, s)
      → AreSent node.instance_id vs ws
  unfolding fit_volumes
  fit_volumes-AreSent [] [] local shared l s e = tt
  fit_volumes-AreSent [] (_ ∷ _) local shared l s e = cc
  fit_volumes-AreSent (v ∷ vs) ws local shared l s e =
      elim (Option-cases (fit_volume service node r v local shared)) [
        | inl refused ↦ absurd (ground (arith, refused))
        | inr ((w, l', s'), taken) ↦ elim (Option-cases (fit_volumes service node r vs l' s')) [
          | inl refused ↦ absurd (ground (arith, refused, taken))
          | inr ((ws', l'', s''), took) ↦
              let q : ws ≡ w ∷ ws' = ground (arith, taken, took) in
              rw q (
                fit_volume-IsSent v w local shared l' s' taken,
                fit_volumes-AreSent vs ws' l' s' l'' s'' took,
              )
        ]
      ]

fit_storage-AreSent :
    (service : ServiceConfig) (node : Node) (r : StorageReservations) (local shared : String → ℕ)
    (fit : Fit)
    → fit_storage service node r local shared ≡ some fit
    → (fit.candidate.name ≡ service.name)
      × AreSent node.instance_id service.volumes fit.candidate.volumes
unfolding fit_storage
fit_storage-AreSent service node r local shared fit e =
    elim (Option-cases (fit_volumes service.name node r service.volumes 0 0)) [
      | inl refused ↦ absurd (ground (arith, refused))
      | inr ((ws, l, s), took) ↦
          let q : fit.candidate ≡ record service { volumes = ws } = ground (arith, took) in
          let sent = fit_volumes-AreSent service.name node r service.volumes ws 0 0 l s took in
          (
            ap (λ (c : ServiceConfig). c.name) q,
            subst (λ (c : ServiceConfig). AreSent node.instance_id service.volumes c.volumes)
                (sym q) sent,
          )
    ]

try_node-fit :
    (r : StorageReservations) (service : ServiceConfig) (bound : String) (st : Progress)
    (node : Node) (fit : Fit)
    → try_node r service bound st node ≡ some fit
    → fit_storage service node r st.used_local st.used_shared ≡ some fit
unfolding try_node
try_node-fit r service bound st node fit e = ground arith

module _ (P : ServiceConfig → Type 0) where
  -- The service `s` on the node `id` is one of those given, with its volumes sent there.
  pub record IsPlacement (id : String) (s : ServiceConfig) : Type 0 where
    pub origin : ServiceConfig
    pub given : P origin
    pub named : s.name ≡ origin.name
    pub sent : AreSent id origin.volumes s.volumes

  record IsPlaced (st : Progress) (rest : List ServiceConfig) : Type 0 where
    next : All P rest
    placed : (id : String) → All (IsPlacement id) (items st.result id)

  leave-IsPlaced :
      (service : ServiceConfig) (rest : List ServiceConfig) (reason message : String)
      (st : Progress)
      → IsPlaced st (service ∷ rest)
      → IsPlaced (leave service reason message st) rest
  unfolding leave
  leave-IsPlaced service rest reason message st inv = record {
    next = inv.next.1;
    placed = inv.placed;
  }

  settle-IsPlaced :
      (r : StorageReservations) (service : ServiceConfig) (rest : List ServiceConfig)
      (st : Progress) (node : Node) (fit : Fit)
      → IsPlaced st (service ∷ rest)
      → Unit {0}
      → try_node r service (local_binding service).0 st node ≡ some fit
      → IsPlaced (settle service (some (node, fit)) st) rest
  unfolding settle leave_unplaced reserve commit leave
  settle-IsPlaced r service rest st node fit inv _ tried =
      let id = node.instance_id in
      let (named, sent) =
        fit_storage-AreSent service node r _ _ fit (try_node-fit r service _ st node fit tried) in
      let new : IsPlacement id fit.candidate = record {
        origin = service;
        given = inv.next.0;
        named = named;
        sent = sent;
      } in
      if_ind (λ st'. IsPlaced st' rest) (id == "")
        (λ _. record { next = inv.next.1; placed = inv.placed })
        (λ _. record {
          next = inv.next.1;
          placed = λ j. rw items-append_at (elim (Bool-cases (id == j)) [
            | inl e ↦
                rw (e, if◌then◌else◌)
                  (rw (← (eq_iff id j).0 e) (
                    All-append (IsPlacement id) (items st.result id) (fit.candidate ∷ [])
                      (inv.placed id) (new, tt)))
            | inr e ↦ rw (e, if◌then◌else◌) (inv.placed j)
          ]);
        })

  -- Every service on a node is one of the services given, with its name; its volumes are those of
  -- that service in order, with their names, types and sizes; each local volume is bound to that node
  -- in the answer, and was unbound or bound to that very node before.
  pub schedule_with_storage-IsPlacement :
      (nodes : List Node) (existing : Dict String) (reservations : StorageReservations)
      (services : List ServiceConfig) (id : String)
      → All P services
      → All
          (IsPlacement id)
          (items (schedule_with_storage nodes existing reservations services).0 id)
  unfolding schedule_with_storage
  schedule_with_storage-IsPlacement nodes existing reservations services id given =
      let sorted = sort_stable service_less services in
      let end =
        run-Inv nodes existing reservations IsPlaced (λ _. Unit {0}) leave-IsPlaced
          (settle-IsPlaced reservations) (All-of _ nodes (λ _. tt)) sorted (start nodes)
          (record {
            next = All-sort_stable service_less P services given;
            placed = λ j. rw (items-start nodes j) tt;
          }) in
      end.placed id
