-- ===== src/Scheduler/Place/Absent.antt =====
-- ScheduleWithStorage places nothing under an id that is not that of a node.
use firework.Base.{String, ◌≡◌, ◌≢◌, ◌==◌, some, List, [], ◌∷◌, arith, All, eq_iff, if_ind}
use firework.Base.Dict.{Dict, items, items-append_at}
use firework.Base.Sort.{sort_stable}
use firework.Config.{ServiceConfig}
use firework.Scheduler.{Node, StorageReservations}
use firework.Scheduler.Storage.{Fit, local_binding}
use firework.Scheduler.Place.{
  Progress, start, service_less, try_node, leave, leave_unplaced, reserve, commit, settle,
  schedule_with_storage,
}
use firework.Scheduler.Place.Rules.{run-Inv, items-start}

-- A node of another id.
abbrev pub IsOther : String → Node → Type 0
IsOther id n = n.instance_id ≢ id

module _ (id : String) where
  IsEmpty : Progress → List ServiceConfig → Type 0
  IsEmpty st rest = items st.result id ≡ []

  leave-IsEmpty :
      (service : ServiceConfig) (rest : List ServiceConfig) (reason message : String)
      (st : Progress)
      → IsEmpty st (service ∷ rest)
      → IsEmpty (leave service reason message st) rest
  unfolding leave IsEmpty
  leave-IsEmpty service rest reason message st inv = inv

  settle-IsEmpty :
      (r : StorageReservations) (service : ServiceConfig) (rest : List ServiceConfig)
      (st : Progress) (node : Node) (fit : Fit)
      → IsEmpty st (service ∷ rest)
      → IsOther id node
      → try_node r service (local_binding service).0 st node ≡ some fit
      → IsEmpty (settle service (some (node, fit)) st) rest
  unfolding settle leave_unplaced reserve commit leave IsEmpty
  settle-IsEmpty r service rest st node fit inv other tried =
      if_ind (λ st'. IsEmpty st' rest) (node.instance_id == "") (λ _. inv)
        (λ _. rw items-append_at (ground (arith, inv, other, eq_iff node.instance_id id)))

  -- Nothing is placed under an id that no node has.
  pub schedule_with_storage-nothing :
      (nodes : List Node) (existing : Dict String) (reservations : StorageReservations)
      (services : List ServiceConfig)
      → All (IsOther id) nodes
      → items (schedule_with_storage nodes existing reservations services).0 id ≡ []
  unfolding schedule_with_storage IsEmpty
  schedule_with_storage-nothing nodes existing reservations services others =
      run-Inv nodes existing reservations IsEmpty (IsOther id) leave-IsEmpty
        (settle-IsEmpty reservations) others (sort_stable service_less services) (start nodes)
        (items-start nodes id)
