-- ===== src/Scheduler/Place/Partition.antt =====
-- ScheduleWithStorage loses no service and doubles none.
use firework.Base.{
  ℕ, String, ◌+◌, ◌≡◌, refl, ap, ◌==◌, some, List, [], ◌∷◌, arith, sum_by, sum_by-append, if_ind,
  All-of,
}
use firework.Base.Dict.{Dict, total_by, total_by-append_at, total_by-insert}
use firework.Base.Sort.{sort_stable, sum_by-sort_stable}
use firework.Config.{ServiceConfig}
use firework.Scheduler.{Node, StorageReservations, Pending}
use firework.Scheduler.Storage.{Fit, fit_storage, local_binding}
use firework.Scheduler.Place.{
  Progress, empty_result, start, service_less, pending_less, try_node, leave, leave_unplaced,
  reserve, commit, settle, run, schedule_with_storage,
}
use firework.Scheduler.Place.Rules.{run-Inv}

try_node-name :
    (r : StorageReservations) (service : ServiceConfig) (bound : String) (st : Progress)
    (node : Node) (fit : Fit)
    → try_node r service bound st node ≡ some fit
    → fit.candidate.name ≡ service.name
unfolding try_node fit_storage
try_node-name r service bound st node fit e = ground arith

module _ (w : String → ℕ) where
  abbrev pub weigh : ServiceConfig → ℕ
  weigh s = w s.name

  abbrev pub weigh_pending : Pending → ℕ
  weigh_pending p = w p.service

  -- What is placed, pending and still to come weighs `all` together.
  IsBalanced : ℕ → Progress → List ServiceConfig → Type 0
  IsBalanced all st rest =
      total_by weigh st.result + sum_by weigh_pending st.pending + sum_by weigh rest ≡ all

  leave-IsBalanced :
      (all : ℕ) (service : ServiceConfig) (rest : List ServiceConfig) (reason message : String)
      (st : Progress)
      → IsBalanced all st (service ∷ rest)
      → IsBalanced all (leave service reason message st) rest
  unfolding leave IsBalanced
  leave-IsBalanced all service rest reason message st inv = omega (
    arith,
    sum_by-append weigh_pending st.pending
        (record { service = service.name; reason_code = reason; message = message } ∷ []),
  )

  settle-IsBalanced :
      (all : ℕ) (r : StorageReservations) (service : ServiceConfig) (rest : List ServiceConfig)
      (st : Progress) (node : Node) (fit : Fit)
      → IsBalanced all st (service ∷ rest)
      → Unit {0}
      → try_node r service (local_binding service).0 st node ≡ some fit
      → IsBalanced all (settle service (some (node, fit)) st) rest
  unfolding settle leave_unplaced reserve commit IsBalanced
  settle-IsBalanced all r service rest st node fit inv _ tried =
      let named = try_node-name r service (local_binding service).0 st node fit tried in
      if_ind (λ st'. IsBalanced all st' rest) (node.instance_id == "")
        (λ _. leave-IsBalanced all service rest _ _ (reserve node fit st) inv)
        (λ _.
          omega
            (arith, total_by-append_at weigh node.instance_id fit.candidate st.result, ap w named))

  total_by-empty_result : (nodes : List Node) → total_by weigh (empty_result nodes) ≡ 0
  unfolding empty_result total_by
  total_by-empty_result [] = refl
  total_by-empty_result (n ∷ nodes) = omega (
    arith,
    total_by-insert weigh n.instance_id [] (empty_result nodes),
    total_by-empty_result nodes,
  )

  -- However names are weighed, the services placed and those left pending weigh together what the
  -- services given weigh: each is placed once or pending once, whatever the nodes are.
  pub schedule_with_storage-total :
      (nodes : List Node) (existing : Dict String) (reservations : StorageReservations)
      (services : List ServiceConfig)
      → total_by weigh (schedule_with_storage nodes existing reservations services).0
          + sum_by weigh_pending (schedule_with_storage nodes existing reservations services).1
        ≡ sum_by weigh services
  unfolding schedule_with_storage start IsBalanced
  schedule_with_storage-total nodes existing reservations services =
      let sorted = sort_stable service_less services in
      let all = sum_by weigh services in
      let end =
        run-Inv nodes existing reservations (IsBalanced all) (λ _. Unit {0}) (leave-IsBalanced all)
          (settle-IsBalanced all reservations) (All-of _ nodes (λ _. tt)) sorted (start nodes)
          (omega
            (arith, total_by-empty_result nodes, sum_by-sort_stable service_less weigh services)) in
      omega (
        arith,
        end,
        sum_by-sort_stable pending_less weigh_pending
            (run nodes existing reservations (start nodes) sorted).pending,
      )
