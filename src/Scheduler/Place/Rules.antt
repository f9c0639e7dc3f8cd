-- ===== src/Scheduler/Place/Rules.antt =====
-- A proof rule for the loop of ScheduleWithStorage: what to show of an invariant over the state and
-- the services that are still to be placed.
use firework.Base.{
  String, ◌≡◌, refl, ◌&&◌, not, ◌==◌, Option, none, some, List, [], ◌∷◌, arith, Option-cases,
  if_ind, some-pair, subst, inl, inr, All,
}
use firework.Base.Dict.{Dict, lookup, lookup-insert, items}
use firework.Base.Sort.{sort_stable, All-sort_stable}
use firework.Config.{ServiceConfig}
use firework.Scheduler.{Node, StorageReservations}
use firework.Scheduler.Storage.{Fit, local_binding, has_shared_volume}
use firework.Scheduler.Place.{
  Progress, empty_result, start, is_active, candidate_less, try_node, first_fit, leave,
  leave_unplaced, settle, place, choose, leave_unplaced, schedule_one, run,
}

module _ (reservations : StorageReservations) (service : ServiceConfig) (bound : String)
    (st : Progress) where
  -- The chosen node is a candidate, and it passed the tests.
  pub first_fit-some :
      (P : Node → Type 0) (nodes : List Node) (node : Node) (fit : Fit)
      → All P nodes
      → first_fit reservations service bound st nodes ≡ some (node, fit)
      → P node × (try_node reservations service bound st node ≡ some fit)
  unfolding first_fit
  first_fit-some P [] node fit h e = cc
  first_fit-some P (n ∷ nodes) node fit (p, h) e =
      elim (Option-cases (try_node reservations service bound st n)) [
        | inl skipped ↦ first_fit-some P nodes node fit h (rw (skipped, first_fit) at e)
        | inr (f, taken) ↦
            let (same_node, same_fit) = some-pair (rw (taken, first_fit) at e) in
            (subst P same_node p, cc)
      ]

  -- No candidate was chosen only if none passed the tests.
  pub first_fit-none :
      (nodes : List Node)
      → first_fit reservations service bound st nodes ≡ none
      → All (λ node. try_node reservations service bound st node ≡ none) nodes
  unfolding first_fit
  first_fit-none [] e = tt
  first_fit-none (n ∷ nodes) e = elim (Option-cases (try_node reservations service bound st n)) [
    | inl skipped ↦ (skipped, first_fit-none nodes (rw (skipped, first_fit) at e))
    | inr (f, taken) ↦ absurd (ground (arith, taken))
  ]

items-empty_result : (nodes : List Node) (id : String) → items (empty_result nodes) id ≡ []
unfolding empty_result lookup
items-empty_result [] id = refl
items-empty_result (n ∷ nodes) id = rw lookup-insert (ground (arith, items-empty_result nodes id))

pub items-start : (nodes : List Node) (id : String) → items (start nodes).result id ≡ []
unfolding start
items-start nodes id = items-empty_result nodes id

-- `Inv st rest`: the state is `st`, and the services `rest` are to be placed.
module _ (nodes : List Node) (existing : Dict String) (reservations : StorageReservations)
    (Inv : Progress → List ServiceConfig → Type 0) (Good : Node → Type 0)
    (leave_keeps : (service : ServiceConfig) (rest : List ServiceConfig) (reason message : String)
        (st : Progress)
      → Inv st (service ∷ rest)
      → Inv (leave service reason message st) rest)
    (settle_keeps : (service : ServiceConfig) (rest : List ServiceConfig) (st : Progress)
        (node : Node) (fit : Fit)
      → Inv st (service ∷ rest)
      → Good node
      → try_node reservations service (local_binding service).0 st node ≡ some fit
      → Inv (settle service (some (node, fit)) st) rest) where
  settle-Inv :
      (service : ServiceConfig) (rest : List ServiceConfig) (st : Progress)
      (choice : Option (Node × Fit))
      → Inv st (service ∷ rest)
      → ((node : Node) (fit : Fit)
          → choice ≡ some (node, fit)
          → Good node
            × (try_node reservations service (local_binding service).0 st node ≡ some fit))
      → Inv (settle service choice st) rest
  settle-Inv service rest st none inv found =
      unfold settle leave_unplaced in leave_keeps service rest _ _ st inv
  settle-Inv service rest st (some (node, fit)) inv found =
      let (good, tried) = found node fit refl in
      settle_keeps service rest st node fit inv good tried

  module _ (good : All Good nodes) where
    place-Inv :
        (service : ServiceConfig) (rest : List ServiceConfig) (preferred : String) (st : Progress)
        → Inv st (service ∷ rest)
        → Inv
            (place nodes existing reservations service (local_binding service).0 preferred st)
            rest
    unfolding place choose
    place-Inv service rest preferred st inv =
        let candidates = sort_stable (candidate_less service preferred st) nodes in
        settle-Inv service rest st _ inv (λ node fit.
          first_fit-some reservations service (local_binding service).0 st Good candidates node fit
            (All-sort_stable (candidate_less service preferred st) Good nodes good))

    schedule_one-Inv :
        (service : ServiceConfig) (rest : List ServiceConfig) (st : Progress)
        → Inv st (service ∷ rest)
        → Inv (schedule_one nodes existing reservations st service) rest
    unfolding schedule_one
    schedule_one-Inv service rest st inv =
        let Q : Progress → Type 0 = λ st'. Inv st' rest in
        if_ind Q (local_binding service).1 (λ _. leave_keeps service rest _ _ st inv)
          (λ _.
            if_ind Q (has_shared_volume service && not reservations.shared_enabled)
              (λ _. leave_keeps service rest _ _ st inv)
              (λ _.
                if_ind Q ((local_binding service).0 == "") (λ _. place-Inv service rest _ st inv)
                  (λ _.
                    if_ind Q (not (is_active nodes (local_binding service).0))
                      (λ _. leave_keeps service rest _ _ st inv)
                      (λ _. place-Inv service rest _ st inv))))

    -- An invariant that both outcomes of a service keep holds at the end of the loop.
    pub run-Inv :
        (services : List ServiceConfig) (st : Progress)
        → Inv st services
        → Inv (run nodes existing reservations st services) []
    unfolding run
    run-Inv [] st inv = inv
    run-Inv (service ∷ services) st inv =
        run-Inv services _ (schedule_one-Inv service services st inv)
