-- ===== src/Scheduler/Legacy/Samples.antt =====
-- Runs of the placement by CPU and memory only (internal/scheduler/scheduler.go: Schedule, bestFit).
use firework.Base.{
  ℕ, ◌≡◌, refl, Bool, true, false, ◌||◌, ◌==◌, List, [], ◌∷◌, map, or_else, is_some,
}
use firework.Base.Dict.{total_by, items, lookup, insert, append_at}
use firework.Base.Int64.{add64, sub64, lt64}
use firework.Config.{ServiceConfig}
use firework.Scheduler.{no_groups, has_conflict, join_group}
use firework.Base.{not, All, arith}
use firework.Scheduler.Legacy.BestFit.{IsPlain, has_room, any_room, best_fit-has_room}
use firework.Scheduler.Legacy.{
  Usage, is_short, improve, best_from, best_fit, assign, overloads, node_by_id, keep_or_leave,
  keep_existing, pack, empty_assignment, schedule,
}
use firework.Scheduler.Legacy.Partition.{schedule-total}
use firework.Scheduler.Place.Samples.{service, two_nodes, web}

program : Unit {0}
unfolding schedule pack keep_existing keep_or_leave node_by_id overloads assign best_fit best_from
    improve is_short empty_assignment has_conflict join_group lookup insert append_at add64 sub64
    lt64
program = tt

abbrev two_webs : List ServiceConfig
two_webs = service "web-1" 1 512 "web" [] ∷ service "web-2" 1 512 "web" [] ∷ []

abbrev as_given : (ServiceConfig → ServiceConfig → Bool) → List ServiceConfig → List ServiceConfig
as_given less services = services

apart :
    map
      (λ (s : ServiceConfig). s.name)
      (items (or_else (schedule as_given two_webs two_nodes []) []) "i-2")
    ≡ "web-2" ∷ []
unfolding program
apart = refl

too_large : is_some (schedule as_given (service "giant" 64 512 "" [] ∷ []) two_nodes []) ≡ false
unfolding program
too_large = refl

abbrev unused : Usage
unused = record { used_vcpus = λ id. 0; used_mem = λ id. 0; groups = no_groups; result = [] }

two-IsPlain : All (IsPlain web unused) two_nodes
two-IsPlain = (
  record {
    named = refl;
    vcpus_small = omega arith;
    mem_small = omega arith;
    used_vcpus_small = omega arith;
    used_mem_small = omega arith;
  },
  (
    record {
      named = refl;
      vcpus_small = omega arith;
      mem_small = omega arith;
      used_vcpus_small = omega arith;
      used_mem_small = omega arith;
    },
    tt,
  ),
)

best_fit-has_room_example :
    ((best_fit web unused two_nodes == ""
        || has_room web unused two_nodes (best_fit web unused two_nodes))
      ≡ true)
    × ((best_fit web unused two_nodes == "") ≡ not (any_room web unused two_nodes))
best_fit-has_room_example =
    best_fit-has_room web unused (omega arith) (omega arith) two_nodes two-IsPlain

abbrev pub one_each : ServiceConfig → ℕ
one_each s = 1

schedule-total_example :
    total_by one_each (or_else (schedule as_given two_webs two_nodes []) []) ≡ 2
unfolding program
schedule-total_example =
    schedule-total one_each as_given (λ services. refl) two_webs two_nodes []
      (or_else (schedule as_given two_webs two_nodes []) []) refl
