-- ===== src/Health/Samples.antt =====
-- A monitor whose service fails its checks.
use firework.Base.{◌≡◌, refl, true, false, some, List, [], ◌∷◌, arith}
use firework.Base.Dict.{lookup}
use firework.Config.{ServiceConfig, HealthCheckConfig}
use firework.Scheduler.Place.Samples.{service}
use firework.Health.{Monitor, record_result, first_result, get_result}
use firework.Health.Transitions.{
  Event, registers, deregisters, records, handle_all, IsCovered, handle_all-IsCovered, failing,
  failing-asks,
}

abbrev check : HealthCheckConfig
check = record {
  type = "http";
  target = "";
  port = 80;
  path = "/";
  interval = 0;
  timeout = 0;
  retries = 0;
}

abbrev web : ServiceConfig
web = record (service "web" 1 512 "" []) { health_check = some check }

abbrev empty : Monitor
empty = record { checks = []; results = [] }

abbrev events : List Event
events = registers web ∷ records true 5 "web" check (some "refused") ∷ deregisters "web" ∷ []

handle_all-IsCovered_example : IsCovered (handle_all events empty)
unfolding lookup
handle_all-IsCovered_example = handle_all-IsCovered events empty (λ k. refl)

abbrev watching : Monitor
watching = record { checks = ("web", web) ∷ []; results = ("web", first_result "web") ∷ [] }

failing-asks_example :
    ((failing false "web" check ((1, "refused") ∷ (2, "refused") ∷ []) watching).1 ≡ 0)
    × ((record_result false 3 "web" check
          (some "refused")
          (failing false "web" check ((1, "refused") ∷ (2, "refused") ∷ []) watching).0).1
        ≡ true)
unfolding get_result lookup
failing-asks_example =
    failing-asks false "web" check (omega arith) ((1, "refused") ∷ (2, "refused") ∷ []) watching
      (first_result "web") 3 "refused" refl refl refl
