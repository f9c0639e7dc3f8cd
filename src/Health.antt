-- ===== src/Health.antt =====
-- internal/healthcheck/checker.go: the monitor of the services' health, one event at a time. A check
-- and a restart are the environment's: their outcome is an argument.
use firework.Base.{
  ℕ, String, Bool, true, false, ◌==◌, not, if◌then◌else◌, Option, none, some, [], eqb, is_some,
}
use firework.Base.Int64.{lt64, add64}
use firework.Base.Dict.{Dict, lookup, insert, remove}
use firework.Config.{HealthCheckConfig, ServiceConfig}
pub mod Transitions
pub mod Samples

pub data Status : Type 0 where
  healthy unhealthy unknown : Status

pub record Result : Type 0 where
  pub service : String
  pub status : Status
  pub last_checked : ℕ
  pub failures : ℕ
  pub last_error : String

-- The keys of `checks` and `results`; a running check's cancel function is not kept.
pub record Monitor : Type 0 where
  pub checks : Dict ServiceConfig
  pub results : Dict Result

unfoldable pub deregister : String → Monitor → Monitor
deregister name m =
    if is_some (lookup name m.checks)
    then record { checks = remove name m.checks; results = remove name m.results }
    else m

abbrev pub first_result : String → Result
first_result name = record {
  service = name;
  status = unknown;
  last_checked = 0;
  failures = 0;
  last_error = "";
}

unfoldable pub register : ServiceConfig → Monitor → Monitor
register svc m =
    let cleared = deregister svc.name m in
    if is_some svc.health_check
    then record {
      checks = insert svc.name svc cleared.checks;
      results = insert svc.name (first_result svc.name) cleared.results;
    }
    else m

unfoldable pub get_result : String → Monitor → Option Result
get_result name m = lookup name m.results

-- Stop leaves the results.
unfoldable pub stop : Monitor → Monitor
stop m = record { checks = []; results = m.results }

abbrev pub threshold : HealthCheckConfig → ℕ
threshold hc = if eqb hc.retries 0 then 3 else hc.retries

-- The first locked part of recordResult: what the outcome of a check makes of a result.
unfoldable pub observe : ℕ → Option String → Result → Result
observe now (some err) r = record r {
  last_checked = now;
  failures = add64 r.failures 1;
  last_error = err;
  status = unhealthy;
}
observe now none r = record r {
  last_checked = now;
  failures = 0;
  last_error = "";
  status = healthy;
}

-- The rest of recordResult, on the result that it finds. `restart` tells whether the restart of the
-- service, when it is asked for, succeeds; the second result is whether it was asked for.
unfoldable pub record_to :
    Bool → ℕ → String → HealthCheckConfig → Option String → Monitor → Option Result → Monitor × Bool
record_to restart now name hc err m none = (m, false)
record_to restart now name hc err m (some r) =
    let seen = observe now err r in
    let put : Result → Monitor =
      λ r'. record { checks = m.checks; results = insert name r' m.results } in
    if lt64 seen.failures (threshold hc)
    then (put seen, false)
    else (put (if restart then record seen { failures = 0; status = unknown } else seen), true)

unfoldable pub record_result :
    Bool → ℕ → String → HealthCheckConfig → Option String → Monitor → Monitor × Bool
record_result restart now name hc err m =
    record_to restart now name hc err m (lookup name m.results)
