-- ===== src/Health/Transitions.antt =====
-- The monitor of internal/healthcheck/checker.go over a history of calls: a service that is checked
-- has a result, and restarts are asked for at the threshold.
use firework.Base.{
  ℕ, suc, ◌+◌, ◌<◌, String, Bool, true, false, ◌≡◌, refl, ap, ◌∙◌, not, ◌||◌, if◌then◌else◌, Option,
  none, some, List, [], ◌∷◌, is_some, arith, eq_refl, length, if_ind,
}
use firework.Base.Int64.{add64, add64_small, half_word, lt64}
use firework.Base.Dict.{lookup, insert, lookup-insert, lookup-remove}
use firework.Config.{HealthCheckConfig, ServiceConfig}
use firework.Health.{
  Result, Monitor, register, deregister, stop, record_result, record_to, observe, threshold,
  get_result, first_result,
}

-- The calls on a monitor.
pub data Event : Type 0 where
  registers : ServiceConfig → Event
  deregisters : String → Event
  stops : Event
  records : Bool → ℕ → String → HealthCheckConfig → Option String → Event

unfoldable pub handle : Event → Monitor → Monitor
handle (registers svc) m = register svc m
handle (deregisters name) m = deregister name m
handle stops m = stop m
handle (records restart now name hc err) m = (record_result restart now name hc err m).0

unfoldable pub handle_all : List Event → Monitor → Monitor
handle_all [] m = m
handle_all (e ∷ es) m = handle_all es (handle e m)

-- Every service that is checked has a result.
abbrev pub IsCovered : Monitor → Type 0
IsCovered m =
    (k : String) → (not (is_some (lookup k m.checks)) || is_some (lookup k m.results)) ≡ true

deregister-IsCovered : (name : String) (m : Monitor) → IsCovered m → IsCovered (deregister name m)
unfolding deregister
deregister-IsCovered name m c k =
    if_ind
      (λ (m' : Monitor).
        (not (is_some (lookup k m'.checks)) || is_some (lookup k m'.results)) ≡ true)
      (is_some (lookup name m.checks))
      (λ _.
        rw (lookup-remove name k m.checks, lookup-remove name k m.results) (ground (arith, c k)))
      (λ _. c k)

-- Writing a result keeps the covering, and with it a check can be added.
insert-IsCovered :
    (name : String) (svc : ServiceConfig) (r : Result) (m : Monitor)
    → IsCovered m
    → IsCovered (record { checks = insert name svc m.checks; results = insert name r m.results })
insert-IsCovered name svc r m c k =
    rw (lookup-insert name k svc m.checks, lookup-insert name k r m.results) (ground (arith, c k))

result-IsCovered :
    (name : String) (r : Result) (m : Monitor)
    → IsCovered m
    → IsCovered (record { checks = m.checks; results = insert name r m.results })
result-IsCovered name r m c k = rw (lookup-insert name k r m.results) (ground (arith, c k))

register-IsCovered : (svc : ServiceConfig) (m : Monitor) → IsCovered m → IsCovered (register svc m)
unfolding register
register-IsCovered svc m c =
    if_ind IsCovered (is_some svc.health_check)
      (λ _.
        insert-IsCovered svc.name svc (first_result svc.name) (deregister svc.name m)
          (deregister-IsCovered svc.name m c))
      (λ _. c)

record_to-IsCovered :
    (restart : Bool) (now : ℕ) (name : String) (hc : HealthCheckConfig) (err : Option String)
    → (m : Monitor) (o : Option Result) → IsCovered m
    → IsCovered (record_to restart now name hc err m o).0
unfolding record_to
record_to-IsCovered restart now name hc err m none c k = c k
record_to-IsCovered restart now name hc err m (some r) c k =
    if_ind
      (λ (p : Monitor × Bool).
        (not (is_some (lookup k p.0.checks)) || is_some (lookup k p.0.results)) ≡ true)
      (lt64 (observe now err r).failures (threshold hc))
      (λ _. result-IsCovered name (observe now err r) m c k) (λ _. result-IsCovered name _ m c k)

handle-IsCovered : (e : Event) (m : Monitor) → IsCovered m → IsCovered (handle e m)
unfolding handle stop lookup record_result
handle-IsCovered (registers svc) m c k = register-IsCovered svc m c k
handle-IsCovered (deregisters name) m c k = deregister-IsCovered name m c k
handle-IsCovered stops m c k = ground arith
handle-IsCovered (records restart now name hc err) m c k =
    record_to-IsCovered restart now name hc err m (lookup name m.results) c k

-- Whatever is called on the monitor, in any order, keeps a result for every service that it checks.
pub handle_all-IsCovered :
    (es : List Event) (m : Monitor) → IsCovered m → IsCovered (handle_all es m)
unfolding handle_all
handle_all-IsCovered [] m c = c
handle_all-IsCovered (e ∷ es) m c = handle_all-IsCovered es (handle e m) (handle-IsCovered e m c)

-- A run of failing checks of one service, each with its time and its error; the second result counts
-- the restarts that it asked for.
module _ (restart : Bool) (name : String) (hc : HealthCheckConfig) where
  unfoldable pub failing : List (ℕ × String) → Monitor → Monitor × ℕ
  failing [] m = (m, 0)
  failing ((now, err) ∷ es) m =
      let (m', asked) = record_result restart now name hc (some err) m in
      let (m'', n) = failing es m' in (m'', if asked then suc n else n)

  module _ (small : threshold hc < half_word) where
    below :
        (r : Result) (es : List (ℕ × String))
        → r.failures + suc (length es) < threshold hc
        → lt64 (add64 r.failures 1) (threshold hc) ≡ true
    unfolding lt64 add64
    below r es h = ground arith

    -- A failing check below the threshold writes the observed result, and asks for nothing.
    record_result-below :
        (now : ℕ) (err : String) (m : Monitor) (r : Result)
        → lookup name m.results ≡ some r
        → lt64 (add64 r.failures 1) (threshold hc) ≡ true
        → record_result restart now name hc (some err) m ≡ (
          record { checks = m.checks; results = insert name (observe now (some err) r) m.results },
          false,
        )
    unfolding record_result record_to observe
    record_result-below now err m r e h =
        ap (record_to restart now name hc (some err) m) e ∙ rw h refl

    -- Failing checks below the threshold ask for no restart and are counted, one by one.
    pub failing-counts :
        (es : List (ℕ × String)) (m : Monitor) (r : Result)
        → get_result name m ≡ some r
        → r.failures + length es < threshold hc
        → ((failing es m).1 ≡ 0)
          × (r' : Result) × (get_result name (failing es m).0 ≡ some r')
          × (r'.failures ≡ r.failures + length es)
    unfolding failing get_result observe
    failing-counts [] m r e h = (refl, r, e, omega arith)
    failing-counts ((now, err) ∷ es) m r e h =
        rw (record_result-below now err m r e (below r es h)) (
          let seen = observe now (some err) r in
          let up = add64_small r.failures 1 (omega (arith, h, small)) in
          let m' : Monitor = record { checks = m.checks; results = insert name seen m.results } in
          let found : lookup name m'.results ≡ some seen =
            rw (lookup-insert name name seen m.results) (simp eq_refl refl) in
          let (none_asked, r', got, count) =
            failing-counts es m' seen found (omega (arith, h, up)) in
          (none_asked, r', got, omega (arith, count, up)))

    at_threshold : (n : ℕ) → suc n ≡ threshold hc → lt64 (add64 n 1) (threshold hc) ≡ false
    unfolding lt64 add64
    at_threshold n h = ground arith

    record_to-asks :
        (now : ℕ) (err : String) (m : Monitor) (r : Result)
        → suc r.failures ≡ threshold hc
        → (record_to restart now name hc (some err) m (some r)).1 ≡ true
    unfolding record_to observe
    record_to-asks now err m r h = rw (at_threshold r.failures h) refl

    -- From a result with no failures, when as many checks fail in a row as the threshold says, the last
    -- of them, and none before it, asks for a restart.
    pub failing-asks :
        (es : List (ℕ × String)) (m : Monitor) (r : Result) (now : ℕ) (err : String)
        → get_result name m ≡ some r
        → r.failures ≡ 0
        → suc (length es) ≡ threshold hc
        → ((failing es m).1 ≡ 0)
          × ((record_result restart now name hc (some err) (failing es m).0).1 ≡ true)
    unfolding record_result get_result
    failing-asks es m r now err e zero_failures h =
        let (none_asked, r', got, count) =
          failing-counts es m r e (omega (arith, zero_failures, h)) in
        (
          none_asked,
          ap (λ o. (record_to restart now name hc (some err) (failing es m).0 o).1) got
              ∙ record_to-asks now err (failing es m).0 r' (omega (arith, count, zero_failures, h)),
        )
