-- ===== src/Scheduler/Legacy/Partition.antt =====
-- Schedule (internal/scheduler/scheduler.go) places each service once, or fails as a whole.
use firework.Base.{
  ℕ, ◌+◌, String, ◌≡◌, refl, ap, sym, ◌∙◌, Bool, ◌||◌, ◌==◌, Option, none, some, List, [], ◌∷◌,
  sum_by, sum_by-append, arith, if_ind, Bool-cases, Option-cases, or_else, inl, inr,
}
use firework.Base.Dict.{Dict, lookup, total_by, total_by-append_at, total_by-insert}
use firework.Config.{ServiceConfig}
use firework.Scheduler.{Node, has_conflict}
use firework.Scheduler.Legacy.{
  Usage, assign, overloads, node_by_id, keep_or_leave, keep_existing, previous_node, pack, best_fit,
  empty_assignment, fresh_usage, assignment_of, larger, schedule,
}

module _ (w : ServiceConfig → ℕ) where
  assign-total :
      (service : ServiceConfig) (id : String) (u : Usage)
      → total_by w (assign service id u).result ≡ total_by w u.result + w service
  unfolding assign
  assign-total service id u = total_by-append_at w id service u.result

  -- What is placed and what is left for the second phase.
  abbrev weight : Usage × List ServiceConfig → ℕ
  weight (u, unplaced) = total_by w u.result + sum_by w unplaced

  keep_or_leave-weight :
      (service : ServiceConfig) (found : Option Node) (u : Usage) (unplaced : List ServiceConfig)
      → weight (keep_or_leave service found (u, unplaced)) ≡ weight (u, unplaced) + w service
  unfolding keep_or_leave
  keep_or_leave-weight service none u unplaced =
      omega (arith, sum_by-append w unplaced (service ∷ []))
  keep_or_leave-weight service (some n) u unplaced =
      if_ind (λ (st : Usage × List ServiceConfig). weight st ≡ weight (u, unplaced) + w service)
        (overloads service u n || has_conflict service u.groups n.instance_id)
        (λ _. omega (arith, sum_by-append w unplaced (service ∷ [])))
        (λ _. omega (arith, assign-total service n.instance_id u))

  keep_existing-weight :
      (nodes : Dict Node) (existing : Dict String) (services : List ServiceConfig)
      → (st : Usage × List ServiceConfig)
      → weight (keep_existing nodes existing services st) ≡ weight st + sum_by w services
  unfolding keep_existing
  keep_existing-weight nodes existing [] st = omega arith
  keep_existing-weight nodes existing (service ∷ services) (u, unplaced) =
      let found = previous_node nodes (lookup service.name existing) in
      omega (
        arith,
        keep_existing-weight nodes existing services (keep_or_leave service found (u, unplaced)),
        keep_or_leave-weight service found u unplaced,
      )

  pack-total :
      (nodes : List Node) (services : List ServiceConfig) (u end : Usage)
      → pack nodes services u ≡ some end
      → total_by w end.result ≡ total_by w u.result + sum_by w services
  unfolding pack
  pack-total nodes [] u end e =
      let same : total_by w end.result ≡ total_by w u.result =
        ap (λ o. total_by w (or_else o u).result) (sym e) in
      omega (arith, same)
  pack-total nodes (service ∷ services) u end e =
      elim (Bool-cases (best_fit service u nodes == "")) [
        | inl stuck ↦ absurd (ground (arith, stuck, e))
        | inr fits ↦
            let rest : pack nodes services (assign service (best_fit service u nodes) u)
                ≡ some end =
              rw fits at e in
            omega (
              arith,
              pack-total nodes services (assign service (best_fit service u nodes) u) end rest,
              assign-total service (best_fit service u nodes) u,
            )
      ]

  empty_assignment-total : (nodes : List Node) → total_by w (empty_assignment nodes) ≡ 0
  unfolding empty_assignment total_by
  empty_assignment-total [] = refl
  empty_assignment-total (n ∷ nodes) = omega (
    arith,
    total_by-insert w n.instance_id [] (empty_assignment nodes),
    empty_assignment-total nodes,
  )

  module _
      (sort_slice : (ServiceConfig → ServiceConfig → Bool)
        → List ServiceConfig
        → List ServiceConfig)
      (keeps : (services : List ServiceConfig)
        → sum_by w (sort_slice larger services) ≡ sum_by w services) where
    schedule_on-total :
        (services : List ServiceConfig) (n : Node) (nodes : List Node) (existing : Dict String)
        (result : Dict (List ServiceConfig))
        → (let kept =
              keep_existing
                (node_by_id (n ∷ nodes) [])
                existing
                services
                (fresh_usage (n ∷ nodes), []) in
            assignment_of (pack (n ∷ nodes) (sort_slice larger kept.1) kept.0) ≡ some result)
        → total_by w result ≡ sum_by w services
    schedule_on-total services n nodes existing result e =
        let all = n ∷ nodes in
        let kept = keep_existing (node_by_id all []) existing services (fresh_usage all, []) in
        elim (Option-cases (pack all (sort_slice larger kept.1) kept.0)) [
          | inl failed ↦ absurd (ground (arith, failed, e))
          | inr (end, packed) ↦
              let same : total_by w result ≡ total_by w end.result =
                ap (λ o. total_by w (or_else o end.result))
                  (sym (ap assignment_of (sym packed) ∙ e)) in
              omega (
                arith,
                same,
                pack-total all (sort_slice larger kept.1) kept.0 end packed,
                keeps kept.1,
                keep_existing-weight (node_by_id all []) existing services (fresh_usage all, []),
                empty_assignment-total all,
              )
        ]

    -- When the sort neither adds nor drops weight, then however services are weighed, those on all
    -- the nodes of a schedule weigh together what the services given weigh.
    pub schedule-total :
        (services : List ServiceConfig) (nodes : List Node) (existing : Dict String)
        (result : Dict (List ServiceConfig))
        → schedule sort_slice services nodes existing ≡ some result
        → total_by w result ≡ sum_by w services
    unfolding schedule total_by
    schedule-total [] [] existing result e = ap (λ o. total_by w (or_else o [])) (sym e)
    schedule-total (_ ∷ _) [] existing result e = absurd (ground (arith, e))
    schedule-total [] (n ∷ nodes) existing result e = schedule_on-total [] n nodes existing result e
    schedule-total (s ∷ services) (n ∷ nodes) existing result e =
        schedule_on-total (s ∷ services) n nodes existing result e
