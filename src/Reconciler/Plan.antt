-- ===== src/Reconciler/Plan.antt =====
-- What Plan asks for, service by service (internal/reconciler/reconciler.go).
pub mod Actions
use firework.Base.{
  String, ◌≡◌, refl, ap, sym, subst, ◌∙◌, Bool, true, false, ◌||◌, ◌==◌, if◌then◌else◌, Option,
  none, some, List, [], ◌∷◌, ◌++◌, arith, eq_iff, eq_refl, if_ind, Bool-cases, inl, inr, All,
  All-map, All-append,
}
use firework.Config.{ServiceConfig, NodeConfig}
use firework.Vm.{Instance}
use firework.Reconciler.{
  Action, Host, is_desired, plan_service, plan_delete, prepend, plan_desired, plan_deletes, plan,
}
use firework.Reconciler.Compare.{SortSlice, needs_update}
use firework.Reconciler.Laws.{IsWellNamed, IsRunning, Reached}

-- The action of a list on a service.
abbrev pub action_on : List Action → String → Option Action
action_on [] n = none
action_on (a ∷ actions) n =
    let rest = action_on actions n in if a.service.name == n then some a else rest

-- No two actions are on one service.
abbrev pub IsDistinct : List Action → Type 0
IsDistinct [] = Unit
IsDistinct (a ∷ actions) = (action_on actions a.service.name ≡ none) × IsDistinct actions

abbrev pub service_of : List ServiceConfig → String → Option ServiceConfig
service_of [] n = none
service_of (svc ∷ services) n =
    let rest = service_of services n in if svc.name == n then some svc else rest

-- No two services have one name.
abbrev pub HasNoTwins : List ServiceConfig → Type 0
HasNoTwins [] = Unit
HasNoTwins (svc ∷ services) = (service_of services svc.name ≡ none) × HasNoTwins services

abbrev pub has : List String → String → Bool
has [] n = false
has (name ∷ names) n = name == n || has names n

abbrev pub HasNoRepeats : List String → Type 0
HasNoRepeats [] = Unit
HasNoRepeats (name ∷ names) = (has names name ≡ false) × HasNoRepeats names

pub service_of-is_desired :
    (services : List ServiceConfig) (n : String)
    → service_of services n ≡ none
    → is_desired services n ≡ false
unfolding is_desired
service_of-is_desired [] n e = refl
service_of-is_desired (svc ∷ services) n e = ground (arith, e, service_of-is_desired services n)

pub service_of-desired :
    (services : List ServiceConfig) (n : String) (svc : ServiceConfig)
    → service_of services n ≡ some svc
    → is_desired services n ≡ true
unfolding is_desired
service_of-desired [] n svc e = ground (arith, e)
service_of-desired (s ∷ services) n svc e = ground (arith, e, service_of-desired services n svc)

pub is_desired-service_of :
    (services : List ServiceConfig) (n : String)
    → is_desired services n ≡ false
    → service_of services n ≡ none
unfolding is_desired
is_desired-service_of [] n e = refl
is_desired-service_of (svc ∷ services) n e = ground (arith, e, is_desired-service_of services n)

-- Each service of a list without twins is the one of its name.
pub HasNoTwins-service_of :
    (services : List ServiceConfig)
    → HasNoTwins services
    → All (λ svc. service_of services svc.name ≡ some svc) services
HasNoTwins-service_of [] d = tt
HasNoTwins-service_of (s ∷ services) (alone, d) = (
  rw (eq_refl s.name) refl,
  All-map (λ svc. service_of services svc.name ≡ some svc)
      (λ svc. service_of (s ∷ services) svc.name ≡ some svc) services
      (λ svc e. elim (Bool-cases (s.name == svc.name)) [
        | inl same ↦
            ground (arith, alone, e, ap (service_of services) ((eq_iff s.name svc.name).0 same))
        | inr other ↦ rw other e
      ])
      (HasNoTwins-service_of services d),
)

abbrev pub first_of : Option Action → Option Action → Option Action
first_of none rest = rest
first_of (some a) rest = some a

abbrev pub Each : (Action → Type 0) → Option Action → Type 0
Each P none = Unit
Each P (some a) = P a

-- What the action that is planned for a desired service is: on its name, and done when the machine
-- runs.
abbrev pub IsFor : ServiceConfig → Action → Type 0
IsFor svc a =
    (a.service.name ≡ svc.name)
    × IsWellNamed a
    × ((after : Option Instance) → Reached a.type a.service after → IsRunning svc after)

-- What the one for a machine that is not desired is: on its name, and done when the machine is gone.
abbrev pub IsRid : String → Action → Type 0
IsRid name a =
    (a.service.name ≡ name)
    × IsWellNamed a
    × ((after : Option Instance) → Reached a.type a.service after → after ≡ none)

-- The machine under a key has the key's name.
abbrev pub IsNamed : String → Option Instance → Type 0
IsNamed name found = (inst : Instance) → found ≡ some inst → inst.config.name ≡ name

pub plan_service-IsFor :
    (f : SortSlice) (found : Option Instance) (svc : ServiceConfig)
    → IsNamed svc.name found
    → Each (IsFor svc) (plan_service f found svc)
unfolding plan_service
plan_service-IsFor f none svc named = (refl, refl, λ after r. r)
plan_service-IsFor f (some inst) svc named =
    if_ind (Each (IsFor svc)) (needs_update f inst svc) (λ _. (refl, named inst refl, λ after r. r))
      (λ _. tt)

pub plan_delete-IsRid :
    (desired : List ServiceConfig) (name : String) (found : Option Instance)
    → IsNamed name found
    → Each (IsRid name) (plan_delete desired name found)
unfolding plan_delete
plan_delete-IsRid desired name none named = tt
plan_delete-IsRid desired name (some inst) named =
    if_ind (Each (IsRid name)) (is_desired desired name) (λ _. tt)
      (λ _. (named inst refl, refl, λ after r. r))

pub plan_delete-desired :
    (desired : List ServiceConfig) (name : String) (found : Option Instance)
    → is_desired desired name ≡ true
    → plan_delete desired name found ≡ none
unfolding plan_delete
plan_delete-desired desired name none e = refl
plan_delete-desired desired name (some inst) e = rw e refl

-- Prepending an action on `m`, or none.
pub action_on-prepend :
    (o : Option Action) (actions : List Action) (m n : String)
    → Each (λ a. a.service.name ≡ m) o
    → action_on (prepend o actions) n
      ≡ (if m == n then first_of o (action_on actions n) else action_on actions n)
action_on-prepend none actions m n named = ground arith
action_on-prepend (some a) actions m n named = rw named (ground arith)

pub Each-map :
    (P Q : Action → Type 0) (o : Option Action) → ((a : Action) → P a → Q a) → Each P o → Each Q o
Each-map P Q none f p = tt
Each-map P Q (some a) f p = f a p

pub prepend_append :
    (o : Option Action) (xs ys : List Action) → prepend o xs ++ ys ≡ prepend o (xs ++ ys)
prepend_append none xs ys = refl
prepend_append (some a) xs ys = refl

pub first_again : (d : Option Action) (b : Bool) → first_of d (if b then d else none) ≡ d
first_again none true = refl
first_again none false = refl
first_again (some a) b = refl

pub prepend-IsDistinct :
    (o : Option Action) (actions : List Action)
    → Each (λ a. action_on actions a.service.name ≡ none) o
    → IsDistinct actions
    → IsDistinct (prepend o actions)
prepend-IsDistinct none actions e d = d
prepend-IsDistinct (some a) actions e d = (e, d)

pub prepend-All :
    (P : Action → Type 0) (o : Option Action) (actions : List Action)
    → Each P o
    → All P actions
    → All P (prepend o actions)
prepend-All P none actions p ps = ps
prepend-All P (some a) actions p ps = (p, ps)
