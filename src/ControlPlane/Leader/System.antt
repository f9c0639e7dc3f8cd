-- ===== src/ControlPlane/Leader/System.antt =====
-- Controllers that renew leadership at once, on one lock: reads, writes and failures interleave.
use firework.Base.{ℕ, suc, ◌≡◌, Bool, if◌then◌else◌, Option, none, some, eqb}
use firework.ControlPlane.StateStore.{CellStore}
use firework.ControlPlane.Leader.{
  LeaderLock, Controller, Decision, store_error, decide, conclude, attempt, outcome_of,
}

module _ (S : CellStore LeaderLock) (ttl : ℕ) where
  open S use {Cell, Token, get}

  -- A controller, with the decision of the renewal that it is in.
  pub record Member : Type 0 where
    pub ctl : Controller
    pub pending : Option (Decision Token)

  pub record System : Type 0 where
    pub cell : Cell
    pub members : ℕ → Member

  abbrev pub replace : (ℕ → Member) → ℕ → Member → ℕ → Member
  replace members i m j = if eqb i j then m else members j

  abbrev pub idle : Controller → Member
  idle c = record { ctl = c; pending = none }

  -- A renewal reads and decides; then its write is answered; or the write fails, and may have landed.
  pub data Step (s : System) : System → Type 0 where
    read :
        (i now : ℕ)
        → Step s (record s {
          members = replace s.members i (record {
            ctl = (s.members i).ctl;
            pending = some (decide ttl (s.members i).ctl.id now (get s.cell));
          });
        })
    answer :
        (i : ℕ) (d : Decision Token)
        → (s.members i).pending ≡ some d
        → Step s (record {
          cell = (attempt S ttl d s.cell).0;
          members =
              replace s.members i
                (idle (conclude (s.members i).ctl d (outcome_of S ttl (attempt S ttl d s.cell).1)));
        })
    fail :
        (i : ℕ) (d : Decision Token) (lands : Bool)
        → (s.members i).pending ≡ some d
        → Step s (record {
          cell = if lands then (attempt S ttl d s.cell).0 else s.cell;
          members = replace s.members i (idle (conclude (s.members i).ctl d store_error));
        })

  pub data Reach (s : System) : System → Type 0 where
    here : Reach s s
    next : {t u : System} → Reach s t → Step t u → Reach s u

  -- How many steps a run makes.
  unfoldable pub steps : {s t : System} → Reach s t → ℕ
  steps here = 0
  steps (next r step) = suc (steps r)
