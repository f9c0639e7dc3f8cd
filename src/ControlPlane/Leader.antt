-- ===== src/ControlPlane/Leader.antt =====
-- internal/controlplane/controller.go: renewLeadership and stillLeader. A renewal reads the lock,
-- decides, and makes at most one conditional write; other controllers may act in between, so the
-- decision and the end of a renewal are functions of their own, which the whole composes.
pub mod System
pub mod Writes
pub mod Seats
pub mod Epochs
pub mod Publication
use firework.Base.{
  ℕ, String, ◌+◌, Bool, true, false, ◌&&◌, not, ◌==◌, if◌then◌else◌, Option, none, some, ltb, eqb,
}
use firework.Base.Int64.{add64}
use firework.ControlPlane.StateStore.{CellStore}

pub record LeaderLock : Type 0 where
  pub holder_id : String
  pub leader_epoch : ℕ
  pub lease_expires_at : ℕ
  pub renewed_at : ℕ

-- The fields of Controller that the election and the publication read and write.
pub record Controller : Type 0 where
  pub id : String
  pub epoch : ℕ
  pub leader : Bool
  pub last_input_signature : String

-- The conditional write that a renewal makes, if any.
pub data Decision (Token : Type 0) : Type 0 where
  create : LeaderLock → Decision Token
  renew : Token → LeaderLock → Decision Token
  take_over : Token → LeaderLock → Decision Token
  yield_to_holder : Decision Token

-- What the write came to: done, refused, or an error of the store.
pub data Outcome : Type 0 where
  written : Outcome
  refused : Outcome
  store_error : Outcome

-- `ttl` is LeaderLeaseTTL. A time is a number of nanoseconds.
module _ (ttl : ℕ) where
  unfoldable pub decide :
      {Token : Type 0} → String → ℕ → Option (Token × LeaderLock) → Decision Token
  decide id now none =
      create (record {
        holder_id = id;
        leader_epoch = 1;
        lease_expires_at = now + ttl;
        renewed_at = now;
      })
  decide id now (some (token, current)) =
      if current.holder_id == id
      then renew token (record current { lease_expires_at = now + ttl; renewed_at = now })
      else if ltb current.lease_expires_at now
      then take_over token (record {
        holder_id = id;
        leader_epoch = add64 current.leader_epoch 1;
        lease_expires_at = now + ttl;
        renewed_at = now;
      })
      else yield_to_holder

-- The memory of the last input is dropped when leadership is won or lost.
unfoldable pub forget_on_change : Bool → Controller → Controller
forget_on_change was_leader c =
    if not was_leader && c.leader
    then record c { last_input_signature = "" }
    else if was_leader && not c.leader
    then record c { last_input_signature = "" }
    else c

-- `c.leader`, `c.epoch` after a write that took the lock with a new epoch.
unfoldable pub won : Controller → LeaderLock → Controller
won c lock = record c { leader = true; epoch = lock.leader_epoch }

unfoldable pub lost : Controller → Controller
lost c = record c { leader = false }

-- The rest of a renewal after its write.
unfoldable pub conclude : {Token : Type 0} → Controller → Decision Token → Outcome → Controller
conclude c (create lock) written = forget_on_change c.leader (won c lock)
conclude c (create lock) refused = forget_on_change c.leader (lost c)
conclude c (create lock) store_error = c
conclude c (renew token lock) written = forget_on_change c.leader (won c lock)
conclude c (renew token lock) refused =
    forget_on_change c.leader (record c { leader = false; epoch = lock.leader_epoch })
conclude c (renew token lock) store_error = c
conclude c (take_over token lock) written = forget_on_change c.leader (won c lock)
conclude c (take_over token lock) refused = forget_on_change c.leader (lost c)
conclude c (take_over token lock) store_error = c
conclude c yield_to_holder outcome = forget_on_change c.leader (lost c)

module _ (S : CellStore LeaderLock) (ttl : ℕ) where
  open S use {Cell, Token, get, put_if_absent, put_if_match}

  unfoldable pub attempt : Decision Token → Cell → Cell × Bool
  attempt (create lock) c = put_if_absent lock c
  attempt (renew token lock) c = put_if_match token lock c
  attempt (take_over token lock) c = put_if_match token lock c
  attempt yield_to_holder c = (c, true)

  unfoldable pub outcome_of : Bool → Outcome
  outcome_of true = written
  outcome_of false = refused

  -- renewLeadership where nobody interferes and the store does not fail.
  unfoldable pub renew_leadership : ℕ → Controller → Cell → Cell × Controller
  renew_leadership now c cell =
      let decision = decide ttl c.id now (get cell) in
      let (cell', ok) = attempt decision cell in (cell', conclude c decision (outcome_of ok))

  -- stillLeader, on what is read from the store.
  unfoldable pub still_leader : ℕ → Controller → Option (Token × LeaderLock) → Bool
  still_leader now c none = false
  still_leader now c (some (_, lock)) =
      lock.holder_id == c.id && eqb lock.leader_epoch c.epoch && ltb now lock.lease_expires_at
