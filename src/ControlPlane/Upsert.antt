-- ===== src/ControlPlane/Upsert.antt =====
-- The compare-and-swap loop of internal/controlplane: upsertNodeRecord (registry.go) and
-- upsertPointer (util.go). What others do to the object, and which calls of the store fail, is an
-- explicit schedule of attempts.
pub mod Atomic
use firework.Base.{
  String, ℕ, zero, suc, Bool, true, false, if◌then◌else◌, Option, none, some, or_else,
}
use firework.ControlPlane.StateStore.{CellStore, contents}

-- What a mutator returns.
pub data Mutation (E V : Type 0) : Type 0 where
  keep : V → Mutation E V
  refuse : E → Mutation E V

-- How an upsert ends.
pub data Upserted (E V : Type 0) : Type 0 where
  done : V → Upserted E V
  failed : E → Upserted E V
  store_error : Upserted E V
  too_many : Upserted E V

module _ {V : Type 0} (S : CellStore V) where
  open S use {Cell, Token, get, put_if_absent, put_if_match}

  -- One round as the world lets it run: what others write before the read and between the read and
  -- the write, the time, and the failures; a write that failed may have landed.
  pub record Round : Type 0 where
    pub before : Cell → Cell
    pub between : Cell → Cell
    pub now : ℕ
    pub get_fails : Bool
    pub put_fails : Bool
    pub put_lands : Bool

  -- The conditional write for what was read.
  unfoldable pub write : Option (Token × V) → V → Cell → Cell × Bool
  write none v c = put_if_absent v c
  write (some (token, _)) v c = put_if_match token v c

  module _ {E : Type 0} (fresh : V) (mutator : ℕ → V → Mutation E V) where
    -- The end of a round that has read `read`, with the new value `v`; `again` is the next round.
    unfoldable pub finish_round :
        Round → Option (Token × V) → V → Cell → (Cell → Cell × Upserted E V) → Cell × Upserted E V
    finish_round round read v c again =
        let (after, ok) = write read v c in
        if round.put_fails
        then (if round.put_lands then after else c, store_error)
        else if ok
        then (after, done v)
        else again after

    -- A round after the read, by what the mutator returned.
    unfoldable pub react :
        Round → Cell → (Cell → Cell × Upserted E V) → Mutation E V → Cell × Upserted E V
    react round c again (refuse e) = (c, failed e)
    react round c again (keep v) = finish_round round (get c) v (round.between c) again

    -- The rounds from the number `i` on, when `left` of them are left.
    unfoldable pub upsert_from : ℕ → (ℕ → Round) → ℕ → Cell → Cell × Upserted E V
    upsert_from zero rounds i c = (c, too_many)
    upsert_from (suc left) rounds i c =
        let c' = (rounds i).before c in
        let again = λ (d : Cell). upsert_from left rounds (suc i) d in
        let old = or_else (contents (get c')) fresh in
        let rest = react (rounds i) c' again (mutator (rounds i).now old) in
        if (rounds i).get_fails then (c', store_error) else rest

    -- `for i := 0; i < 6; i++`
    unfoldable pub upsert : (ℕ → Round) → Cell → Cell × Upserted E V
    upsert rounds c = upsert_from 6 rounds 0 c

pub record RevisionPointer : Type 0 where
  pub revision : String
  pub updated_at : ℕ

-- upsertPointer: the pointer does not depend on the one that it replaces.
unfoldable pub upsert_pointer :
    (S : CellStore RevisionPointer)
    → String
    → ℕ
    → (ℕ → Round S)
    → S.Cell
    → S.Cell × Upserted Unit RevisionPointer
upsert_pointer S rev now rounds c =
    let ptr : RevisionPointer = record { revision = rev; updated_at = now } in
    upsert S ptr (λ t old. keep ptr) rounds c
