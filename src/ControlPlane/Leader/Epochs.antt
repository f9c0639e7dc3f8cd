-- ===== src/ControlPlane/Leader/Epochs.antt =====
-- Each epoch of leadership has one owner, however renewals interleave.
use firework.Base.{ℕ, ◌≡◌, ap, true, some, arith, ◌⊎◌, ◌<◌, inl, inr}
use firework.Base.Int64.{half_word}
use firework.ControlPlane.StateStore.{CellStore, stored}
use firework.ControlPlane.Leader.System.{System, Reach, steps}
use firework.ControlPlane.Leader.{LeaderLock}
use firework.ControlPlane.Leader.Seats.{IsFresh, Reach-Owns, IsFresh-Owns}

module _ (S : CellStore LeaderLock) (ttl : ℕ) where
  open S use {Cell, Token, get}

  -- From a fresh start, however the reads, writes and failures of any number of controllers
  -- interleave, in fewer than 2 ^ 63 steps: two controllers that both take themselves for leaders of the same epoch have the same id.
  pub epoch_has_one_leader :
      {s t : System S ttl} (i j : ℕ)
      → IsFresh S ttl s
      → (r : Reach S ttl s t) → steps S ttl r < half_word
      → (t.members i).ctl.leader ≡ true
      → (t.members j).ctl.leader ≡ true
      → (t.members i).ctl.epoch ≡ (t.members j).ctl.epoch
      → (t.members i).ctl.id ≡ (t.members j).ctl.id
  epoch_has_one_leader i j fresh r short leads leads' same =
      let (owner, inv) = Reach-Owns S ttl _ (IsFresh-Owns S ttl fresh) r short in
      cc ((inv.seats i).leads leads, (inv.seats j).leads leads', ap owner same)

  -- From a fresh start, in fewer than 2 ^ 63 steps, a controller that leads holds the lock, or the
  -- lock's epoch is greater than its own; and the lock's epoch has not wrapped.
  pub leader_holds_or_is_behind :
      {s t : System S ttl} (i : ℕ)
      → IsFresh S ttl s
      → (r : Reach S ttl s t) → steps S ttl r < half_word
      → (t.members i).ctl.leader ≡ true
      → (w : LeaderLock) × (stored S t.cell ≡ some w)
        × (w.leader_epoch < half_word)
        × (((w.holder_id ≡ (t.members i).ctl.id) × (w.leader_epoch ≡ (t.members i).ctl.epoch))
            ⊎ ((t.members i).ctl.epoch < w.leader_epoch))
  leader_holds_or_is_behind {t = t} i fresh r short leads =
      let (owner, inv) = Reach-Owns S ttl _ (IsFresh-Owns S ttl fresh) r short in
      let mine = (inv.seats i).leads leads in
      let (w, there, before) = (inv.seats i).reached leads in
      let epoch = (t.members i).ctl.epoch in
      let cases : (w.leader_epoch ≡ epoch) ⊎ (epoch < w.leader_epoch) = omega arith in
      (
        w,
        there,
        omega (arith, inv.counted w there, short),
        elim cases [
          | inl same ↦ inl (cc (inv.holder w there, mine, ap owner same), same)
          | inr behind ↦ inr behind
        ],
      )
