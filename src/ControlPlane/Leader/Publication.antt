-- ===== src/ControlPlane/Leader/Publication.antt =====
-- What stillLeader, the check before a publication (internal/controlplane/controller.go), is worth.
use firework.Base.{ℕ, ◌<◌, ◌≤◌, ◌≡◌, sym, ap, ◌∙◌, true, some, arith, inl, inr, Option-cases}
use firework.Base.Int64.{half_word}
use firework.ControlPlane.StateStore.{CellStore, contents}
use firework.ControlPlane.Leader.{LeaderLock, Controller, still_leader}
use firework.ControlPlane.Leader.System.{System, Reach, steps}
use firework.ControlPlane.Leader.Seats.{IsFresh, Reach-Owns, IsFresh-Owns}

module _ (S : CellStore LeaderLock) (ttl : ℕ) where
  open S use {Token, get}

  still_leader-epoch :
      (now : ℕ) (c : Controller) (token : Token) (lock : LeaderLock)
      → still_leader S ttl now c (some (token, lock)) ≡ true
      → lock.leader_epoch ≡ c.epoch
  unfolding still_leader
  still_leader-epoch now c token lock h = ground (arith, h)

  -- From a fresh start, in fewer than 2 ^ 63 steps, of the controllers that take themselves for leaders, none has a greater epoch than one that passes
  -- the check before a publication, on what the store then holds; and that
  -- epoch has not wrapped.
  pub still_leader_is_last :
      {s t : System S ttl} (i j now : ℕ)
      → IsFresh S ttl s
      → (r : Reach S ttl s t) → steps S ttl r < half_word
      → still_leader S ttl now (t.members i).ctl (get t.cell) ≡ true
      → (t.members j).ctl.leader ≡ true
      → ((t.members j).ctl.epoch ≤ (t.members i).ctl.epoch) × ((t.members i).ctl.epoch < half_word)
  unfolding still_leader
  still_leader_is_last {t = t} i j now fresh r short passes leads =
      let (owner, inv) = Reach-Owns S ttl (λ e. "") (IsFresh-Owns S ttl fresh) r short in
      let (w, there, before) = (inv.seats j).reached leads in
      elim (Option-cases (get t.cell)) [
        | inl nothing ↦ absurd (cc (ap contents nothing, there))
        | inr ((token, lock), found) ↦
            let same : lock ≡ w = cc (ap contents found, there) in
            let epoch =
              still_leader-epoch now (t.members i).ctl token lock
                (ap (still_leader S ttl now (t.members i).ctl) (sym found) ∙ passes) in
            let read = ap (λ (l : LeaderLock). l.leader_epoch) same in
            (
              omega (arith, before, epoch, read),
              omega (arith, epoch, read, inv.counted w there, short),
            )
      ]
