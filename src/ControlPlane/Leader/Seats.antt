-- ===== src/ControlPlane/Leader/Seats.antt =====
-- The invariant of controllers that renew leadership at once: who owns which epoch.
use firework.Base.{
  ℕ, suc, String, ◌≤◌, ◌≡◌, refl, ap, ◌∙◌, Bool, true, false, if◌then◌else◌, none, some, eqb, arith,
  ◌<◌, inl, inr, if_ind, subst, or_else,
}
use firework.Base.Int64.{half_word}
use firework.ControlPlane.StateStore.{CellStore, stored}
use firework.ControlPlane.Leader.System.{
  Member, System, replace, idle, Step, read, answer, fail, Reach, here, next, steps,
}
use firework.ControlPlane.Leader.Writes.{
  IsSound, decide-IsSound, HasLanded, Effect, refused_loses, attempt-Effect,
}
use firework.ControlPlane.Leader.{
  LeaderLock, Controller, Decision, create, renew, take_over, yield_to_holder, store_error, decide,
  forget_on_change, won, conclude, outcome_of,
}

module _ (S : CellStore LeaderLock) (ttl : ℕ) where
  open S use {Cell, Token, get}

  -- What is known of one controller: if it leads, then it owns its epoch, which the lock has reached;
  -- and the decision that it is about to write was made on a content that was once there.
  pub record IsSeated (owner : ℕ → String) (c : Cell) (m : Member S ttl) : Type 0 where
    pub leads : m.ctl.leader ≡ true → owner m.ctl.epoch ≡ m.ctl.id
    pub reached :
        m.ctl.leader ≡ true
        → (w : LeaderLock) × (stored S c ≡ some w) × (m.ctl.epoch ≤ w.leader_epoch)
    pub sound : (d : Decision Token) → m.pending ≡ some d → IsSound S ttl m.ctl.id d

  -- Each epoch has one owner, the lock is held by the owner of its epoch, and the epoch is at most n.
  pub record Owns (owner : ℕ → String) (n : ℕ) (s : System S ttl) : Type 0 where
    pub holder : (w : LeaderLock) → stored S s.cell ≡ some w → owner w.leader_epoch ≡ w.holder_id
    pub counted : (w : LeaderLock) → stored S s.cell ≡ some w → w.leader_epoch ≤ n
    pub seats : (i : ℕ) → IsSeated owner s.cell (s.members i)

  -- Another lock in the cell, with more owners.
  relock :
      (owner : ℕ → String) (n : ℕ) (c end : Cell) (id : String) (m : Member S ttl)
      (h : HasLanded S ttl owner n c end id)
      → IsSeated owner c m
      → IsSeated h.owner' end m
  relock owner n c end id m h seat = record {
    leads = λ lead.
        let (w, there, before) = seat.reached lead in h.kept w there _ before ∙ seat.leads lead;
    reached = λ lead.
        let (w, there, before) = seat.reached lead in
        (h.lock, h.now_stored, omega (arith, h.grows w there));
    sound = seat.sound;
  }

  landed-holder :
      (owner : ℕ → String) (n : ℕ) (c end : Cell) (id : String)
      (h : HasLanded S ttl owner n c end id) (w : LeaderLock)
      → stored S end ≡ some w
      → h.owner' w.leader_epoch ≡ w.holder_id
  landed-holder owner n c end id h w e =
      let q : h.lock ≡ w = cc (h.now_stored, e) in rw (← q) h.owned

  landed-counted :
      (owner : ℕ → String) (n : ℕ) (c end : Cell) (id : String)
      (h : HasLanded S ttl owner n c end id) (w : LeaderLock)
      → stored S end ≡ some w
      → w.leader_epoch ≤ suc n
  landed-counted owner n c end id h w e =
      let q : h.lock ≡ w = cc (h.now_stored, e) in rw (← q) h.bounded

  -- A new lock in the cell and another member in the seat `i`.
  reseat :
      (owner : ℕ → String) (c : Cell) (members : ℕ → Member S ttl) (i : ℕ) (m : Member S ttl)
      → ((j : ℕ) → IsSeated owner c (members j))
      → IsSeated owner c m
      → (j : ℕ) → IsSeated owner c (replace S ttl members i m j)
  reseat owner c members i m seats seat j =
      if_ind (IsSeated owner c) (eqb i j) (λ _. seat) (λ _. seats j)

  won_same :
      (ctl : Controller) (l : LeaderLock)
      → ((forget_on_change ctl.leader (won ctl l)).epoch ≡ l.leader_epoch)
        × ((forget_on_change ctl.leader (won ctl l)).id ≡ ctl.id)
  unfolding forget_on_change won
  won_same ctl l = ground arith

  -- A controller that has just won the lock, and one that does not lead.
  won-IsSeated :
      (owner : ℕ → String) (n : ℕ) (c end : Cell) (ctl : Controller)
      (h : HasLanded S ttl owner n c end ctl.id)
      → IsSeated h.owner' end (idle S ttl (forget_on_change ctl.leader (won ctl h.lock)))
  won-IsSeated owner n c end ctl h = record {
    leads =
        λ lead. cc ((won_same ctl h.lock).1, h.owned, h.mine, ap h.owner' (won_same ctl h.lock).0);
    reached = λ lead. (h.lock, h.now_stored, omega (arith, (won_same ctl h.lock).0));
    sound = λ d e. cc;
  }

  idle-IsSeated :
      (owner : ℕ → String) (c : Cell) (ctl : Controller)
      → ctl.leader ≡ false
      → IsSeated owner c (idle S ttl ctl)
  idle-IsSeated owner c ctl out = record {
    leads = λ lead. cc;
    reached = λ lead. absurd (cc (lead, out));
    sound = λ d e. cc;
  }

  answer-Owns :
      (owner : ℕ → String) (n : ℕ) (room : suc n < half_word) (s : System S ttl) (i : ℕ)
      (d : Decision Token) (end : Cell) (ok : Bool) (inv : Owns owner n s)
      → Effect S ttl owner n room s.cell inv.holder inv.counted (s.members i).ctl.id d (end, ok)
      → (o : ℕ → String) × Owns o (suc n) (record {
        cell = end;
        members =
            replace S ttl s.members i
              (idle S ttl (conclude (s.members i).ctl d (outcome_of S ttl ok)));
      })
  unfolding outcome_of
  answer-Owns owner n room s i d end ok inv (inl (h, landed, wins)) =
      let ctl = (s.members i).ctl in
      (
        h.owner',
        record {
          holder = landed-holder owner n s.cell end ctl.id h;
          counted = landed-counted owner n s.cell end ctl.id h;
          seats =
              reseat h.owner' end s.members i _
                (λ j. relock owner n s.cell end ctl.id (s.members j) h (inv.seats j))
                (rw (landed, wins ctl) (won-IsSeated owner n s.cell end ctl h));
        },
      )
  answer-Owns owner n room s i d end ok inv (inr (same, loses)) =
      let ctl = (s.members i).ctl in
      (
        owner,
        rw same (record {
          holder = inv.holder;
          counted = λ w e. omega (arith, inv.counted w e);
          seats =
              reseat owner s.cell s.members i _ inv.seats
                (idle-IsSeated owner s.cell _ (loses ctl));
        }),
      )

  -- After a failed write a controller is as it was, or it does not lead.
  failed-IsSeated :
      (owner : ℕ → String) (c : Cell) (m : Member S ttl) (d : Decision Token)
      → IsSeated owner c m
      → IsSeated owner c (idle S ttl (conclude m.ctl d store_error))
  unfolding conclude
  failed-IsSeated owner c m yield_to_holder seat =
      idle-IsSeated owner c _ (refused_loses S ttl m.ctl)
  failed-IsSeated owner c m (create l) seat = record {
    leads = seat.leads;
    reached = seat.reached;
    sound = λ d e. cc;
  }
  failed-IsSeated owner c m (renew t l) seat = record {
    leads = seat.leads;
    reached = seat.reached;
    sound = λ d e. cc;
  }
  failed-IsSeated owner c m (take_over t l) seat = record {
    leads = seat.leads;
    reached = seat.reached;
    sound = λ d e. cc;
  }

  fail-Owns :
      (owner : ℕ → String) (n : ℕ) (room : suc n < half_word) (s : System S ttl) (i : ℕ)
      (d : Decision Token) (end : Cell) (ok lands : Bool) (inv : Owns owner n s)
      → Effect S ttl owner n room s.cell inv.holder inv.counted (s.members i).ctl.id d (end, ok)
      → (o : ℕ → String) × Owns o (suc n) (record {
        cell = if lands then end else s.cell;
        members = replace S ttl s.members i (idle S ttl (conclude (s.members i).ctl d store_error));
      })
  fail-Owns owner n room s i d end ok true inv (inl (h, _, _)) =
      let ctl = (s.members i).ctl in
      (
        h.owner',
        record {
          holder = landed-holder owner n s.cell end ctl.id h;
          counted = landed-counted owner n s.cell end ctl.id h;
          seats =
              reseat h.owner' end s.members i _
                (λ j. relock owner n s.cell end ctl.id (s.members j) h (inv.seats j))
                (failed-IsSeated h.owner' end (s.members i) d
                  (relock owner n s.cell end ctl.id (s.members i) h (inv.seats i)));
        },
      )
  fail-Owns owner n room s i d end ok true inv (inr (same, _)) = (
    owner,
    rw same (record {
      holder = inv.holder;
      counted = λ w e. omega (arith, inv.counted w e);
      seats =
          reseat owner s.cell s.members i _ inv.seats
            (failed-IsSeated owner s.cell (s.members i) d (inv.seats i));
    }),
  )
  fail-Owns owner n room s i d end ok false inv effect = (
    owner,
    record {
      holder = inv.holder;
      counted = λ w e. omega (arith, inv.counted w e);
      seats =
          reseat owner s.cell s.members i _ inv.seats
            (failed-IsSeated owner s.cell (s.members i) d (inv.seats i));
    },
  )

  Step-Owns :
      (owner : ℕ → String) (n : ℕ) (room : suc n < half_word) {s t : System S ttl}
      → Owns owner n s
      → Step S ttl s t
      → (o : ℕ → String) × Owns o (suc n) t
  Step-Owns owner n room {s} inv (read i now) =
      let m = s.members i in
      (
        owner,
        record {
          holder = inv.holder;
          counted = λ w e. omega (arith, inv.counted w e);
          seats = reseat owner s.cell s.members i _ inv.seats (record {
            leads = (inv.seats i).leads;
            reached = (inv.seats i).reached;
            sound = λ d e.
                let q : decide ttl m.ctl.id now (get s.cell) ≡ d = ap (λ o. or_else o d) e in
                subst (IsSound S ttl m.ctl.id) q
                  (decide-IsSound S ttl m.ctl.id now s.cell (get s.cell) refl);
          });
        },
      )
  Step-Owns owner n room {s} inv (answer i d e) = answer-Owns owner n room s i d _ _ inv (
      attempt-Effect S ttl owner n room s.cell inv.holder inv.counted (s.members i).ctl.id d
        ((inv.seats i).sound d e))
  Step-Owns owner n room {s} inv (fail i d lands e) = fail-Owns owner n room s i d _ _ lands inv (
      attempt-Effect S ttl owner n room s.cell inv.holder inv.counted (s.members i).ctl.id d
        ((inv.seats i).sound d e))

  pub Reach-Owns :
      (owner : ℕ → String) {s t : System S ttl}
      → Owns owner 0 s
      → (r : Reach S ttl s t) → steps S ttl r < half_word
      → (o : ℕ → String) × Owns o (steps S ttl r) t
  unfolding steps
  Reach-Owns owner inv here l = (owner, inv)
  Reach-Owns owner inv (next r step) l =
      let (o, inv') = Reach-Owns owner inv r (omega (arith, l)) in
      Step-Owns o (steps S ttl r) l inv' step

  -- No lock yet, and controllers that neither lead nor renew.
  pub record IsFresh (s : System S ttl) : Type 0 where
    pub no_lock : stored S s.cell ≡ none
    pub followers : (i : ℕ) → (s.members i).ctl.leader ≡ false
    pub quiet : (i : ℕ) → (s.members i).pending ≡ none

  pub IsFresh-Owns : {s : System S ttl} → IsFresh s → Owns (λ e. "") 0 s
  IsFresh-Owns fresh = record {
    holder = λ w e. absurd (cc (fresh.no_lock, e));
    counted = λ w e. absurd (cc (fresh.no_lock, e));
    seats = λ i. record {
      leads = λ lead. absurd (cc (fresh.followers i, lead));
      reached = λ lead. absurd (cc (fresh.followers i, lead));
      sound = λ d e. absurd (cc (fresh.quiet i, e));
    };
  }
