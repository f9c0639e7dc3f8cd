-- ===== src/ControlPlane/Leader/Writes.antt =====
-- What the conditional write of a renewal does to the lock, whatever happened since it was read.
use firework.Base.{
  ℕ, suc, ◌<◌, String, ◌+◌, ◌≤◌, ◌≡◌, refl, ap, ◌∙◌, Bool, true, false, ◌==◌, if◌then◌else◌, Option,
  none, some, eqb, ltb, arith, eq_iff, Bool-cases, ◌⊎◌, inl, inr, if_ind,
}
use firework.Base.Int64.{add64, add64_small, half_word}
use firework.ControlPlane.StateStore.{CellStore, stored, contents}
use firework.ControlPlane.Leader.{
  LeaderLock, Controller, Decision, create, renew, take_over, yield_to_holder, written, decide,
  forget_on_change, won, lost, conclude, attempt, outcome_of,
}

module _ (S : CellStore LeaderLock) (ttl : ℕ) where
  open S use {Cell, Token, get}

  renew_refused_loses :
      (ctl : Controller) (l : LeaderLock)
      → (forget_on_change ctl.leader (record ctl { leader = false; epoch = l.leader_epoch })).leader
        ≡ false
  unfolding forget_on_change
  renew_refused_loses ctl l = ground arith

  pub refused_loses : (ctl : Controller) → (forget_on_change ctl.leader (lost ctl)).leader ≡ false
  unfolding forget_on_change lost
  refused_loses ctl = ground arith

  -- What a decision that was made on some earlier content promises of its write.
  unfoldable pub IsSound : String → Decision Token → Type 0
  IsSound id (create lock) = (lock.holder_id ≡ id) × (lock.leader_epoch ≡ 1)
  IsSound id (renew token lock) =
      (c : Cell) × (w : LeaderLock) × (get c ≡ some (token, w))
      × (lock.holder_id ≡ id)
      × (w.holder_id ≡ id)
      × (lock.leader_epoch ≡ w.leader_epoch)
  IsSound id (take_over token lock) =
      (c : Cell) × (w : LeaderLock) × (get c ≡ some (token, w))
      × (lock.holder_id ≡ id)
      × (lock.leader_epoch ≡ add64 w.leader_epoch 1)
  IsSound id yield_to_holder = Unit

  pub decide-IsSound :
      (id : String) (now : ℕ) (c : Cell) (o : Option (Token × LeaderLock))
      → get c ≡ o
      → IsSound id (decide ttl id now o)
  unfolding decide IsSound
  decide-IsSound id now c none e = (refl, refl)
  decide-IsSound id now c (some (token, current)) e =
      let test = current.holder_id == id in
      elim (Bool-cases test) [
        | inl mine ↦
            let own = (eq_iff current.holder_id id).0 mine in
            rw mine (c, current, e, own, own, refl)
        | inr other ↦ rw other (
            if_ind (IsSound id) (ltb current.lease_expires_at now)
              (λ _. (c, current, e, refl, refl)) (λ _. tt))
      ]

  -- A write that landed on the cell `c` left `end` there, with `lock` in it, and an owner for its
  -- epoch, which grows by at most one and does not wrap.
  pub record HasLanded (owner : ℕ → String) (n : ℕ) (c end : Cell) (id : String) : Type 0 where
    pub lock : LeaderLock
    pub owner' : ℕ → String
    pub kept :
        (w : LeaderLock) → stored S c ≡ some w → (e : ℕ) → e ≤ w.leader_epoch → owner' e ≡ owner e
    pub now_stored : stored S end ≡ some lock
    pub owned : owner' lock.leader_epoch ≡ lock.holder_id
    pub mine : lock.holder_id ≡ id
    pub grows : (w : LeaderLock) → stored S c ≡ some w → w.leader_epoch ≤ lock.leader_epoch
    pub bounded : lock.leader_epoch ≤ suc n

  abbrev pub assign : (ℕ → String) → ℕ → String → ℕ → String
  assign owner e id n = if eqb e n then id else owner n

  module _ (owner : ℕ → String) (n : ℕ) (room : suc n < half_word) (c : Cell)
      (holder : (w : LeaderLock) → stored S c ≡ some w → owner w.leader_epoch ≡ w.holder_id)
      (counted : (w : LeaderLock) → stored S c ≡ some w → w.leader_epoch ≤ n) (id : String) where
    create-HasLanded :
        (l : LeaderLock)
        → IsSound id (create l)
        → (S.put_if_absent l c).1 ≡ true
        → HasLanded owner n c (S.put_if_absent l c).0 id
    unfolding IsSound
    create-HasLanded l (held, first) ok =
        let (free, (t, new)) = S.absent_written l c ok in
        let empty : stored S c ≡ none = ap contents free in
        record {
          lock = l;
          owner' = assign owner l.leader_epoch id;
          kept = λ v there. absurd (cc (empty, there));
          now_stored = ap contents new;
          owned = ground (arith, held);
          mine = held;
          grows = λ v there. absurd (cc (empty, there));
          bounded = omega (arith, first);
        }

    -- What a token that matches says of the lock that is there.
    matched :
        (token : Token) (l v : LeaderLock) (earlier : Cell)
        → get earlier ≡ some (token, v)
        → (S.put_if_match token l c).1 ≡ true
        → (stored S c ≡ some v) × (stored S (S.put_if_match token l c).0 ≡ some l)
    matched token l v earlier seen ok =
        let ((w, found), (t, new)) = S.match_written token l c ok in
        (
          ap contents found ∙ ap some (S.same_contents token w v c earlier found seen),
          ap contents new,
        )

    renew-HasLanded :
        (token : Token) (l : LeaderLock)
        → IsSound id (renew token l)
        → (S.put_if_match token l c).1 ≡ true
        → HasLanded owner n c (S.put_if_match token l c).0 id
    unfolding IsSound
    renew-HasLanded token l (earlier, v, seen, held, was, same) ok =
        let (there, new) = matched token l v earlier seen ok in
        let current =
          λ (w : LeaderLock) (e : stored S c ≡ some w). let q : v ≡ w = cc (there, e) in q in
        record {
          lock = l;
          owner' = owner;
          kept = λ w e k le. refl;
          now_stored = new;
          owned = cc (holder v there, held, was, ap owner same);
          mine = held;
          grows = λ w e. rw (← current w e) (omega (arith, same));
          bounded = omega (arith, same, counted v there);
        }

    take_over-HasLanded :
        (token : Token) (l : LeaderLock)
        → IsSound id (take_over token l)
        → (S.put_if_match token l c).1 ≡ true
        → HasLanded owner n c (S.put_if_match token l c).0 id
    unfolding IsSound
    take_over-HasLanded token l (earlier, v, seen, held, added) ok =
        let (there, new) = matched token l v earlier seen ok in
        let newer : l.leader_epoch ≡ v.leader_epoch + 1 =
          added ∙ add64_small v.leader_epoch 1 (omega (arith, counted v there, room)) in
        let current =
          λ (w : LeaderLock) (e : stored S c ≡ some w). let q : v ≡ w = cc (there, e) in q in
        record {
          lock = l;
          owner' = assign owner l.leader_epoch id;
          kept = λ w e k le.
              let q = current w e in
              let r : v.leader_epoch ≡ w.leader_epoch = ap (λ (k : LeaderLock). k.leader_epoch) q in
              ground (arith, r, newer, le);
          now_stored = new;
          owned = ground (arith, held);
          mine = held;
          grows = λ w e. rw (← current w e) (omega (arith, newer));
          bounded = omega (arith, newer, counted v there);
        }

    -- What an attempt does: it lands, or it leaves the cell alone, and then its controller does not lead.
    abbrev pub Effect : Decision Token → Cell × Bool → Type 0
    Effect d (end, ok) =
        ((h : HasLanded owner n c end id) × (ok ≡ true)
          × ((ctl : Controller)
              → conclude ctl d written ≡ forget_on_change ctl.leader (won ctl h.lock)))
        ⊎ ((end ≡ c) × ((ctl : Controller) → (conclude ctl d (outcome_of S ttl ok)).leader ≡ false))

    pub attempt-Effect : (d : Decision Token) → IsSound id d → Effect d (attempt S ttl d c)
    unfolding attempt conclude outcome_of create-HasLanded renew-HasLanded take_over-HasLanded
    attempt-Effect (create l) sound = elim (Bool-cases (S.put_if_absent l c).1) [
      | inl ok ↦ inl (create-HasLanded l sound ok, ok, λ ctl. refl)
      | inr no_room ↦ inr (S.absent_refused l c no_room, λ ctl. rw no_room (refused_loses ctl))
    ]
    attempt-Effect (renew token l) sound = elim (Bool-cases (S.put_if_match token l c).1) [
      | inl ok ↦ inl (renew-HasLanded token l sound ok, ok, λ ctl. refl)
      | inr other ↦
          inr (S.match_refused token l c other, λ ctl. rw other (renew_refused_loses ctl l))
    ]
    attempt-Effect (take_over token l) sound = elim (Bool-cases (S.put_if_match token l c).1) [
      | inl ok ↦ inl (take_over-HasLanded token l sound ok, ok, λ ctl. refl)
      | inr other ↦ inr (S.match_refused token l c other, λ ctl. rw other (refused_loses ctl))
    ]
    attempt-Effect yield_to_holder sound = inr (refl, refused_loses)
