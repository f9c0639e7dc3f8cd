-- ===== src/ControlPlane/Upsert/Atomic.antt =====
-- However others interfere, an upsert is one atomic update of what is stored when it writes, or it
-- leaves no trace.
use firework.Base.{
  ℕ, zero, suc, ◌≡◌, refl, ap, true, false, Option, none, some, or_else, ◌⊎◌, inl, inr, Bool-cases,
  if_ind,
}
use firework.ControlPlane.StateStore.{CellStore, contents, stored}
use firework.ControlPlane.Upsert.{
  Mutation, keep, refuse, Upserted, done, failed, store_error, too_many, Round, write, finish_round,
  react, upsert_from, upsert,
}

module _ {V : Type 0} (S : CellStore V) where
  open S use {Cell, get}

  -- A write that succeeds found what was read, and stored the new value.
  write_atomic :
      (c d : Cell) (v : V) (read : Option (S.Token × V))
      → get c ≡ read
      → (write S read v d).1 ≡ true
      → (stored S d ≡ contents read) × (stored S (write S read v d).0 ≡ some v)
  unfolding write
  write_atomic c d v none e ok =
      let (free, (t, now)) = S.absent_written v d ok in rw (free, now) (refl, refl)
  write_atomic c d v (some (t, w)) e ok =
      let ((w', found), (t', now)) = S.match_written t v d ok in
      rw (found, now) (ap some (S.same_contents t w' w d c found e), refl)

  write_quiet :
      (read : Option (S.Token × V)) (d : Cell) (v : V)
      → (write S read v d).1 ≡ false
      → (write S read v d).0 ≡ d
  unfolding write
  write_quiet none d v refused = S.absent_refused v d refused
  write_quiet (some (t, w)) d v refused = S.match_refused t v d refused

  module _ (rounds : ℕ → Round S) where
    -- What the writes of others alone make of the cell.
    pub data Others (c : Cell) : Cell → Type 0 where
      untouched : Others c c
      before : {d : Cell} (i : ℕ) → Others c d → Others c ((rounds i).before d)
      between : {d : Cell} (i : ℕ) → Others c d → Others c ((rounds i).between d)

    module _ {E : Type 0} (fresh : V) (mutator : ℕ → V → Mutation E V) where
      -- The cell `end` is one that others left, `at`, with one mutation of what stood there.
      pub record IsApplied (c end : Cell) (v : V) : Type 0 where
        pub at : Cell
        pub reached : Others c at
        pub now : ℕ
        pub applied : mutator now (or_else (stored S at) fresh) ≡ keep v
        pub written : stored S end ≡ some v

      -- The cell `end` is one that others left, and the mutator refuses what stands there.
      pub record IsRefused (c end : Cell) (e : E) : Type 0 where
        pub reached : Others c end
        pub now : ℕ
        pub refused : mutator now (or_else (stored S end) fresh) ≡ refuse e

      -- What each outcome says of the cell.
      abbrev pub Explains : Cell → Cell × Upserted E V → Type 0
      Explains c (end, done v) = IsApplied c end v
      Explains c (end, failed e) = IsRefused c end e
      Explains c (end, store_error) = Others c end ⊎ ((v : V) × IsApplied c end v)
      Explains c (end, too_many) = Others c end

      finish_round-Explains :
          (c c' d : Cell) (i : ℕ) (v : V) (again : Cell → Cell × Upserted E V)
          → Others c d
          → mutator (rounds i).now (or_else (contents (get c')) fresh) ≡ keep v
          → ((e : Cell) → Others c e → Explains c (again e))
          → Explains c (finish_round S fresh mutator (rounds i) (get c') v d again)
      unfolding finish_round
      finish_round-Explains c c' d i v again others kept next =
          let applied : (write S (get c') v d).1 ≡ true → IsApplied c (write S (get c') v d).0 v =
            λ ok.
              let (same, new) = write_atomic c' d v (get c') refl ok in
              record {
                at = d;
                reached = others;
                now = (rounds i).now;
                applied = rw same kept;
                written = new;
              } in
          let quiet : (write S (get c') v d).1 ≡ false → Others c (write S (get c') v d).0 =
            λ refused. rw (write_quiet (get c') d v refused) others in
          if_ind (Explains c) (rounds i).put_fails
            (λ _.
              if_ind (λ e. Explains c (e, store_error)) (rounds i).put_lands
                (λ _. elim (Bool-cases (write S (get c') v d).1) [
                  | inl ok ↦ inr (v, applied ok)
                  | inr refused ↦ inl (quiet refused)
                ])
                (λ _. inl others))
            (λ _.
              if_ind (Explains c) (write S (get c') v d).1 applied
                (λ refused. next _ (quiet refused)))

      react-Explains :
          (c d : Cell) (i : ℕ) (again : Cell → Cell × Upserted E V) (m : Mutation E V)
          → mutator (rounds i).now (or_else (stored S d) fresh) ≡ m
          → Others c d
          → ((e : Cell) → Others c e → Explains c (again e))
          → Explains c (react S fresh mutator (rounds i) d again m)
      unfolding react
      react-Explains c d i again (refuse e) eq others next = record {
        reached = others;
        now = (rounds i).now;
        refused = eq;
      }
      react-Explains c d i again (keep v) eq others next =
          finish_round-Explains c d ((rounds i).between d) i v again (Others.between i others) eq
            next

      upsert_from-Explains :
          (left i : ℕ) (c d : Cell)
          → Others c d
          → Explains c (upsert_from S fresh mutator left rounds i d)
      unfolding upsert_from
      upsert_from-Explains zero i c d others = others
      upsert_from-Explains (suc left) i c d others =
          let read = Others.before i others in
          let rest = λ (e : Cell) (o : Others c e). upsert_from-Explains left (suc i) c e o in
          if_ind (Explains c) (rounds i).get_fails (λ _. inl read)
            (λ _. react-Explains c ((rounds i).before d) i _ _ refl read rest)

      -- An upsert that reports a value has applied its mutator once, to what was stored at the moment
      -- of its write, and stored the result; one that was refused, or gave up after six rounds, has
      -- written nothing, and what stands there is the work of others; one that met a store error has
      -- done one of the two.
      pub upsert-Explains : (c : Cell) → Explains c (upsert S fresh mutator rounds c)
      unfolding upsert
      upsert-Explains c = upsert_from-Explains 6 0 c c Others.untouched
