-- ===== src/Traefik/Files/Outcome.antt =====
-- Manager.apply of internal/traefik/traefik.go: what stands under each name, whatever calls fail.
use firework.Base.{
  String, Bool, true, false, ◌≡◌, refl, ap, ◌∙◌, ◌||◌, ◌&&◌, not, ◌==◌, if◌then◌else◌, Option, none,
  some, List, [], ◌∷◌, is_some, str_lt, arith, if_ind, Bool-cases, Option-cases, inl, inr, ◌⊎◌,
  eq_iff, subst,
}
use text.Mathlib.Text.{starts_with}
use firework.Base.Decimal.{has_suffix}
use firework.Base.Dict.{Dict, lookup, remove, lookup-insert, lookup-remove}
use firework.Base.Sort.{sort_stable, insert_sorted}
use firework.Traefik.Files.{
  Faults, keys, stage, put, rename_all, is_stale, remove_stale, clean, apply_files,
}

unfoldable is_member : String → List String → Bool
is_member n [] = false
is_member n (k ∷ ks) = (k == n) || is_member n ks

is_member-insert_sorted :
    (less : String → String → Bool) (n x : String) (ys : List String)
    → is_member n (insert_sorted less x ys) ≡ (x == n) || is_member n ys
unfolding is_member insert_sorted
is_member-insert_sorted less n x [] = refl
is_member-insert_sorted less n x (y ∷ ys) = ground (arith, is_member-insert_sorted less n x ys)

is_member-sort_stable :
    (less : String → String → Bool) (n : String) (xs : List String)
    → is_member n (sort_stable less xs) ≡ is_member n xs
unfolding is_member sort_stable
is_member-sort_stable less n [] = refl
is_member-sort_stable less n (x ∷ xs) =
    is_member-insert_sorted less n x (sort_stable less xs)
    ∙ ap (λ b. (x == n) || b) (is_member-sort_stable less n xs)

is_member-keys :
    {C : Type 0} (n : String) (m : Dict C) → is_member n (keys m) ≡ is_some (lookup n m)
unfolding is_member lookup
is_member-keys n [] = refl
is_member-keys n ((k, v) ∷ m) = ground (arith, is_member-keys n m)

-- What stands under a name: the last of these where there was no error, else one of them.
unfoldable pub Leaves : {C : Type 0} → String → Option C → Option C → Dict C × Bool → Type 0
Leaves n before final (files, true) = lookup n files ≡ final
Leaves n before final (files, false) = (lookup n files ≡ before) ⊎ (lookup n files ≡ final)

module _ {C : Type 0} (desired files : Dict C) (preserve_remotes : Bool) (n : String) where
  -- What stands under the name once every file is renamed.
  abbrev renamed : Option C
  renamed = if is_some (lookup n desired) then lookup n desired else lookup n files

  -- What apply is to leave: the new file if there is one, nothing if the old one is stale.
  abbrev aim : Option C
  aim = if is_stale desired preserve_remotes n then none else renamed

  put-lookup :
      (name : String) (o : Option C) (fs : Dict C)
      → lookup n (put name o fs) ≡ (if (name == n) && is_some o then o else lookup n fs)
  put-lookup name none fs =
      if_ind (λ o. lookup n fs ≡ o) ((name == n) && false) (λ e. absurd (ground (arith, e)))
        (λ _. refl)
  put-lookup name (some c) fs = lookup-insert name n c fs ∙ ground arith

  put-found :
      (name : String) (fs : Dict C)
      → lookup n (put name (lookup name desired) fs)
        ≡ (if (name == n) && is_some (lookup n desired) then lookup n desired else lookup n fs)
  put-found name fs = put-lookup name (lookup name desired) fs ∙ elim (Bool-cases (name == n)) [
    | inl e ↦
        ap
          (λ (k : String).
            if (name == n) && is_some (lookup k desired) then lookup k desired else lookup n fs)
          ((eq_iff name n).0 e)
    | inr e ↦ rw e refl
  ]

  -- The state of the renaming: what stands is the outcome, or is unchanged and its turn is to come.
  abbrev Pending : List String → Dict C → Type 0
  Pending names fs =
      (lookup n fs ≡ renamed) ⊎ ((lookup n fs ≡ lookup n files) × (is_member n names ≡ true))

  put-Pending :
      (name : String) (names : List String) (fs : Dict C)
      → Pending (name ∷ names) fs
      → Pending names (put name (lookup name desired) fs)
  unfolding is_member
  put-Pending name names fs (inl e) = inl (put-found name fs ∙ rw e (ground arith))
  put-Pending name names fs (inr (e, m)) = elim (Bool-cases (name == n)) [
    | inl t ↦ inl (put-found name fs ∙ rw (t, e) refl)
    | inr t ↦ inr (put-found name fs ∙ rw (t, e) refl, ground (arith, m, t))
  ]

  rename_all-Leaves :
      (fails : String → Bool) (names : List String) (fs : Dict C)
      → Pending names fs
      → Leaves n (lookup n files) renamed (rename_all fails desired names fs)
  unfolding rename_all Leaves is_member
  rename_all-Leaves fails [] fs (inl e) = e
  rename_all-Leaves fails [] fs (inr (e, m)) = absurd (ground (arith, m))
  rename_all-Leaves fails (name ∷ names) fs h =
      if_ind (Leaves n (lookup n files) renamed) (fails name)
        (λ _. elim h [ inl e ↦ inr e | inr (e, _) ↦ inl e ])
        (λ _.
          rename_all-Leaves fails names (put name (lookup name desired) fs)
            (put-Pending name names fs h))

  -- The removal: what stands is the outcome, or is what the renaming left and its turn is to come.
  abbrev Doomed : List String → Dict C → Type 0
  Doomed names fs = (lookup n fs ≡ aim) ⊎ ((lookup n fs ≡ renamed) × (is_member n names ≡ true))

  renamed_or_target : (renamed ≡ lookup n files) ⊎ (renamed ≡ aim)
  unfolding is_stale
  renamed_or_target = elim (Bool-cases (is_some (lookup n desired))) [
    | inl e ↦
        let fresh : is_stale desired preserve_remotes n ≡ false = ground (arith, e) in
        inr (rw fresh refl)
    | inr e ↦ inl (rw e refl)
  ]

  lands :
      (fs : Dict C) → lookup n fs ≡ renamed → (lookup n fs ≡ lookup n files) ⊎ (lookup n fs ≡ aim)
  lands fs e = elim renamed_or_target [ inl a ↦ inl (e ∙ a) | inr a ↦ inr (e ∙ a) ]

  remove-Doomed :
      (name : String) (names : List String) (fs : Dict C)
      → is_stale desired preserve_remotes name ≡ true
      → Doomed (name ∷ names) fs
      → Doomed names (remove name fs)
  unfolding is_member
  remove-Doomed name names fs stale h =
      let left = lookup-remove name n fs in
      elim (Bool-cases (name == n)) [
        | inl t ↦
            let gone : is_stale desired preserve_remotes n ≡ true =
              rw ((eq_iff name n).0 t) at stale in
            inl (left ∙ rw (t, gone) refl)
        | inr t ↦ elim h [
          | inl e ↦ inl (left ∙ rw t e)
          | inr (e, m) ↦ inr (left ∙ rw t e, ground (arith, m, t))
        ]
      ]

  skip-Doomed :
      (name : String) (names : List String) (fs : Dict C)
      → is_stale desired preserve_remotes name ≡ false
      → Doomed (name ∷ names) fs
      → Doomed names fs
  unfolding is_member
  skip-Doomed name names fs fresh (inl e) = inl e
  skip-Doomed name names fs fresh (inr (e, m)) = elim (Bool-cases (name == n)) [
    | inl t ↦
        let kept : is_stale desired preserve_remotes n ≡ false =
          rw ((eq_iff name n).0 t) at fresh in
        inl (e ∙ rw kept refl)
    | inr t ↦ inr (e, ground (arith, m, t))
  ]

  remove_stale-Leaves :
      (fails : String → Bool) (names : List String) (fs : Dict C)
      → Doomed names fs
      → Leaves n (lookup n files) aim (remove_stale fails desired preserve_remotes names fs)
  unfolding remove_stale Leaves is_member
  remove_stale-Leaves fails [] fs (inl e) = e
  remove_stale-Leaves fails [] fs (inr (e, m)) = absurd (ground (arith, m))
  remove_stale-Leaves fails (name ∷ names) fs h =
      if_ind (Leaves n (lookup n files) aim) (not (is_stale desired preserve_remotes name))
        (λ e. remove_stale-Leaves fails names fs (skip-Doomed name names fs (ground (arith, e)) h))
        (λ e.
          if_ind (Leaves n (lookup n files) aim) (fails name)
            (λ _. elim h [ inl a ↦ inr a | inr (a, _) ↦ lands fs a ])
            (λ _.
              remove_stale-Leaves fails names (remove name fs)
                (remove-Doomed name names fs (ground (arith, e)) h)))

  all-Doomed : (fs : Dict C) → lookup n fs ≡ renamed → Doomed (keys fs) fs
  all-Doomed fs h = elim (Option-cases (lookup n fs)) [
    | inl e ↦ elim (Bool-cases (is_stale desired preserve_remotes n)) [
      | inl t ↦ inl (e ∙ rw t refl)
      | inr t ↦ inl (h ∙ rw t refl)
    ]
    | inr (c, e) ↦ inr (h, is_member-keys n fs ∙ rw e refl)
  ]

  all-Pending : Pending (sort_stable str_lt (keys desired)) files
  all-Pending = elim (Bool-cases (is_some (lookup n desired))) [
    | inl e ↦
        inr (refl, is_member-sort_stable str_lt n (keys desired) ∙ is_member-keys n desired ∙ e)
    | inr e ↦ inl (rw e refl)
  ]

  clean-Leaves :
      (faults : Faults) (left : Dict C × Bool)
      → Leaves n (lookup n files) renamed left
      → Leaves n (lookup n files) aim (clean faults desired preserve_remotes left)
  unfolding Leaves
  clean-Leaves faults (fs, true) h =
      if_ind (Leaves n (lookup n files) aim) faults.read_fails (λ _. lands fs h)
        (λ _. remove_stale-Leaves faults.remove_fails (keys fs) fs (all-Doomed fs h))
  clean-Leaves faults (fs, false) h = elim h [ inl a ↦ inl a | inr a ↦ lands fs a ]

  -- The same on the test of the code, is_stale.
  apply_files-aim :
      (faults : Faults)
      → Leaves n (lookup n files) aim (apply_files faults desired preserve_remotes files)
  unfolding apply_files Leaves
  apply_files-aim faults =
      let names : List String = sort_stable str_lt (keys desired) in
      if_ind (Leaves n (lookup n files) aim) faults.mkdir_fails (λ _. inl refl)
        (λ _.
          if_ind (Leaves n (lookup n files) aim) faults.stage_dir_fails (λ _. inl refl)
            (λ _.
              if_ind (Leaves n (lookup n files) aim) (not (stage faults.write_fails names))
                (λ _. inl refl)
                (λ _.
                  clean-Leaves faults (rename_all faults.rename_fails desired names files)
                    (rename_all-Leaves faults.rename_fails names files all-Pending))))

  -- The last part of apply, told by the names: a file ".yaml" that is not rendered goes, unless it is
  -- a "remote-" file and those are to be kept.
  abbrev pub is_outdated : Bool
  is_outdated =
      has_suffix n ".yaml"
      && not (is_some (lookup n desired))
      && not (preserve_remotes && starts_with n "remote-")

  abbrev pub target : Option C
  target = if is_outdated then none else renamed

  aim-target : aim ≡ target
  unfolding is_stale
  aim-target = refl

  -- Whatever calls fail, under each name stands what stood there before or what is to stand there: the
  -- rendered file if there is one; nothing if there is none and the name ends with ".yaml", except
  -- where it starts with "remote-" and such files are preserved; and else what was there. With no error it is the latter.
  pub apply_files-Leaves :
      (faults : Faults)
      → Leaves n (lookup n files) target (apply_files faults desired preserve_remotes files)
  apply_files-Leaves faults =
      subst (λ o. Leaves n (lookup n files) o (apply_files faults desired preserve_remotes files))
        aim-target (apply_files-aim faults)
