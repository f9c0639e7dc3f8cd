-- ===== src/Agent/Fetch/Revisions.antt =====
-- fetchAndMerge of internal/agent/agent.go: what the merged configuration says of its revisions.
use firework.Base.{
  String, Bool, true, false, ◌≡◌, ◌≢◌, refl, sym, Option, none, some, List, [], ◌∷◌, ◌==◌,
  if◌then◌else◌, arith, eq_iff, All, inl, inr, ◌⊎◌, if_ind, subst, ◌||◌,
}
use mathlib.Core.Option.{some-injective, some-ne-none}
use firework.Config.{NodeConfig}
use firework.Agent.{revision_metadata_conflict, merge_revision_metadata, usable_revision_metadata}
use firework.Agent.Fetch.{
  Merging, nothing_merged, merge_config, merge_all, merged_config, fetch_and_merge,
}

-- A text is empty, or it is this revision.
abbrev pub IsSilentOr : String → String → Type 0
IsSilentOr r s = (s ≡ "") ⊎ (s ≡ r)

abbrev pub IsSilentOrIn : (NodeConfig → String) → String → Option NodeConfig → Type 0
IsSilentOrIn read r none = Unit
IsSilentOrIn read r (some nc) = IsSilentOr r (read nc)

-- The revision is not known, or all configurations that name one name it.
abbrev pub IsAgreed : (NodeConfig → String) → List (Option NodeConfig) → String → Type 0
IsAgreed read fetched r = (r ≡ "") ⊎ All (IsSilentOrIn read r) fetched

either : (a b : Bool) → (a || b) ≡ true → (a ≡ true) ⊎ (b ≡ true)
either true b e = inl refl
either false b e = inr e

apart : (r : String) → (r == revision_metadata_conflict) ≡ false → r ≢ revision_metadata_conflict
apart r e p = ground (arith, e, (eq_iff r revision_metadata_conflict).1 p)

module _ (r : String) (n : r ≢ revision_metadata_conflict) where
  no_conflict : IsSilentOr r revision_metadata_conflict → ⊥
  no_conflict (inl p) = ground (arith, (eq_iff revision_metadata_conflict "").1 p)
  no_conflict (inr p) = n (sym p)

  follow :
      (current next : String)
      → IsSilentOr r current
      → ((next == "") ≡ true) ⊎ ((current == next) ≡ true)
      → IsSilentOr r next
  follow current next h (inl e) = inl ((eq_iff next "").0 e)
  follow current next h (inr e) = subst (IsSilentOr r) ((eq_iff current next).0 e) h

  merge_revision_metadata-silent :
      (current next : String)
      → IsSilentOr r (merge_revision_metadata current next)
      → IsSilentOr r current × IsSilentOr r next
  unfolding merge_revision_metadata
  merge_revision_metadata-silent current next =
      let Q = λ (s : String). IsSilentOr r s → IsSilentOr r current × IsSilentOr r next in
      if_ind Q (current == revision_metadata_conflict)
        (λ e h.
          absurd (
            no_conflict (subst (IsSilentOr r) ((eq_iff current revision_metadata_conflict).0 e) h)))
        (λ _.
          if_ind Q (current == "") (λ e h. (inl ((eq_iff current "").0 e), h))
            (λ _.
              if_ind Q ((next == "") || (current == next))
                (λ e h. (h, follow current next h (either (next == "") (current == next) e)))
                (λ _ h. absurd (no_conflict h))))

  module _ (read : NodeConfig → String) (kept : Merging → String)
      (merged : (nc : NodeConfig) (m : Merging)
        → kept (merge_config (some nc) m) ≡ merge_revision_metadata (kept m) (read nc))
      (skipped : (m : Merging) → kept (merge_config none m) ≡ kept m) where
    merge_all-silent :
        (fetched : List (Option NodeConfig)) (m : Merging)
        → IsSilentOr r (kept (merge_all fetched m))
        → IsSilentOr r (kept m) × All (IsSilentOrIn read r) fetched
    unfolding merge_all
    merge_all-silent [] m h = (h, tt)
    merge_all-silent (none ∷ fetched) m h =
        let (a, b) = merge_all-silent fetched (merge_config none m) h in
        (subst (IsSilentOr r) (skipped m) a, (tt, b))
    merge_all-silent (some nc ∷ fetched) m h =
        let (a, b) = merge_all-silent fetched (merge_config (some nc) m) h in
        let (c, d) =
          merge_revision_metadata-silent (kept m) (read nc)
            (subst (IsSilentOr r) (merged nc m) a) in
        (c, (d, b))

module _ (read : NodeConfig → String) (kept : Merging → String)
    (merged : (nc : NodeConfig) (m : Merging)
      → kept (merge_config (some nc) m) ≡ merge_revision_metadata (kept m) (read nc))
    (skipped : (m : Merging) → kept (merge_config none m) ≡ kept m) where
  usable-IsAgreed :
      (fetched : List (Option NodeConfig)) (m : Merging)
      → IsAgreed read fetched (usable_revision_metadata (kept (merge_all fetched m)))
  usable-IsAgreed fetched m =
      let r = kept (merge_all fetched m) in
      if_ind (IsAgreed read fetched) (r == revision_metadata_conflict) (λ _. inl refl)
        (λ e.
          inr ((merge_all-silent r (apart r e) read kept merged skipped fetched m (inr refl)).1))

abbrev pub IsAllAgreed : List (Option NodeConfig) → NodeConfig → Type 0
IsAllAgreed fetched nc =
    IsAgreed (λ c. c.desired_revision) fetched nc.desired_revision
    × IsAgreed (λ c. c.placement_revision) fetched nc.placement_revision
    × IsAgreed (λ c. c.rendered_revision) fetched nc.rendered_revision

merged_config-IsAllAgreed :
    (node : String) (fetched : List (Option NodeConfig))
    → IsAllAgreed fetched (merged_config node (merge_all fetched nothing_merged))
unfolding merge_config
merged_config-IsAllAgreed node fetched = (
  usable-IsAgreed (λ c. c.desired_revision) (λ k. k.desired) (λ _ _. refl) (λ _. refl) fetched
      nothing_merged,
  usable-IsAgreed (λ c. c.placement_revision) (λ k. k.placement) (λ _ _. refl) (λ _. refl) fetched
      nothing_merged,
  usable-IsAgreed (λ c. c.rendered_revision) (λ k. k.rendered) (λ _ _. refl) (λ _. refl) fetched
      nothing_merged,
)

fetched_config :
    (node : String) (m : Merging) (nc : NodeConfig)
    → (if m.fetched_any then some (merged_config node m) else none) ≡ some nc
    → nc ≡ merged_config node m
fetched_config node m nc =
    if_ind (λ c. c ≡ some nc → nc ≡ merged_config node m) m.fetched_any
      (λ _ e. sym (some-injective (merged_config node m) nc e))
      (λ _ e. absurd (some-ne-none nc (sym e)))

-- The revisions of the configuration that `fetch_and_merge` makes of those fetched: each of the three is unknown or is that of every
-- configuration that names one. The hypothesis is that one was fetched.
pub fetch_and_merge-IsAgreed :
    (node : String) (fetched : List (Option NodeConfig)) (nc : NodeConfig)
    → fetch_and_merge node fetched ≡ some nc
    → IsAllAgreed fetched nc
unfolding fetch_and_merge
fetch_and_merge-IsAgreed node fetched nc e =
    subst (IsAllAgreed fetched) (sym (fetched_config node (merge_all fetched nothing_merged) nc e))
      (merged_config-IsAllAgreed node fetched)
