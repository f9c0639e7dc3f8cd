-- ===== src/Agent/Fetch.antt =====
-- fetchAndMerge of internal/agent/agent.go, on what the store has for each label of the node:
-- `none` where the configuration cannot be fetched or parsed.
use firework.Base.{
  String, Bool, true, false, ◌≡◌, ◌≢◌, refl, ap, sym, ◌∙◌, Option, none, some, List, [], ◌∷◌, ◌==◌,
  if◌then◌else◌, arith, eq_iff, str_lt, map, All, inl, inr, ◌⊎◌, if_ind, subst, ◌||◌,
}
use mathlib.Core.Option.{some-injective}
use firework.Base.Dict.{Dict, insert}
use firework.Base.Sort.{sort_stable}
use firework.Config.{ServiceConfig, NodeConfig}
use firework.Agent.{revision_metadata_conflict, merge_revision_metadata, usable_revision_metadata}
pub mod Revisions

-- The variables of the loop.
pub record Merging : Type 0 where
  pub seen : Dict ServiceConfig
  pub fetched_any : Bool
  pub desired : String
  pub placement : String
  pub rendered : String

abbrev pub nothing_merged : Merging
nothing_merged = record {
  seen = [];
  fetched_any = false;
  desired = "";
  placement = "";
  rendered = "";
}

-- The last of two services with one name wins.
unfoldable pub see_services : List ServiceConfig → Dict ServiceConfig → Dict ServiceConfig
see_services [] seen = seen
see_services (svc ∷ services) seen = see_services services (insert svc.name svc seen)

unfoldable pub merge_config : Option NodeConfig → Merging → Merging
merge_config none m = m
merge_config (some nc) m = record {
  seen = see_services nc.services m.seen;
  fetched_any = true;
  desired = merge_revision_metadata m.desired nc.desired_revision;
  placement = merge_revision_metadata m.placement nc.placement_revision;
  rendered = merge_revision_metadata m.rendered nc.rendered_revision;
}

unfoldable pub merge_all : List (Option NodeConfig) → Merging → Merging
merge_all [] m = m
merge_all (c ∷ cs) m = merge_all cs (merge_config c m)

abbrev pub name_less : ServiceConfig → ServiceConfig → Bool
name_less a b = str_lt a.name b.name

abbrev pub merged_config : String → Merging → NodeConfig
merged_config node m = record {
  node = node;
  services = sort_stable name_less (map (λ (entry : String × ServiceConfig). entry.1) m.seen);
  host_ip = "";
  desired_revision = usable_revision_metadata m.desired;
  placement_revision = usable_revision_metadata m.placement;
  rendered_revision = usable_revision_metadata m.rendered;
}

unfoldable pub fetch_and_merge : String → List (Option NodeConfig) → Option NodeConfig
unfolding merge_all
fetch_and_merge node fetched =
    let m = merge_all fetched nothing_merged in
    if m.fetched_any then some (merged_config node m) else none
