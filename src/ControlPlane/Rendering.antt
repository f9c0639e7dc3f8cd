-- ===== src/ControlPlane/Rendering.antt =====
-- internal/controlplane/controller.go: publishPlacement and publishRendered. The keys of the objects are
-- data (state.go makes texts of them, which differ where the keys do). A write may be
-- done, refused, or done with an error reported; the YAML printer is a parameter.
use firework.Base.{
  ℕ, String, Bool, true, false, ◌&&◌, not, ◌==◌, if◌then◌else◌, Option, none, some, List, [], ◌∷◌,
}
use firework.Config.{NodeConfig}
pub mod Steps
pub mod Placement
pub mod Order
pub mod Samples

pub data Key : Type 0 where
  placement_current rendered_current : Key
  placement_at : String → Key
  rendered_at : String → String → Key
  legacy_node : String → Key
  other_key : String → Key

unfoldable pub same_key : Key → Key → Bool
same_key placement_current placement_current = true
same_key rendered_current rendered_current = true
same_key (placement_at r) (placement_at s) = r == s
same_key (rendered_at r n) (rendered_at s m) = (r == s) && (n == m)
same_key (legacy_node n) (legacy_node m) = n == m
same_key (other_key a) (other_key b) = a == b
same_key _ _ = false

pub record PendingPlacement : Type 0 where
  pub service : String
  pub reason_code : String
  pub message : String

pub record PlacementRevision : Type 0 where
  pub revision : String
  pub desired_revision : String
  pub leader_epoch : ℕ
  pub created_at : ℕ
  pub node_configs : List NodeConfig
  pub pending_services : List PendingPlacement

pub data Object : Type 0 where
  pointer : String → Object
  placement : PlacementRevision → Object
  content : String → Object

abbrev pub Objects : Type 0
Objects = Key → Option Object

abbrev pub set_key : Key → Option Object → Objects → Objects
set_key k o objects j = if same_key k j then o else objects j

-- What becomes of a write or of a deletion: done, refused, or done while an error is reported.
pub data Fate : Type 0 where
  stored failed unacknowledged : Fate

-- The objects after a write, and whether it reported no error.
unfoldable pub put_object : Fate → Key → Option Object → Objects → Objects × Bool
put_object stored k o objects = (set_key k o objects, true)
put_object failed k o objects = (objects, false)
put_object unacknowledged k o objects = (set_key k o objects, false)

-- The fates of the writes under each key and of the deletions, and what ListKeys answers.
pub record Weather : Type 0 where
  pub written : Key → Fate
  pub deleted : Key → Fate
  pub listed : Option (List Key)

-- The next step, unless one has failed.
abbrev pub and_then : Objects × Bool → (Objects → Objects × Bool) → Objects × Bool
and_then (objects, true) next = next objects
and_then (objects, false) next = (objects, false)

-- The rounds of upsertPointer, on the pointer, end as one write does: done, failed or given up, or
-- landed without an answer. What other controllers write meanwhile is left out.
unfoldable pub publish_placement : Weather → Bool → PlacementRevision → Objects → Objects × Bool
unfolding put_object
publish_placement weather still_leader rev objects =
    if not still_leader
    then (objects, false)
    else and_then
        (put_object (weather.written (placement_at rev.revision)) (placement_at rev.revision)
          (some (placement rev)) objects)
        (put_object (weather.written placement_current) placement_current
          (some (pointer rev.revision)))

-- Whether a legacy key is one of those just written.
unfoldable pub is_kept : List NodeConfig → String → Bool
is_kept [] node = false
is_kept (nc ∷ ncs) node = let rest = is_kept ncs node in if nc.node == node then true else rest

-- The removal of the legacy configurations of other nodes.
unfoldable pub clean_legacy : Weather → List NodeConfig → List Key → Objects → Objects × Bool
unfolding put_object
clean_legacy weather ncs [] objects = (objects, true)
clean_legacy weather ncs (legacy_node node ∷ keys) objects =
    if is_kept ncs node
    then clean_legacy weather ncs keys objects
    else and_then (put_object (weather.deleted (legacy_node node)) (legacy_node node) none objects)
        (clean_legacy weather ncs keys)
clean_legacy weather ncs (_ ∷ keys) objects = clean_legacy weather ncs keys objects

abbrev pub clean_listed : Weather → List NodeConfig → Option (List Key) → Objects → Objects × Bool
clean_listed weather ncs none objects = (objects, false)
clean_listed weather ncs (some keys) objects = clean_legacy weather ncs keys objects

module _ (marshal : NodeConfig → Option String) where
  -- A configuration under its revision, then under its legacy key.
  abbrev pub write_content : Weather → String → String → Option String → Objects → Objects × Bool
  write_content weather rev node none objects = (objects, false)
  write_content weather rev node (some text) objects =
      and_then
        (put_object (weather.written (rendered_at rev node)) (rendered_at rev node)
          (some (content text)) objects)
        (put_object (weather.written (legacy_node node)) (legacy_node node) (some (content text)))

  unfoldable pub write_configs : Weather → String → List NodeConfig → Objects → Objects × Bool
  unfolding put_object
  write_configs weather rev [] objects = (objects, true)
  write_configs weather rev (nc ∷ ncs) objects =
      and_then (write_content weather rev nc.node (marshal nc) objects)
        (write_configs weather rev ncs)

  unfoldable pub publish_rendered :
      Weather → Bool → String → List NodeConfig → Objects → Objects × Bool
  unfolding write_configs clean_legacy
  publish_rendered weather still_leader rev ncs objects =
      if not still_leader
      then (objects, false)
      else and_then (write_configs weather rev ncs objects) (λ written.
        and_then (clean_listed weather ncs weather.listed written)
          (put_object (weather.written rendered_current) rendered_current (some (pointer rev))))
