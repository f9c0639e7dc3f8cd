-- ===== src/ControlPlane/Rendering/Placement.antt =====
-- publishPlacement of internal/controlplane/controller.go: the pointer to the placement is written last.
use firework.Base.{Bool, true, false, ◌≡◌, refl, not, Option, some, if_ind, inl, inr, ◌⊎◌, eq_refl}
use firework.ControlPlane.Rendering.{
  Key, placement_current, placement_at, same_key, PlacementRevision, Object, pointer, placement,
  Objects, set_key, put_object, Weather, publish_placement,
}
use firework.ControlPlane.Rendering.Steps.{Ends, and_then-Ends, put_object-Ends}

-- The placement that the pointer names is there; with no error the pointer names the new one, and else
-- it may still be the old pointer.
unfoldable pub Placed : PlacementRevision → Objects → Objects × Bool → Type 0
Placed rev before (after, true) =
    (after placement_current ≡ some (pointer rev.revision))
    × (after (placement_at rev.revision) ≡ some (placement rev))
Placed rev before (after, false) =
    (after placement_current ≡ before placement_current)
    ⊎ ((after placement_current ≡ some (pointer rev.revision))
        × (after (placement_at rev.revision) ≡ some (placement rev)))

module _ (rev : PlacementRevision) (before : Objects) where
  abbrev There : Objects → Type 0
  There objects = objects (placement_at rev.revision) ≡ some (placement rev)

  abbrev Unmoved : Objects → Type 0
  Unmoved objects = objects placement_current ≡ before placement_current

  abbrev Moved : Objects → Type 0
  Moved objects = (objects placement_current ≡ some (pointer rev.revision)) × There objects

  abbrev Either : Objects → Type 0
  Either objects = Unmoved objects ⊎ Moved objects

  Ends-Placed : (step : Objects × Bool) → Ends Moved Either step → Placed rev before step
  unfolding Ends Placed
  Ends-Placed (objects, true) h = h
  Ends-Placed (objects, false) h = h

  -- Whatever writes fail or are done with an error reported, the pointer to the placement is the old one, or it
  -- names the new placement and that is stored; with no error it is the latter.
  pub publish_placement-Placed :
      (weather : Weather) (still_leader : Bool)
      → Placed rev before (publish_placement weather still_leader rev before)
  unfolding publish_placement Placed same_key
  publish_placement-Placed weather still_leader =
      let k : Key = placement_at rev.revision in
      let o : Option Object = some (placement rev) in
      let p : Option Object = some (pointer rev.revision) in
      let there : There (set_key k o before) = rw (eq_refl rev.revision) refl in
      if_ind (Placed rev before) (not still_leader) (λ _. inl refl)
        (λ _. Ends-Placed _ (
          and_then-Ends (λ objects. Unmoved objects × There objects) Moved Either
            (put_object (weather.written k) k o before) _
            (put_object-Ends (λ objects. Unmoved objects × There objects) Either (weather.written k)
              k o before (refl, there) (inl refl) (inl refl))
            (λ objects (u, t).
              put_object-Ends Moved Either (weather.written placement_current) placement_current p
                objects (refl, t) (inr (refl, t)) (inl u))))
