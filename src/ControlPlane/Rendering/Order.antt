-- ===== src/ControlPlane/Rendering/Order.antt =====
-- internal/controlplane/controller.go: the pointer to the rendered configurations is written last, so what it names is there.
use firework.Base.{
  String, Bool, true, false, ◌≡◌, refl, ◌∙◌, not, ◌==◌, Option, none, some, List, [], ◌∷◌, arith,
  if_ind, All, All-map, All-zip, All-of, eq_sym, inl, inr, ◌⊎◌, eq_refl,
}
use firework.Base.Sort.{Pairwise}
use firework.Config.{NodeConfig}
use firework.ControlPlane.Rendering.{
  Key, placement_current, rendered_current, placement_at, rendered_at, legacy_node, other_key,
  same_key, Object, pointer, content, Objects, set_key, Fate, put_object, Weather, is_kept,
  clean_legacy, clean_listed, write_content, write_configs, publish_rendered,
}
use firework.ControlPlane.Rendering.Steps.{
  Ends, and_then-Ends, put_object-Ends, Ends-map, set_key-other,
}

-- Each configuration is stored as it was printed.
abbrev pub InPlace : (NodeConfig → Option String) → String → Objects → NodeConfig → Type 0
InPlace marshal rev objects nc =
    (text : String) × (marshal nc ≡ some text)
    × (objects (rendered_at rev nc.node) ≡ some (content text))

unfoldable pub Rendered :
    (NodeConfig → Option String) → String → List NodeConfig → Objects → Objects × Bool → Type 0
Rendered marshal rev ncs before (after, true) =
    (after rendered_current ≡ some (pointer rev)) × All (InPlace marshal rev after) ncs
Rendered marshal rev ncs before (after, false) =
    (after rendered_current ≡ before rendered_current)
    ⊎ ((after rendered_current ≡ some (pointer rev)) × All (InPlace marshal rev after) ncs)

abbrev pub NodesDiffer : NodeConfig → NodeConfig → Type 0
NodesDiffer a b = (a.node == b.node) ≡ false

module _ (marshal : NodeConfig → Option String) (weather : Weather) (rev : String)
    (before : Objects) where
  -- The pointer has not moved.
  abbrev Unmoved : Objects → Type 0
  Unmoved objects = objects rendered_current ≡ before rendered_current

  abbrev Written : List NodeConfig → Objects → Type 0
  Written done objects = Unmoved objects × All (InPlace marshal rev objects) done

  InPlace-set :
      (k : Key) (o : Option Object) (objects : Objects) (nc : NodeConfig)
      → same_key k (rendered_at rev nc.node) ≡ false
      → InPlace marshal rev objects nc
      → InPlace marshal rev (set_key k o objects) nc
  InPlace-set k o objects nc h (text, printed, there) =
      (text, printed, set_key-other k (rendered_at rev nc.node) o objects h ∙ there)

  Written-set :
      (k : Key) (o : Option Object) (objects : Objects) (done : List NodeConfig)
      → same_key k rendered_current ≡ false
      → All (λ nc. same_key k (rendered_at rev nc.node) ≡ false) done
      → Written done objects
      → Written done (set_key k o objects)
  Written-set k o objects done c f (u, h) = (
    set_key-other k rendered_current o objects c ∙ u,
    All-zip _ _ _ done (λ nc d p. InPlace-set k o objects nc d p) f h,
  )

  -- A legacy copy is under a key of its own.
  legacy-Ends :
      (fate : Fate) (node : String) (o : Option Object) (done : List NodeConfig) (objects : Objects)
      → Written done objects
      → Ends (Written done) Unmoved (put_object fate (legacy_node node) o objects)
  unfolding same_key
  legacy-Ends fate node o done objects w =
      let k : Key = legacy_node node in
      put_object-Ends (Written done) Unmoved fate k o objects
        (Written-set k o objects done refl (All-of _ done (λ nc. refl)) w)
        (set_key-other k rendered_current o objects refl ∙ w.0) w.0

  other_node :
      (nc d : NodeConfig)
      → NodesDiffer d nc
      → same_key (rendered_at rev nc.node) (rendered_at rev d.node) ≡ false
  unfolding same_key
  other_node nc d h = ground (arith, eq_sym nc.node d.node, h)

  write_content-Ends :
      (nc : NodeConfig) (done : List NodeConfig) (text : Option String) (objects : Objects)
      → marshal nc ≡ text
      → All (λ d. NodesDiffer d nc) done
      → Written done objects
      → Ends (Written (nc ∷ done)) Unmoved (write_content marshal weather rev nc.node text objects)
  unfolding Ends same_key
  write_content-Ends nc done none objects e apart (u, h) = u
  write_content-Ends nc done (some text) objects e apart (u, h) =
      let k : Key = rendered_at rev nc.node in
      let o : Option Object = some (content text) in
      let here : set_key k o objects k ≡ o = rw (eq_refl rev, eq_refl nc.node) refl in
      let kept : Written done (set_key k o objects) =
        Written-set k o objects done refl (All-map _ _ done (λ d a. other_node nc d a) apart)
          (u, h) in
      and_then-Ends (Written (nc ∷ done)) (Written (nc ∷ done)) Unmoved
        (put_object (weather.written k) k o objects)
        (put_object (weather.written (legacy_node nc.node)) (legacy_node nc.node) o)
        (put_object-Ends (Written (nc ∷ done)) Unmoved (weather.written k) k o objects
          (kept.0, ((text, e, here), kept.1)) kept.0 u)
        (λ objects' w.
          legacy-Ends (weather.written (legacy_node nc.node)) nc.node o (nc ∷ done) objects' w)

  write_configs-Ends :
      (ncs done : List NodeConfig) (objects : Objects)
      → Pairwise NodesDiffer ncs
      → All (λ nc. All (λ d. NodesDiffer d nc) done) ncs
      → Written done objects
      → Ends
          (λ o. Written done o × All (InPlace marshal rev o) ncs)
          Unmoved
          (write_configs marshal weather rev ncs objects)
  unfolding write_configs Ends
  write_configs-Ends [] done objects apart f w = (w, tt)
  write_configs-Ends (nc ∷ ncs) done objects (first, apart) (f, fs) w =
      and_then-Ends (Written (nc ∷ done))
        (λ o. Written done o × All (InPlace marshal rev o) (nc ∷ ncs)) Unmoved
        (write_content marshal weather rev nc.node (marshal nc) objects)
        (write_configs marshal weather rev ncs)
        (write_content-Ends nc done (marshal nc) objects refl f w)
        (λ objects' w'.
          Ends-map (λ o. Written (nc ∷ done) o × All (InPlace marshal rev o) ncs)
            (λ o. Written done o × All (InPlace marshal rev o) (nc ∷ ncs)) Unmoved
            (write_configs marshal weather rev ncs objects')
            (λ o ((u, (here, old)), rest). ((u, old), (here, rest)))
            (write_configs-Ends ncs (nc ∷ done) objects' apart
              (All-zip _ _ _ ncs (λ m a b. (a, b)) first fs) w'))

  clean_legacy-Ends :
      (kept ncs : List NodeConfig) (keys : List Key) (objects : Objects)
      → Written ncs objects
      → Ends (Written ncs) Unmoved (clean_legacy weather kept keys objects)
  unfolding clean_legacy Ends
  clean_legacy-Ends kept ncs [] objects w = w
  clean_legacy-Ends kept ncs (legacy_node node ∷ keys) objects w =
      if_ind (Ends (Written ncs) Unmoved) (is_kept kept node)
        (λ _. clean_legacy-Ends kept ncs keys objects w)
        (λ _.
          and_then-Ends (Written ncs) (Written ncs) Unmoved
            (put_object (weather.deleted (legacy_node node)) (legacy_node node) none objects)
            (clean_legacy weather kept keys)
            (legacy-Ends (weather.deleted (legacy_node node)) node none ncs objects w)
            (λ objects' w'. clean_legacy-Ends kept ncs keys objects' w'))
  clean_legacy-Ends kept ncs (placement_current ∷ keys) objects w =
      clean_legacy-Ends kept ncs keys objects w
  clean_legacy-Ends kept ncs (rendered_current ∷ keys) objects w =
      clean_legacy-Ends kept ncs keys objects w
  clean_legacy-Ends kept ncs (placement_at r ∷ keys) objects w =
      clean_legacy-Ends kept ncs keys objects w
  clean_legacy-Ends kept ncs (rendered_at r n ∷ keys) objects w =
      clean_legacy-Ends kept ncs keys objects w
  clean_legacy-Ends kept ncs (other_key a ∷ keys) objects w =
      clean_legacy-Ends kept ncs keys objects w

  clean_listed-Ends :
      (ncs : List NodeConfig) (listed : Option (List Key)) (objects : Objects)
      → Written ncs objects
      → Ends (Written ncs) Unmoved (clean_listed weather ncs listed objects)
  unfolding Ends
  clean_listed-Ends ncs none objects w = w.0
  clean_listed-Ends ncs (some keys) objects w = clean_legacy-Ends ncs ncs keys objects w

  -- The pointer is written over configurations that are there.
  abbrev Moved : List NodeConfig → Objects → Type 0
  Moved ncs objects =
      (objects rendered_current ≡ some (pointer rev)) × All (InPlace marshal rev objects) ncs

  abbrev Either : List NodeConfig → Objects → Type 0
  Either ncs objects = Unmoved objects ⊎ Moved ncs objects

  pointer-Ends :
      (ncs : List NodeConfig) (objects : Objects)
      → Written ncs objects
      → Ends (Moved ncs) (Either ncs) (
          put_object
            (weather.written rendered_current)
            rendered_current
            (some (pointer rev))
            objects)
  unfolding same_key
  pointer-Ends ncs objects (u, h) =
      let o : Option Object = some (pointer rev) in
      let moved : Moved ncs (set_key rendered_current o objects) =
        (refl, All-map _ _ ncs (λ nc p. InPlace-set rendered_current o objects nc refl p) h) in
      put_object-Ends (Moved ncs) (Either ncs) (weather.written rendered_current) rendered_current o
        objects moved (inr moved) (inl u)

  Ends-Rendered :
      (ncs : List NodeConfig) (step : Objects × Bool)
      → Ends (Moved ncs) (Either ncs) step
      → Rendered marshal rev ncs before step
  unfolding Ends Rendered
  Ends-Rendered ncs (objects, true) h = h
  Ends-Rendered ncs (objects, false) h = h

  Ends-Either :
      (ncs : List NodeConfig) (P : Objects → Type 0) (step : Objects × Bool)
      → Ends P Unmoved step
      → Ends P (Either ncs) step
  unfolding Ends
  Ends-Either ncs P (objects, true) h = h
  Ends-Either ncs P (objects, false) h = inl h

  -- The configurations are of different nodes. Then, whatever writes and deletions fail or are done with
  -- an error reported, the pointer to the rendered configurations is the old one, or it names
  -- the new revision and each configuration is stored under it as it was printed; with no error
  -- it is the latter.
  pub publish_rendered-Rendered :
      (still_leader : Bool) (ncs : List NodeConfig)
      → Pairwise NodesDiffer ncs
      → Rendered marshal rev ncs before
          (publish_rendered marshal weather still_leader rev ncs before)
  unfolding publish_rendered Rendered
  publish_rendered-Rendered still_leader ncs apart =
      if_ind (Rendered marshal rev ncs before) (not still_leader) (λ _. inl refl)
        (λ _. Ends-Rendered ncs _ (
          and_then-Ends (λ o. Written [] o × All (InPlace marshal rev o) ncs) (Moved ncs)
            (Either ncs) (write_configs marshal weather rev ncs before) _
            (Ends-Either ncs (λ o. Written [] o × All (InPlace marshal rev o) ncs)
              (write_configs marshal weather rev ncs before)
              (write_configs-Ends ncs [] before apart (All-of _ ncs (λ nc. tt)) (refl, tt)))
            (λ objects ((u, _), h).
              and_then-Ends (Written ncs) (Moved ncs) (Either ncs)
                (clean_listed weather ncs weather.listed objects) _
                (Ends-Either ncs (Written ncs) (clean_listed weather ncs weather.listed objects)
                  (clean_listed-Ends ncs weather.listed objects (u, h)))
                (λ objects' w. pointer-Ends ncs objects' w))))
