-- ===== src/ControlPlane/Rendering/Steps.antt =====
-- The writes of internal/controlplane/controller.go one after another, and what they keep.
use firework.Base.{Bool, true, false, ◌≡◌, refl, Option}
use firework.ControlPlane.Rendering.{
  Key, same_key, Object, Objects, set_key, Fate, stored, failed, unacknowledged, put_object,
  and_then,
}

-- What holds of the objects when there was no error, and what holds in any case.
unfoldable pub Ends : (Objects → Type 0) → (Objects → Type 0) → Objects × Bool → Type 0
Ends P Q (objects, true) = P objects
Ends P Q (objects, false) = Q objects

-- One step after another.
pub and_then-Ends :
    (P R Q : Objects → Type 0) (step : Objects × Bool) (next : Objects → Objects × Bool)
    → Ends P Q step
    → ((objects : Objects) → P objects → Ends R Q (next objects))
    → Ends R Q (and_then step next)
unfolding Ends
and_then-Ends P R Q (objects, true) next h f = f objects h
and_then-Ends P R Q (objects, false) next h f = h

-- A write keeps what holds before it, if that holds after it too.
pub put_object-Ends :
    (P Q : Objects → Type 0) (fate : Fate) (k : Key) (o : Option Object) (objects : Objects)
    → P (set_key k o objects)
    → Q (set_key k o objects)
    → Q objects
    → Ends P Q (put_object fate k o objects)
unfolding Ends put_object
put_object-Ends P Q stored k o objects p q r = p
put_object-Ends P Q failed k o objects p q r = r
put_object-Ends P Q unacknowledged k o objects p q r = q

pub Ends-map :
    (P R Q : Objects → Type 0) (step : Objects × Bool)
    → ((objects : Objects) → P objects → R objects)
    → Ends P Q step
    → Ends R Q step
unfolding Ends
Ends-map P R Q (objects, true) f h = f objects h
Ends-map P R Q (objects, false) f h = h

pub set_key-other :
    (k j : Key) (o : Option Object) (objects : Objects)
    → same_key k j ≡ false
    → set_key k o objects j ≡ objects j
set_key-other k j o objects h = rw h refl
