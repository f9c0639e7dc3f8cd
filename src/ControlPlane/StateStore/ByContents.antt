-- ===== src/ControlPlane/StateStore/ByContents.antt =====
-- A store whose tokens are the contents themselves, as an ETag that never collides: it shows that
-- the laws of `CellStore` can hold.
use firework.Base.{◌≡◌, refl, Bool, true, false, Option, none, some, arith, Bool-cases, inl, inr}
use firework.ControlPlane.StateStore.{CellStore}

module _ {V : Type 0} where
  abbrev get : Option V → Option (V × V)
  get none = none
  get (some v) = some (v, v)

  abbrev put_if_absent : V → Option V → Option V × Bool
  put_if_absent v none = (some v, true)
  put_if_absent v (some w) = (some w, false)

  abbrev overwrite : Bool → V → V → Option V × Bool
  overwrite true v w = (some v, true)
  overwrite false v w = (some w, false)

  pub absent_refused :
      (v : V) (c : Option V) → (put_if_absent v c).1 ≡ false → (put_if_absent v c).0 ≡ c
  absent_refused v none h = cc
  absent_refused v (some w) h = refl

  pub absent_written :
      (v : V) (c : Option V)
      → (put_if_absent v c).1 ≡ true
      → (get c ≡ none) × ((t : V) × (get (put_if_absent v c).0 ≡ some (t, v)))
  absent_written v none h = (refl, (v, refl))
  absent_written v (some w) h = cc

  pub absent_room : (v : V) (c : Option V) → get c ≡ none → (put_if_absent v c).1 ≡ true
  absent_room v none h = refl
  absent_room v (some w) h = cc

  pub same_contents :
      (t v w : V) (c d : Option V) → get c ≡ some (t, v) → get d ≡ some (t, w) → v ≡ w
  same_contents t v w none d h k = cc
  same_contents t v w (some a) none h k = cc
  same_contents t v w (some a) (some b) h k = cc

module _ {V : Type 0} (same : V → V → Bool) (same-eq : (a b : V) → same a b ≡ true → a ≡ b)
    (same_refl : (a : V) → same a a ≡ true) where
  abbrev put_if_match : V → V → Option V → Option V × Bool
  put_if_match t v none = (none, false)
  put_if_match t v (some w) = overwrite (same t w) v w

  pub match_refused :
      (t v : V) (c : Option V) → (put_if_match t v c).1 ≡ false → (put_if_match t v c).0 ≡ c
  match_refused t v none h = refl
  match_refused t v (some w) h = ground arith

  pub match_written :
      (t v : V) (c : Option V)
      → (put_if_match t v c).1 ≡ true
      → ((w : V) × (get c ≡ some (t, w))) × ((t' : V) × (get (put_if_match t v c).0 ≡ some (t', v)))
  match_written t v none h = cc
  match_written t v (some w) h = elim (Bool-cases (same t w)) [
    | inl e ↦ let q = same-eq t w e in rw e ((w, cc), (v, refl))
    | inr e ↦ absurd (ground arith)
  ]

  pub match_current :
      (t v w : V) (c : Option V) → get c ≡ some (t, w) → (put_if_match t v c).1 ≡ true
  match_current t v w none h = cc
  match_current t v w (some a) h = let q : a ≡ t = cc in rw (q, same_refl) refl

  abbrev pub by_contents : CellStore V
  by_contents = record {
    Cell = Option V;
    Token = V;
    get = get;
    put_if_absent = put_if_absent;
    put_if_match = put_if_match;
    absent_refused = absent_refused;
    absent_written = absent_written;
    absent_room = absent_room;
    match_refused = match_refused;
    match_written = match_written;
    match_current = match_current;
    same_contents = same_contents;
  }
