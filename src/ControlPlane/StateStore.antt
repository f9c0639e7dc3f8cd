-- ===== src/ControlPlane/StateStore.antt =====
-- internal/controlplane/blob_state.go: the StateStore contract, for the object under one key. The
-- object storage service behind it (S3 or GCS) is not part of the program: what is documented of its
-- conditional writes is the record's laws. A token is compared and never taken apart; equal tokens
-- stand for equal contents, whether they are ETags or generation numbers.
pub mod ByContents
use firework.Base.{◌≡◌, Bool, true, false, Option, none, some}

pub record CellStore (V : Type 0) : Type 1 where
  pub Cell : Type 0
  pub Token : Type 0
  -- GetJSON: `none` where there is no object.
  pub get : Cell → Option (Token × V)
  -- PutJSONIfAbsent and PutJSONIfMatch: whether the object was written.
  pub put_if_absent : V → Cell → Cell × Bool
  pub put_if_match : Token → V → Cell → Cell × Bool
  pub absent_refused :
      (v : V) (c : Cell) → (put_if_absent v c).1 ≡ false → (put_if_absent v c).0 ≡ c
  pub absent_written :
      (v : V) (c : Cell)
      → (put_if_absent v c).1 ≡ true
      → (get c ≡ none) × ((t : Token) × (get (put_if_absent v c).0 ≡ some (t, v)))
  pub absent_room : (v : V) (c : Cell) → get c ≡ none → (put_if_absent v c).1 ≡ true
  pub match_refused :
      (t : Token) (v : V) (c : Cell) → (put_if_match t v c).1 ≡ false → (put_if_match t v c).0 ≡ c
  pub match_written :
      (t : Token) (v : V) (c : Cell)
      → (put_if_match t v c).1 ≡ true
      → ((w : V) × (get c ≡ some (t, w)))
        × ((t' : Token) × (get (put_if_match t v c).0 ≡ some (t', v)))
  pub match_current :
      (t : Token) (v w : V) (c : Cell) → get c ≡ some (t, w) → (put_if_match t v c).1 ≡ true
  pub same_contents :
      (t : Token) (v w : V) (c d : Cell) → get c ≡ some (t, v) → get d ≡ some (t, w) → v ≡ w

abbrev pub contents {ℓ} : {T V : Type ℓ} → Option (T × V) → Option V
contents none = none
contents (some (_, v)) = some v

-- The object that is stored, if any.
abbrev pub stored : {V : Type 0} (S : CellStore V) → S.Cell → Option V
stored S c = contents (S.get c)
