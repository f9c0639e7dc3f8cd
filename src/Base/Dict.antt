-- ===== src/Base/Dict.antt =====
-- Go's maps with string keys. A map that the program ranges over is an association list; one that
-- it only reads and writes by key is a function, with the zero value where nothing was written.
use Prim.Native.Nat.{ℕ, ◌+◌}
use Prim.Native.String.{String}
use mathlib.Core.Path.{◌≡◌, refl}
use mathlib.Core.Option.{Option, none, some}
use mathlib.Core.List.{List, [], ◌∷◌}
use native.Mathlib.Omega.{arith}
use text.Mathlib.Text.{◌==◌}
use text.Mathlib.TextEquality.{eq_iff}
use firework.Base.Tests.{if◌then◌else◌, or_else}
use firework.Base.Lists.{sum_by, sum_by-append, snoc}

abbrev pub Dict {ℓ} : Type ℓ → Type ℓ
Dict V = List (String × V)

module _ {ℓ} {V : Type ℓ} where
  unfoldable pub lookup : String → Dict V → Option V
  lookup name [] = none
  lookup name ((key, found) ∷ rest) = if key == name then some found else lookup name rest

  -- m[name] = new
  unfoldable pub insert : String → V → Dict V → Dict V
  insert name new [] = (name, new) ∷ []
  insert name new ((key, old) ∷ rest) =
      let written = insert name new rest in
      if key == name then (name, new) ∷ rest else (key, old) ∷ written

  -- delete(m, k)
  unfoldable pub remove : String → Dict V → Dict V
  remove k [] = []
  remove k ((j, v) ∷ m) = let rest = remove k m in if j == k then rest else (j, v) ∷ rest

  pub lookup-insert :
      (name sought : String) (new : V) (dict : Dict V)
      → lookup sought (insert name new dict)
        ≡ (if name == sought then some new else lookup sought dict)
  unfolding lookup insert
  lookup-insert name sought new [] = refl
  lookup-insert name sought new ((key, old) ∷ rest) =
      let ih = lookup-insert name sought new rest in
      ground (arith, ih, eq_iff key name, eq_iff key sought, eq_iff name sought)

  pub lookup-remove :
      (k j : String) (m : Dict V) → lookup j (remove k m) ≡ (if k == j then none else lookup j m)
  unfolding lookup remove
  lookup-remove k j [] = ground arith
  lookup-remove k j ((i, v) ∷ m) =
      ground (arith, lookup-remove k j m, eq_iff i k, eq_iff i j, eq_iff k j)

  -- A map that is only read and written by key.
  abbrev pub update : (String → V) → String → V → String → V
  update f k v j = if k == j then v else f j

-- A map from keys to slices, with `m[k] = append(m[k], v)`.
module _ {ℓ} {V : Type ℓ} where
  abbrev pub items : Dict (List V) → String → List V
  items m k = or_else (lookup k m) []

  unfoldable pub append_at : String → V → Dict (List V) → Dict (List V)
  append_at k v m = insert k (snoc (items m k) v) m

  pub items-append_at :
      (k j : String) (v : V) (m : Dict (List V))
      → items (append_at k v m) j ≡ (if k == j then snoc (items m k) v else items m j)
  unfolding append_at
  items-append_at k j v m = rw lookup-insert (ground arith)

  -- The sum of a measure over all the slices.
  unfoldable pub total_by : (V → ℕ) → Dict (List V) → ℕ
  total_by f [] = 0
  total_by f ((j, vs) ∷ m) = sum_by f vs + total_by f m

  pub total_by-insert :
      (f : V → ℕ) (k : String) (vs : List V) (m : Dict (List V))
      → total_by f (insert k vs m) + sum_by f (items m k) ≡ total_by f m + sum_by f vs
  unfolding total_by insert lookup
  total_by-insert f k vs [] = omega arith
  total_by-insert f k vs ((j, ws) ∷ m) = ground (arith, total_by-insert f k vs m)

  pub total_by-append_at :
      (f : V → ℕ) (k : String) (v : V) (m : Dict (List V))
      → total_by f (append_at k v m) ≡ total_by f m + f v
  unfolding append_at
  total_by-append_at f k v m =
      omega
        (arith, total_by-insert f k (snoc (items m k) v) m, sum_by-append f (items m k) (v ∷ []))
