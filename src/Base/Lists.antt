-- ===== src/Base/Lists.antt =====
-- Lists measured by native numbers, sums over lists, and predicates on every item.
use Prim.Native.Nat.{ℕ, suc, ◌+◌}
use mathlib.Core.Path.{◌≡◌, refl}
use mathlib.Core.Bool.{Bool, true, false}
use mathlib.Core.List.{List, [], ◌∷◌, ◌++◌, cons-ne-nil}
use native.Mathlib.Omega.{arith}

module _ {ℓ} {A : Type ℓ} where
  abbrev pub length : List A → ℕ
  length [] = 0
  length (x ∷ xs) = suc (length xs)

  pub length-append : (xs ys : List A) → length (xs ++ ys) ≡ length xs + length ys
  length-append [] ys = omega arith
  length-append (x ∷ xs) ys = omega (arith, length-append xs ys)

  -- The sum of a measure over a list.
  abbrev pub sum_by : (A → ℕ) → List A → ℕ
  sum_by f [] = 0
  sum_by f (x ∷ xs) = f x + sum_by f xs

  pub sum_by-append : (f : A → ℕ) (xs ys : List A) → sum_by f (xs ++ ys) ≡ sum_by f xs + sum_by f ys
  sum_by-append f [] ys = omega arith
  sum_by-append f (x ∷ xs) ys = omega (arith, sum_by-append f xs ys)

  -- Go's `append(xs, x)`.
  abbrev pub snoc : List A → A → List A
  snoc xs x = xs ++ x ∷ []

  -- How many items pass a test.
  abbrev pub count_by : (A → Bool) → List A → ℕ
  count_by p [] = 0
  count_by p (x ∷ xs) = (elim (p x) [ true ↦ 1 | false ↦ 0 ]) + count_by p xs

  pub count_by-append :
      (p : A → Bool) (xs ys : List A) → count_by p (xs ++ ys) ≡ count_by p xs + count_by p ys
  count_by-append p [] ys = omega arith
  count_by-append p (x ∷ xs) ys = omega (arith, count_by-append p xs ys)

  abbrev pub filter_by : (A → Bool) → List A → List A
  filter_by p [] = []
  filter_by p (x ∷ xs) = let rest = filter_by p xs in elim (p x) [ true ↦ x ∷ rest | false ↦ rest ]

module _ {ℓ κ} {A : Type ℓ} where
  -- Every item of the list satisfies `P`.
  abbrev pub All : (A → Type κ) → List A → Type κ
  All P [] = Unit
  All P (x ∷ xs) = P x × All P xs

  pub All-append : (P : A → Type κ) (xs ys : List A) → All P xs → All P ys → All P (xs ++ ys)
  All-append P [] ys h k = k
  All-append P (x ∷ xs) ys (p, h) k = (p, All-append P xs ys h k)

module _ {ℓ} {A : Type ℓ} where
  pub All-map : (P Q : A → Type 0) (xs : List A) → ((x : A) → P x → Q x) → All P xs → All Q xs
  All-map P Q [] f h = tt
  All-map P Q (x ∷ xs) f (p, h) = (f x p, All-map P Q xs f h)

  pub All-zip :
      (P Q R : A → Type 0) (xs : List A)
      → ((x : A) → P x → Q x → R x)
      → All P xs
      → All Q xs
      → All R xs
  All-zip P Q R [] f h k = tt
  All-zip P Q R (x ∷ xs) f (p, h) (q, k) = (f x p q, All-zip P Q R xs f h k)

  pub All-of : (P : A → Type 0) (xs : List A) → ((x : A) → P x) → All P xs
  All-of P [] h = tt
  All-of P (x ∷ xs) h = (h x, All-of P xs h)

-- Lists one after the other, which make an empty list only when all are empty.
module _ {ℓ} {A : Type ℓ} where
  abbrev pub join_all : List (List A) → List A
  join_all [] = []
  join_all (xs ∷ xss) = xs ++ join_all xss

  pub append-eq_nil : (xs ys : List A) → xs ++ ys ≡ [] → (xs ≡ []) × (ys ≡ [])
  append-eq_nil [] ys e = (refl, e)
  append-eq_nil (x ∷ xs) ys e = absurd (cons-ne-nil x (xs ++ ys) e)

  pub join_all-nil : (xss : List (List A)) → join_all xss ≡ [] → All (λ xs. xs ≡ []) xss
  join_all-nil [] e = tt
  join_all-nil (xs ∷ xss) e =
      let (h, k) = append-eq_nil xs (join_all xss) e in (h, join_all-nil xss k)

  pub nil-join_all : (xss : List (List A)) → All (λ xs. xs ≡ []) xss → join_all xss ≡ []
  nil-join_all [] h = refl
  nil-join_all (xs ∷ xss) (h, k) = rw (h, nil-join_all xss k) refl
