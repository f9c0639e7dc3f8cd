-- ===== src/Base/Sort.antt =====
-- Go's `sort.SliceStable` (and `sort.Slice` where the order is total on the keys): a stable sort by
-- a strict test, as insertion from the right.
use Prim.Native.Nat.{ℕ, ◌+◌}
use mathlib.Core.Path.{◌≡◌, refl}
use mathlib.Core.Logic.{inl, inr}
use mathlib.Core.Bool.{Bool, true, false}
use mathlib.Core.List.{List, [], ◌∷◌}
use native.Mathlib.Omega.{arith}
use firework.Base.Tests.{if◌then◌else◌, if_ind, Bool-cases}
use firework.Base.Lists.{All, sum_by}

module _ {ℓ} {A : Type ℓ} (less : A → A → Bool) where
  -- `x` goes before the first item that is not less than it: items that tie keep their order.
  unfoldable pub insert_sorted : A → List A → List A
  insert_sorted x [] = x ∷ []
  insert_sorted x (y ∷ ys) = if less y x then y ∷ insert_sorted x ys else x ∷ y ∷ ys

  unfoldable pub sort_stable : List A → List A
  unfolding insert_sorted
  sort_stable [] = []
  sort_stable (x ∷ xs) = insert_sorted x (sort_stable xs)

  sum_by-insert_sorted :
      (f : A → ℕ) (x : A) (ys : List A) → sum_by f (insert_sorted x ys) ≡ f x + sum_by f ys
  unfolding insert_sorted
  sum_by-insert_sorted f x [] = refl
  sum_by-insert_sorted f x (y ∷ ys) = ground (arith, sum_by-insert_sorted f x ys)

  -- Sorting keeps the sum of every measure: it permutes.
  pub sum_by-sort_stable : (f : A → ℕ) (xs : List A) → sum_by f (sort_stable xs) ≡ sum_by f xs
  unfolding sort_stable
  sum_by-sort_stable f [] = refl
  sum_by-sort_stable f (x ∷ xs) =
      omega (arith, sum_by-insert_sorted f x (sort_stable xs), sum_by-sort_stable f xs)

  -- A predicate holds of the sorted list exactly where it held of the list.
  All-insert_sorted :
      (P : A → Type 0) (x : A) (ys : List A) → P x → All P ys → All P (insert_sorted x ys)
  unfolding insert_sorted
  All-insert_sorted P x [] p h = (p, tt)
  All-insert_sorted P x (y ∷ ys) p (q, h) = elim (Bool-cases (less y x)) [
    | inl e ↦ rw e (q, All-insert_sorted P x ys p h)
    | inr e ↦ rw e (p, (q, h))
  ]

  pub All-sort_stable : (P : A → Type 0) (xs : List A) → All P xs → All P (sort_stable xs)
  unfolding sort_stable
  All-sort_stable P [] h = tt
  All-sort_stable P (x ∷ xs) (p, h) =
      All-insert_sorted P x (sort_stable xs) p (All-sort_stable P xs h)

  insert_sorted-All :
      (P : A → Type 0) (x : A) (ys : List A) → All P (insert_sorted x ys) → P x × All P ys
  unfolding insert_sorted
  insert_sorted-All P x [] h = h
  insert_sorted-All P x (y ∷ ys) h = elim (Bool-cases (less y x)) [
    | inl e ↦
        let (q, k) = rw (e, if◌then◌else◌) at h in
        let (p, r) = insert_sorted-All P x ys k in (p, (q, r))
    | inr e ↦ let (p, k) = rw (e, if◌then◌else◌) at h in (p, k)
  ]

  pub sort_stable-All : (P : A → Type 0) (xs : List A) → All P (sort_stable xs) → All P xs
  unfolding sort_stable
  sort_stable-All P [] h = tt
  sort_stable-All P (x ∷ xs) h =
      let (p, k) = insert_sorted-All P x (sort_stable xs) h in (p, sort_stable-All P xs k)

-- Each item stands in `R` to all that come after it.
abbrev pub Pairwise {ℓ} : {A : Type ℓ} → (A → A → Type 0) → List A → Type 0
Pairwise R [] = Unit
Pairwise R (x ∷ xs) = All (R x) xs × Pairwise R xs

-- A preorder that the test respects orders the sorted list.
module _ {ℓ} {A : Type ℓ} (less : A → A → Bool) (R : A → A → Type 0)
    (R_trans : (a b c : A) → R a b → R b c → R a c) (R_less : (a b : A) → less a b ≡ true → R a b)
    (R_not_less : (a b : A) → less a b ≡ false → R b a) where
  All-weaken : (x y : A) (zs : List A) → R x y → All (R y) zs → All (R x) zs
  All-weaken x y [] r h = tt
  All-weaken x y (z ∷ zs) r (s, h) = (R_trans x y z r s, All-weaken x y zs r h)

  insert_sorted-Pairwise :
      (x : A) (ys : List A) → Pairwise R ys → Pairwise R (insert_sorted less x ys)
  unfolding insert_sorted
  insert_sorted-Pairwise x [] h = (tt, tt)
  insert_sorted-Pairwise x (y ∷ ys) (a, h) = elim (Bool-cases (less y x)) [
    | inl e ↦
        rw e (All-insert_sorted less (R y) x ys (R_less y x e) a, insert_sorted-Pairwise x ys h)
    | inr e ↦ let r = R_not_less y x e in rw e ((r, All-weaken x y ys r a), (a, h))
  ]

  pub sort_stable-Pairwise : (xs : List A) → Pairwise R (sort_stable less xs)
  unfolding sort_stable
  sort_stable-Pairwise [] = tt
  sort_stable-Pairwise (x ∷ xs) =
      insert_sorted-Pairwise x (sort_stable less xs) (sort_stable-Pairwise xs)

-- A relation that is symmetric does not depend on the order.
module _ {ℓ} {A : Type ℓ} (less : A → A → Bool) (R : A → A → Type 0)
    (R_sym : (a b : A) → R a b → R b a) where
  insert_sorted-Apart :
      (x : A) (ys : List A) → All (R x) ys → Pairwise R ys → Pairwise R (insert_sorted less x ys)
  unfolding insert_sorted
  insert_sorted-Apart x [] h k = (tt, tt)
  insert_sorted-Apart x (y ∷ ys) (p, h) (q, k) =
      if_ind (Pairwise R) (less y x)
        (λ _. (All-insert_sorted less (R y) x ys (R_sym x y p) q, insert_sorted-Apart x ys h k))
        (λ _. ((p, h), (q, k)))

  pub sort_stable-Apart : (xs : List A) → Pairwise R xs → Pairwise R (sort_stable less xs)
  unfolding sort_stable
  sort_stable-Apart [] h = tt
  sort_stable-Apart (x ∷ xs) (p, h) =
      insert_sorted-Apart x (sort_stable less xs) (All-sort_stable less (R x) xs p)
        (sort_stable-Apart xs h)
