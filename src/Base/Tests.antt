-- ===== src/Base/Tests.antt =====
-- Boolean tests on numbers and texts, the conditional, and case splits that keep the equation.
use Prim.Native.Nat.{ℕ, compare, Ordering}
use Prim.Native.String.{String}
use Prim.Native.String
use mathlib.Core.Path.{◌≡◌, refl, ap}
use mathlib.Core.Logic.{◌⊎◌, inl, inr}
use mathlib.Core.Bool.{Bool, true, false, not}
use mathlib.Core.Option.{Option, none, some}
use native.Mathlib.Omega.{arith}
use text.Mathlib.Text.{is_lt, ◌==◌}
use text.Mathlib.TextEquality.{eq_iff}

abbrev pub ltb : ℕ → ℕ → Bool
ltb a b = elim (compare a b) [ Ordering.lt ↦ true | _ ↦ false ]

abbrev pub leb : ℕ → ℕ → Bool
leb a b = elim (compare a b) [ Ordering.gt ↦ false | _ ↦ true ]

abbrev pub eqb : ℕ → ℕ → Bool
eqb a b = elim (compare a b) [ Ordering.eq ↦ true | _ ↦ false ]

-- Go's `<` on strings: the order of their bytes.
abbrev pub str_lt : String → String → Bool
str_lt s t = is_lt (String.compare s t)

infix 1 if◌then◌else◌
abbrev pub if◌then◌else◌ {ℓ} : {A : Type ℓ} → Bool → A → A → A
if true then x else y = x
if false then x else y = y

-- Go's `==` and `!=` on booleans.
abbrev pub same : Bool → Bool → Bool
same true b = b
same false b = not b

abbrev pub is_some {ℓ} : {A : Type ℓ} → Option A → Bool
is_some none = false
is_some (some a) = true

abbrev pub or_else {ℓ} : {A : Type ℓ} → Option A → A → A
or_else none d = d
or_else (some a) d = a

-- The chain of `if err != nil { return err }`.
infixl 1 ◌>>=◌
abbrev pub ◌>>=◌ {ℓ κ} : {A : Type ℓ} {B : Type κ} → Option A → (A → Option B) → Option B
none >>= next = none
some a >>= next = next a

pub Bool-cases : (b : Bool) → (b ≡ true) ⊎ (b ≡ false)
Bool-cases true = inl refl
Bool-cases false = inr refl

pub Option-cases {ℓ} : {A : Type ℓ} (o : Option A) → (o ≡ none) ⊎ ((a : A) × (o ≡ some a))
Option-cases none = inl refl
Option-cases (some a) = inr (a, refl)

pub eq_sym : (s t : String) → (s == t) ≡ (t == s)
eq_sym s t = ground (arith, eq_iff s t, eq_iff t s)

pub eq_false : (s t : String) → (s == t) ≡ false → ¬ (s ≡ t)
eq_false s t h p = ground (arith, eq_iff s t)

-- What holds of both branches holds of the conditional.
pub if_ind {ℓ κ} :
    {A : Type ℓ} (Q : A → Type κ) (b : Bool) {x y : A}
    → (b ≡ true → Q x)
    → (b ≡ false → Q y)
    → Q (if b then x else y)
if_ind Q true h k = h refl
if_ind Q false h k = k refl

pub some-pair {ℓ κ} :
    {A : Type ℓ} {B : Type κ} {a c : A} {b d : B}
    → ◌≡◌ {A = Option (A × B)} (some (a, b)) (some (c, d))
    → (a ≡ c) × (b ≡ d)
some-pair {A} {B} {a} {c} {b} {d} e =
    let get : Option (A × B) → A × B = λ o. or_else o (a, b) in
    (ap (λ o. (get o).0) e, ap (λ o. (get o).1) e)
