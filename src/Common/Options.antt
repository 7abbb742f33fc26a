-- ===== src/Common/Options.antt =====
-- Computations that may raise: `none` is an exception that the caller does not catch.
use mathlib.Core.Path.{◌≡◌}
use mathlib.Core.Option.{Option, none, some}
use mathlib.Core.List.{List, [], ◌∷◌}
use mathlib.Core.Logic.{inl, inr}
use native.Mathlib.Omega.{arith}
use quer_project_q.Common.Tests.{Option-cases}
use quer_project_q.Common.Lists.{length, All}

infixl 5 ◌>>=◌
abbrev pub ◌>>=◌ {ℓ κ} : {A : Type ℓ} {B : Type κ} → Option A → (A → Option B) → Option B
none >>= f = none
some a >>= f = f a

-- A list comprehension whose body may raise.
abbrev pub map_option {ℓ κ} : {A : Type ℓ} {B : Type κ} → (A → Option B) → List A → Option (List B)
map_option f [] = some []
map_option f (x ∷ xs) = f x >>= λ y. map_option f xs >>= λ ys. some (y ∷ ys)

pub length-map_option {ℓ κ} :
    {A : Type ℓ} {B : Type κ} (f : A → Option B) (xs : List A) (ys : List B)
    → map_option f xs ≡ some ys
    → length ys ≡ length xs
length-map_option f [] ys e = ground arith
length-map_option f (x ∷ xs) ys e = elim (Option-cases (f x)) [
  | inl raised ↦ absurd (ground (arith, raised))
  | inr (y, ey) ↦ elim (Option-cases (map_option f xs)) [
    | inl raised ↦ absurd (ground (arith, ey, raised))
    | inr (zs, ez) ↦ ground (arith, ey, ez, length-map_option f xs zs ez)
  ]
]

-- A comprehension raises only at an item at which its body does.
pub map_option-none {κ} :
    {A B : Type 0} (P : A → Type κ) (f : A → Option B) (xs : List A)
    → All P xs
    → map_option f xs ≡ none
    → (x : A) × P x × (f x ≡ none)
map_option-none P f [] h e = absurd (ground (arith, e))
map_option-none P f (x ∷ xs) h e = elim (Option-cases (f x)) [
  | inl raised ↦ (x, h.0, raised)
  | inr (y, ey) ↦ elim (Option-cases (map_option f xs)) [
    | inl raised ↦ map_option-none P f xs h.1 raised
    | inr (ys, eys) ↦ absurd (ground (arith, e, ey, eys))
  ]
]
