-- ===== src/Common/Lists.antt =====
-- Lists measured and indexed by native numbers, under the library's names.
use Prim.Native.Nat.{ℕ, zero, suc, ◌+◌, ◌-◌, min}
use mathlib.Core.Path.{◌≡◌, refl, ap}
use mathlib.Core.List.{List, [], ◌∷◌, ◌++◌, map}
use mathlib.Core.Option.{Option, none, some}
use mathlib.Core.Bool.{Bool, true}
use mathlib.Core.Logic.{◌⊎◌, inl, inr}
use quer_project_q.Common.Tests.{if◌then◌else◌, Bool-cases}
use native.Mathlib.Omega.{arith}

module _ {ℓ} {A : Type ℓ} where
  abbrev pub length : List A → ℕ
  length [] = 0
  length (x ∷ xs) = suc (length xs)

  abbrev pub get_elem? : List A → ℕ → Option A
  get_elem? [] i = none
  get_elem? (x ∷ xs) zero = some x
  get_elem? (x ∷ xs) (suc i) = get_elem? xs i

  abbrev pub get_or : List A → ℕ → A → A
  get_or [] i d = d
  get_or (x ∷ xs) zero d = x
  get_or (x ∷ xs) (suc i) d = get_or xs i d

  abbrev pub take : ℕ → List A → List A
  take zero xs = []
  take (suc n) [] = []
  take (suc n) (x ∷ xs) = x ∷ take n xs

  abbrev pub drop : ℕ → List A → List A
  drop zero xs = xs
  drop (suc n) [] = []
  drop (suc n) (x ∷ xs) = drop n xs

  abbrev pub replicate : ℕ → A → List A
  replicate zero a = []
  replicate (suc n) a = a ∷ replicate n a

  -- `xs[a:b]`
  abbrev pub slice : ℕ → ℕ → List A → List A
  slice a b xs = take (b - a) (drop a xs)

  pub length-append : (xs ys : List A) → length (xs ++ ys) ≡ length xs + length ys
  length-append [] ys = omega arith
  length-append (x ∷ xs) ys = omega (arith, length-append xs ys)

  pub length-take : (n : ℕ) (xs : List A) → length (take n xs) ≡ min n (length xs)
  length-take zero xs = omega arith
  length-take (suc n) [] = omega arith
  length-take (suc n) (x ∷ xs) = omega (arith, length-take n xs)

  pub length-drop : (n : ℕ) (xs : List A) → length (drop n xs) ≡ length xs - n
  length-drop zero xs = omega arith
  length-drop (suc n) [] = omega arith
  length-drop (suc n) (x ∷ xs) = omega (arith, length-drop n xs)

module _ {ℓ κ} {A : Type ℓ} {B : Type κ} where
  pub length-map : (xs : List A) (f : A → B) → length (map f xs) ≡ length xs
  length-map [] f = refl
  length-map (x ∷ xs) f = ap suc (length-map xs f)

-- A predicate of every item.
abbrev pub All {ℓ κ} : {A : Type ℓ} → (A → Type κ) → List A → Type κ
All P [] = Unit
All P (x ∷ xs) = P x × All P xs

pub All-append {ℓ κ} :
    {A : Type ℓ} (P : A → Type κ) (xs ys : List A) → All P xs → All P ys → All P (xs ++ ys)
All-append P [] ys h k = k
All-append P (x ∷ xs) ys h k = (h.0, All-append P xs ys h.1 k)

pub All-imp {ℓ κ μ} :
    {A : Type ℓ} (P : A → Type κ) (Q : A → Type μ) (xs : List A)
    → ((x : A) → P x → Q x)
    → All P xs
    → All Q xs
All-imp P Q [] f h = tt
All-imp P Q (x ∷ xs) f h = (f x h.0, All-imp P Q xs f h.1)

-- The item stands in the list.
abbrev pub IsIn : {A : Type 0} → A → List A → Type 0
IsIn a [] = ⊥
IsIn a (x ∷ xs) = (a ≡ x) ⊎ IsIn a xs

-- [x for x in xs if p(x)]
abbrev pub where_holds {ℓ} : {A : Type ℓ} → (A → Bool) → List A → List A
where_holds p [] = []
where_holds p (x ∷ xs) = let rest = where_holds p xs in if p x then x ∷ rest else rest

module _ {κ} {A : Type 0} (P : A → Type κ) where
  pub All-IsIn : (a : A) (xs : List A) → All P xs → IsIn a xs → P a
  All-IsIn a [] h i = absurd i
  All-IsIn a (x ∷ xs) h (inl e) = rw e h.0
  All-IsIn a (x ∷ xs) h (inr i) = All-IsIn a xs h.1 i

pub All-self : {A : Type 0} (xs : List A) → All (λ a. IsIn a xs) xs
All-self [] = tt
All-self (x ∷ xs) =
    (inl refl, All-imp (λ a. IsIn a xs) (λ a. IsIn a (x ∷ xs)) xs (λ a i. inr i) (All-self xs))

module _ {A : Type 0} (p : A → Bool) where
  pub where_holds-IsIn :
      (a : A) (xs : List A) → IsIn a (where_holds p xs) → IsIn a xs × (p a ≡ true)
  where_holds-IsIn a [] i = absurd i
  where_holds-IsIn a (x ∷ xs) i = elim (Bool-cases (p x)) [
    | inl holds ↦ elim (rw holds at i) [
      | inl same ↦ (inl same, rw same holds)
      | inr j ↦ let rest = where_holds-IsIn a xs j in (inr rest.0, rest.1)
    ]
    | inr fails ↦ let rest = where_holds-IsIn a xs (rw fails at i) in (inr rest.0, rest.1)
  ]

  pub IsIn-where_holds : (a : A) (xs : List A) → IsIn a xs → p a ≡ true → IsIn a (where_holds p xs)
  IsIn-where_holds a [] i h = absurd i
  IsIn-where_holds a (x ∷ xs) (inl same) h = rw (rw same at h) (inl same)
  IsIn-where_holds a (x ∷ xs) (inr j) h = elim (Bool-cases (p x)) [
    | inl holds ↦ rw holds (inr (IsIn-where_holds a xs j h))
    | inr fails ↦ rw fails (IsIn-where_holds a xs j h)
  ]

  pub where_holds-All {κ} : (P : A → Type κ) (xs : List A) → All P xs → All P (where_holds p xs)
  where_holds-All P [] h = tt
  where_holds-All P (x ∷ xs) h = elim (Bool-cases (p x)) [
    | inl holds ↦ rw holds (h.0, where_holds-All P xs h.1)
    | inr fails ↦ rw fails (where_holds-All P xs h.1)
  ]

pub take-All {κ} :
    {A : Type 0} (P : A → Type κ) (n : ℕ) (xs : List A) → All P xs → All P (take n xs)
take-All P zero xs h = tt
take-All P (suc n) [] h = tt
take-All P (suc n) (x ∷ xs) h = (h.0, take-All P n xs h.1)
