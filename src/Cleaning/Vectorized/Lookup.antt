-- ===== src/Cleaning/Vectorized/Lookup.antt =====
-- Reading a list at the place where a suffix of it begins.
use quer_project_q.Common.{
  ℕ, zero, suc, ◌≡◌, Option, some, List, [], ◌∷◌, ◌++◌, arith, ◌>>=◌, map_option, get_elem?, drop,
}

module _ {ℓ} {A : Type ℓ} where
  pub get_elem?-drop :
      (xs : List A) (i : ℕ) (y : A) (ys : List A) → drop i xs ≡ y ∷ ys → get_elem? xs i ≡ some y
  get_elem?-drop [] zero y ys e = absurd (ground arith)
  get_elem?-drop [] (suc i) y ys e = absurd (ground arith)
  get_elem?-drop (x ∷ xs) zero y ys e = ground arith
  get_elem?-drop (x ∷ xs) (suc i) y ys e = get_elem?-drop xs i y ys e

  pub drop-suc :
      (xs : List A) (i : ℕ) (y : A) (ys : List A) → drop i xs ≡ y ∷ ys → drop (suc i) xs ≡ ys
  drop-suc [] zero y ys e = absurd (ground arith)
  drop-suc [] (suc i) y ys e = absurd (ground arith)
  drop-suc (x ∷ xs) zero y ys e = ground arith
  drop-suc (x ∷ xs) (suc i) y ys e = drop-suc xs i y ys e

module _ {ℓ κ} {A : Type ℓ} {B : Type κ} where
  pub map_option-append :
      (f : A → Option B) (xs ys : List A)
      → map_option f (xs ++ ys)
        ≡ (map_option f xs >>= λ as'. map_option f ys >>= λ bs. some (as' ++ bs))
  map_option-append f [] ys = ground arith
  map_option-append f (x ∷ xs) ys = ground (arith, map_option-append f xs ys)
