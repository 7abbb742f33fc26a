-- ===== src/Agent/Status.antt =====
-- python/analytics/status.py: the conditions of a status, by its bits.
pub mod Bits
use quer_project_q.Common.{
  ℕ, ◌*◌, String, Bool, Option, some, List, [], ◌∷◌, ◌>>=◌, leb, if◌then◌else◌, ℤ, mod_ℤ,
}
use quer_project_q.Cleaning.Floats.{Floats}

-- `CONDITIONS`
abbrev pub conditions : List (ℕ × String)
conditions =
    (2, "No Load")
    ∷ (4, "No Closure")
    ∷ (8, "No InTorque")
    ∷ (16, "No CapTurns")
    ∷ (32, "Following Error")
    ∷ (64, "Bad Closure")
    ∷ []

pub record Decoded : Type 0 where
  pub reject : Bool
  pub names : List String

-- `bits & bit`, for a bit that is a power of two: two's complement for a negative status
abbrev pub has_bit : ℤ → ℕ → Bool
has_bit bits bit = leb bit (mod_ℤ bits (2 * bit))

unfoldable pub names_in : List (ℕ × String) → ℤ → List String
names_in [] bits = []
names_in ((bit, name) ∷ table) bits =
    let rest = names_in table bits in if has_bit bits bit then name ∷ rest else rest

module _ (F : Floats) where
  open F use {Float, to_int}

  unfoldable pub decode : Float → Option Decoded
  unfolding names_in
  decode status = do
    bits ← to_int status
    some (record { reject = has_bit bits 1; names = names_in conditions bits })
