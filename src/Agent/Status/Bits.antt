-- ===== src/Agent/Status/Bits.antt =====
-- What a decoded status tells of the status.
use quer_project_q.Common.{
  ℕ, ◌+◌, String, ◌≡◌, refl, ap, ◌∙◌, Bool, true, false, some, List, [], ◌∷◌, arith, not, ◌==◌,
  str_eq, if◌then◌else◌, ℤ, pos, negsuc, mod_ℤ,
}
use quer_project_q.Cleaning.Floats.{Floats}
use quer_project_q.Cleaning.Extract.{is_reject}
use quer_project_q.Agent.Status.{conditions, Decoded, has_bit, names_in, decode}

-- The bit of a condition's name.
abbrev pub bit_of : List (ℕ × String) → String → ℕ
bit_of [] s = 0
bit_of ((bit, name) ∷ table) s = let rest = bit_of table s in if str_eq name s then bit else rest

abbrev pub bits_of : List String → ℕ
bits_of [] = 0
bits_of (s ∷ names) = bit_of conditions s + bits_of names

abbrev pub bit_value : Bool → ℕ → ℕ
bit_value b n = if b then n else 0

-- The bits of a table that are set.
abbrev set_bits : List (ℕ × String) → ℤ → ℕ
set_bits [] bits = 0
set_bits ((bit, name) ∷ table) bits =
    bit_value (has_bit bits bit) (bit_of conditions name) + set_bits table bits

bits_of-if :
    (b : Bool) (name : String) (names : List String)
    → bits_of (if b then name ∷ names else names)
      ≡ bit_value b (bit_of conditions name) + bits_of names
bits_of-if true name names = refl
bits_of-if false name names = omega arith

bits_of-names_in :
    (table : List (ℕ × String)) (bits : ℤ) → bits_of (names_in table bits) ≡ set_bits table bits
unfolding names_in
bits_of-names_in [] bits = refl
bits_of-names_in ((bit, name) ∷ table) bits =
    bits_of-if (has_bit bits bit) name (names_in table bits)
    ∙ ap (λ n. bit_value (has_bit bits bit) (bit_of conditions name) + n)
        (bits_of-names_in table bits)

two : (m : ℤ) → mod_ℤ m 2 ≡ bit_value (has_bit m 1) 1
two (pos n) = ground arith
two (negsuc n) = ground arith

four : (m : ℤ) → mod_ℤ m 4 ≡ mod_ℤ m 2 + bit_value (has_bit m 2) 2
four (pos n) = ground arith
four (negsuc n) = ground arith

eight : (m : ℤ) → mod_ℤ m 8 ≡ mod_ℤ m 4 + bit_value (has_bit m 4) 4
eight (pos n) = ground arith
eight (negsuc n) = ground arith

sixteen : (m : ℤ) → mod_ℤ m 16 ≡ mod_ℤ m 8 + bit_value (has_bit m 8) 8
sixteen (pos n) = ground arith
sixteen (negsuc n) = ground arith

thirty_two : (m : ℤ) → mod_ℤ m 32 ≡ mod_ℤ m 16 + bit_value (has_bit m 16) 16
thirty_two (pos n) = ground arith
thirty_two (negsuc n) = ground arith

sixty_four : (m : ℤ) → mod_ℤ m 64 ≡ mod_ℤ m 32 + bit_value (has_bit m 32) 32
sixty_four (pos n) = ground arith
sixty_four (negsuc n) = ground arith

all_bits : (m : ℤ) → mod_ℤ m 128 ≡ mod_ℤ m 64 + bit_value (has_bit m 64) 64
all_bits (pos n) = ground arith
all_bits (negsuc n) = ground arith

set_bits-conditions : (m : ℤ) → bit_value (has_bit m 1) 1 + set_bits conditions m ≡ mod_ℤ m 128
set_bits-conditions m =
    omega (arith, two m, four m, eight m, sixteen m, thirty_two m, sixty_four m, all_bits m)

module _ (F : Floats) where
  open F use {Float, to_int}

  reject-bit : (bits : ℤ) → not (mod_ℤ bits 2 == 0) ≡ has_bit bits 1
  reject-bit (pos n) = ground arith
  reject-bit (negsuc n) = ground arith

  -- A status that is an integer is decoded, and nothing of its low seven bits is lost: the reject
  -- bit and the bits of the named conditions add up to the status modulo 128. The reject flag is
  -- the one of the reference cleaner, which takes the status modulo 2.
  pub decode-bits :
      (status : Float) (bits : ℤ)
      → to_int status ≡ some bits
      → (d : Decoded) × (decode F status ≡ some d)
        × (bit_value d.reject 1 + bits_of d.names ≡ mod_ℤ bits 128)
        × (is_reject F status ≡ some d.reject)
  unfolding decode is_reject
  decode-bits status bits e = (
    record { reject = has_bit bits 1; names = names_in conditions bits },
    rw e refl,
    omega (arith, bits_of-names_in conditions bits, set_bits-conditions bits),
    rw e (ap some (reject-bit bits)),
  )
