-- ===== src/Cleaning/Extract/Width.antt =====
-- A row that `parse_row` accepts has one reading for each head.
use quer_project_q.Common.{
  ℕ, ◌+◌, ◌-◌, ◌≤◌, String, ◌≡◌, Bool-cases, some, Option-cases, inl, inr, List, [], ◌∷◌, arith,
  length, length-take, length-drop, slice, drop, length-map_option, map_option, ltb, ltb→le,
}
use quer_project_q.Cleaning.Floats.{Floats}
use quer_project_q.Cleaning.Extract.{num_heads, Row, zip_readings, parse_row}

length-zip_readings :
    {A : Type 0} (n : ℕ) (cs ts ss : List A)
    → length cs ≡ n
    → length ts ≡ n
    → length ss ≡ n
    → length (zip_readings cs ts ss) ≡ n
length-zip_readings n [] ts ss hc ht hs = ground arith
length-zip_readings n (c ∷ cs) [] ss hc ht hs = absurd (omega arith)
length-zip_readings n (c ∷ cs) (t ∷ ts) [] hc ht hs = absurd (omega arith)
length-zip_readings n (c ∷ cs) (t ∷ ts) (s ∷ ss) hc ht hs =
    omega (arith, length-zip_readings (length cs) cs ts ss)

length-slice {ℓ} :
    {A : Type ℓ} (xs : List A) (a b : ℕ) → a ≤ b → b ≤ length xs → a + length (slice a b xs) ≡ b
length-slice xs a b h k = omega (arith, length-take (b - a) (drop a xs), length-drop a xs)

module _ (F : Floats) where
  open F use {Float, parse}

  pub parse_row-length :
      (row : List String) (r : Row Float) → parse_row F row ≡ some r → length r.readings ≡ num_heads
  unfolding parse_row
  parse_row-length [] r e = absurd (ground arith)
  parse_row-length (ts ∷ cells) r e =
      let row = ts ∷ cells in
      elim (Bool-cases (ltb (length row) 109)) [
        | inl short ↦ absurd (ground (arith, short))
        | inr long ↦ elim (Option-cases (map_option parse (slice 1 37 row))) [
          | inl bad ↦ absurd (ground (arith, long, bad))
          | inr (cs, ec) ↦ elim (Option-cases (map_option parse (slice 37 73 row))) [
            | inl bad ↦ absurd (ground (arith, long, ec, bad))
            | inr (vs, ev) ↦ elim (Option-cases (map_option parse (slice 73 109 row))) [
              | inl bad ↦ absurd (ground (arith, long, ec, ev, bad))
              | inr (ss, es) ↦
                  let wide = ltb→le (length row) 109 long in
                  let hc = length-map_option parse (slice 1 37 row) cs ec in
                  let hv = length-map_option parse (slice 37 73 row) vs ev in
                  let hs = length-map_option parse (slice 73 109 row) ss es in
                  let size =
                    length-zip_readings 36 cs vs ss
                      (omega (arith, hc, length-slice row 1 37 (omega arith) (omega arith)))
                      (omega (arith, hv, length-slice row 37 73 (omega arith) (omega arith)))
                      (omega (arith, hs, length-slice row 73 109 (omega arith) (omega arith))) in
                  ground (arith, long, ec, ev, es, size)
            ]
          ]
        ]
      ]
