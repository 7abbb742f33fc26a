-- ===== src/Drift/Pairs.antt =====
-- The blocked sum against the sum over pairs.
use Prim.Native.Nat.{min}
use quer_project_q.Common.{
  ℕ, zero, suc, ◌+◌, ◌-◌, ◌≤◌, ◌<◌, ◌≡◌, refl, sym, ap, ap₂, ◌∙◌, some, List, [], ◌∷◌, ◌++◌, arith,
  ltb, Bool-cases, false, inl, inr, length, length-append, get_elem?, ℤ, pos, ◌+ℤ◌, +ℤ_parts,
  eq_of_parts, append_assoc, ltb→lt, ltb→le, lt→ltb,
}
use quer_project_q.Drift.{tau_chunk, masked, row_sum, block, blocks, mann_kendall_s}

zero_add : (a : ℤ) → pos 0 +ℤ a ≡ a
zero_add a = eq_of_parts (pos 0 +ℤ a) a (omega (arith, +ℤ_parts (pos 0) a))

add_zero : (a : ℤ) → a +ℤ pos 0 ≡ a
add_zero a = eq_of_parts (a +ℤ pos 0) a (omega (arith, +ℤ_parts a (pos 0)))

add_assoc : (a b c : ℤ) → (a +ℤ b) +ℤ c ≡ a +ℤ (b +ℤ c)
add_assoc a b c =
    eq_of_parts ((a +ℤ b) +ℤ c) (a +ℤ (b +ℤ c))
      (omega (arith, +ℤ_parts a b, +ℤ_parts b c, +ℤ_parts (a +ℤ b) c, +ℤ_parts a (b +ℤ c)))

module _ {V : Type 0} (sign : V → V → ℤ) where
  abbrev pub against : V → List V → ℤ
  against x [] = pos 0
  against x (y ∷ ys) = sign x y +ℤ against x ys

  -- The sum over i < j of sign(v[j] - v[i]).
  abbrev pub pairs : List V → ℤ
  pairs [] = pos 0
  pairs (x ∷ xs) = against x xs +ℤ pairs xs

  masked-after : (i j : ℕ) (x : V) (ys : List V) → i < j → masked sign i j x ys ≡ against x ys
  unfolding masked
  masked-after i j x [] h = refl
  masked-after i j x (y ∷ ys) h = rw (lt→ltb i j h, masked-after i (suc j) x ys (omega arith)) refl

  masked-at : (i : ℕ) (x y : V) (ys : List V) → masked sign i i x (y ∷ ys) ≡ against x ys
  unfolding masked
  masked-at i x y ys =
      let here : ltb i i ≡ false = ground arith in
      rw (here, masked-after i (suc i) x ys (omega arith)) (zero_add (against x ys))

  masked-before :
      (i j : ℕ) (x : V) (pre ys : List V)
      → i ≡ j + length pre
      → masked sign i j x (pre ++ ys) ≡ masked sign i i x ys
  unfolding masked
  masked-before i j x [] ys e =
      let same : j ≡ i = omega (arith, e) in ap (λ k. masked sign i k x ys) same
  masked-before i j x (p ∷ pre) ys e =
      let before : ltb i j ≡ false = ground (arith, e) in
      rw before (
        zero_add (masked sign i (suc j) x (pre ++ ys))
        ∙ masked-before i (suc j) x pre ys (omega (arith, e)))

  get_elem?-append :
      (pre : List V) (x : V) (ys : List V) → get_elem? (pre ++ x ∷ ys) (length pre) ≡ some x
  get_elem?-append [] x ys = refl
  get_elem?-append (p ∷ pre) x ys = get_elem?-append pre x ys

  row_sum-found :
      (v : List V) (i : ℕ) (x : V) → get_elem? v i ≡ some x → row_sum sign v i ≡ masked sign i 0 x v
  unfolding row_sum
  row_sum-found v i x e = ground (arith, e)

  row_sum-append :
      (pre : List V) (x : V) (ys : List V)
      → row_sum sign (pre ++ x ∷ ys) (length pre) ≡ against x ys
  row_sum-append pre x ys =
      row_sum-found (pre ++ x ∷ ys) (length pre) x (get_elem?-append pre x ys)
      ∙ masked-before (length pre) 0 x pre (x ∷ ys) (omega arith)
      ∙ masked-at (length pre) x x ys

  -- The rows from the end of `pre` on.
  block-pairs :
      (v pre suf : List V) (k : ℕ)
      → v ≡ pre ++ suf
      → k ≡ length suf - 1
      → block sign v (length pre) k ≡ pairs suf
  unfolding block
  block-pairs v pre [] k e n = let none_left : k ≡ 0 = omega (arith, n) in rw none_left refl
  block-pairs v pre (x ∷ []) k e n =
      let none_left : k ≡ 0 = omega (arith, n) in rw none_left (sym (zero_add (pos 0)))
  block-pairs v pre (x ∷ y ∷ ys) k e n =
      let one_less : k ≡ suc (length ys) = omega (arith, n) in
      let next =
        block-pairs v (pre ++ x ∷ []) (y ∷ ys) (length ys)
          (e ∙ sym (append_assoc pre (x ∷ []) (y ∷ ys))) (omega arith) in
      let place : length (pre ++ x ∷ []) ≡ suc (length pre) =
        omega (arith, length-append pre (x ∷ [])) in
      let head : row_sum sign v (length pre) ≡ against x (y ∷ ys) =
        rw e (row_sum-append pre x (y ∷ ys)) in
      let tail : block sign v (suc (length pre)) (length ys) ≡ pairs (y ∷ ys) = rw place at next in
      rw one_less (ap₂ (λ m n. m +ℤ n) head tail)

  block-split :
      (v : List V) (start a b : ℕ)
      → block sign v start (a + b) ≡ block sign v start a +ℤ block sign v (start + a) b
  unfolding block
  block-split v start zero b =
      let none_before : 0 + b ≡ b = omega arith in
      let same : start + 0 ≡ start = omega arith in
      rw (none_before, same) (sym (zero_add (block sign v start b)))
  block-split v start (suc a) b =
      let one_more : suc a + b ≡ suc (a + b) = omega arith in
      let next : start + suc a ≡ suc start + a = omega arith in
      let row = row_sum sign v start in
      rw (one_more, next)
        (ap (λ n. row +ℤ n) (block-split v (suc start) a b)
          ∙ sym (add_assoc row (block sign v (suc start) a) (block sign v (suc start + a) b)))

  block-nothing :
      (v : List V) (start next k : ℕ)
      → block sign v start k +ℤ block sign v next 0 ≡ block sign v start k
  unfolding block
  block-nothing v start next k = add_zero (block sign v start k)

  -- One block, and the rows after it.
  block-chunk :
      (chunk : ℕ) (v : List V) (start stop : ℕ)
      → start < stop
      → block sign v start (min (start + chunk) stop - start)
          +ℤ block sign v (start + chunk) (stop - (start + chunk))
        ≡ block sign v start (stop - start)
  block-chunk chunk v start stop h = elim (Bool-cases (ltb (start + chunk) stop)) [
    | inl more ↦
        let more_lt = ltb→lt (start + chunk) stop more in
        let size : min (start + chunk) stop - start ≡ chunk = omega (arith, more_lt) in
        let total : stop - start ≡ chunk + (stop - (start + chunk)) = omega (arith, more_lt) in
        rw (size, total) (sym (block-split v start chunk (stop - (start + chunk))))
    | inr last ↦
        let last_le = ltb→le (start + chunk) stop last in
        let size : min (start + chunk) stop - start ≡ stop - start = omega (arith, last_le) in
        let none_left : stop - (start + chunk) ≡ 0 = omega (arith, last_le) in
        rw (size, none_left) (block-nothing v start (start + chunk) (stop - start))
  ]

  blocks-block :
      (chunk : ℕ) (v : List V) (fuel start : ℕ)
      → 1 ≤ chunk
      → length v - 1 ≤ start + fuel
      → blocks sign chunk v fuel start ≡ block sign v start (length v - 1 - start)
  unfolding blocks
  blocks-block chunk v zero start c h =
      let none_left : length v - 1 - start ≡ 0 = omega (arith, h) in rw none_left refl
  blocks-block chunk v (suc fuel) start c h = elim (Bool-cases (ltb start (length v - 1))) [
    | inr over ↦
        let none_left : length v - 1 - start ≡ 0 =
          omega (arith, ltb→le start (length v - 1) over) in
        rw (over, none_left) refl
    | inl inside ↦
        let rest = blocks-block chunk v fuel (start + chunk) c (omega (arith, h, c)) in
        rw (inside, rest)
          (block-chunk chunk v start (length v - 1) (ltb→lt start (length v - 1) inside))
  ]

  -- Kendall's sum over blocks of 512 rows is the sum over all pairs i < j of sign(v[j] - v[i]).
  pub mann_kendall_s-pairs : (values : List V) → mann_kendall_s sign values ≡ pairs values
  unfolding mann_kendall_s
  mann_kendall_s-pairs values =
      blocks-block tau_chunk values (length values) 0 (omega arith) (omega arith)
      ∙ block-pairs values [] values (length values - 1 - 0) refl (omega arith)
