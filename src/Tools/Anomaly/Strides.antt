-- ===== src/Tools/Anomaly/Strides.antt =====
-- The rows that `_sample` of python/analytics/tools/anomaly.py keeps.
use native.Mathlib.Nat.{
  mod-lt, suc-mod, mod-eq_of_lt, mod_self, mul-suc, zero-mod, mul_comm, mul-le-mul_left,
  lt-mul-div-succ,
}
use quer_project_q.Common.{
  ℕ, zero, suc, ◌+◌, ◌-◌, ◌*◌, ◌/◌, ◌%◌, ◌≤◌, ◌<◌, ◌≡◌, refl, ap, ◌∙◌, Bool, Bool-cases, inl, inr,
  ◌⊎◌, some, List, [], ◌∷◌, arith, ltb→lt, ltb→le, ltb, leb, ◌==◌, if◌then◌else◌, length, take,
  sort_by, length-sort_by, length-take,
}
use quer_project_q.Tools.Anomaly.{Sample, stride_of, strided, with_total, sample}

-- The rows that are passed over before the next one that is kept.
abbrev wait : ℕ → ℕ → ℕ
wait stride before = if before % stride == 0 then 0 else stride - before % stride

-- The next remainder.
mod-next :
    (before stride : ℕ)
    → 0 < stride
    → suc before % stride ≡ (if suc (before % stride) == stride then 0 else suc (before % stride))
mod-next before stride h = elim (Bool-cases (suc (before % stride) == stride)) [
  | inl last ↦
      let same : suc (before % stride) ≡ stride = ground (arith, last) in
      rw last (suc-mod before stride ∙ ap (λ k. k % stride) same ∙ mod_self stride)
  | inr inner ↦
      let below : suc (before % stride) < stride = ground (arith, inner, mod-lt before h) in
      rw inner (suc-mod before stride ∙ mod-eq_of_lt below)
]

wait-kept :
    (before stride : ℕ) → 0 < stride → before % stride ≡ 0 → wait stride (suc before) ≡ stride - 1
wait-kept before stride h e = ground (arith, mod-next before stride h, e)

wait-passed :
    (before stride : ℕ)
    → 0 < stride
    → 0 < before % stride
    → stride - before % stride ≡ suc (wait stride (suc before))
wait-passed before stride h e = ground (arith, mod-next before stride h, mod-lt before h)

wait-bound : (before stride : ℕ) → 0 < stride → wait stride before < stride
wait-bound before stride h = ground arith

stride-positive : (total limit : ℕ) → 0 < stride_of total limit
unfolding stride_of
stride-positive total limit = ground arith

positive_factor : (a b n : ℕ) → n ≤ a * b → 0 < n → 0 < b
positive_factor a zero n h k = absurd (omega (arith, h, k))
positive_factor a (suc b) n h k = omega arith

-- As many strides as the limit cover all rows.
stride-covers : (limit total : ℕ) → 1 ≤ limit → total ≤ stride_of total limit * limit
unfolding stride_of
stride-covers limit total h =
    let ceiling = (total + (limit - 1)) / limit in
    let upper : total + (limit - 1) < limit * (ceiling + 1) =
      lt-mul-div-succ (total + (limit - 1)) h in
    let more = mul-suc limit ceiling in
    let turn = mul_comm limit ceiling in
    elim (Bool-cases (ltb ceiling 1)) [
      | inl few ↦
          let none_left : ceiling ≡ 0 = ground (arith, few) in
          let bound = rw none_left at upper in rw few (omega (arith, bound))
      | inr many ↦ rw many (omega (arith, upper, more, turn))
    ]

-- So no more rows than the limit are kept.
within_limit :
    (limit total kept stride : ℕ)
    → total ≤ stride * limit
    → stride * kept < total + stride
    → kept ≤ limit
within_limit limit total kept stride covers few = elim (Bool-cases (ltb limit kept)) [
  | inr fits ↦ ltb→le limit kept fits
  | inl over ↦
      let product : stride * suc limit ≤ stride * kept =
        mul-le-mul_left stride (ltb→lt limit kept over) in
      absurd (omega (arith, product, mul-suc stride limit))
]

module _ {A : Type 0} where
  -- What is kept reaches to the end, and no further than to it.
  strided-Spans :
      (stride before : ℕ) (xs : List A)
      → 0 < stride
      → let kept = length (strided stride before xs) in
        (length xs ≤ stride * kept + wait stride before)
        × (stride * kept + wait stride before < length xs + stride)
  unfolding strided
  strided-Spans stride before [] h = ground (arith, wait-bound before stride h)
  strided-Spans stride before (x ∷ xs) h = elim (Bool-cases (before % stride == 0)) [
    | inl kept ↦
        let rest = strided-Spans stride (suc before) xs h in
        let next = wait-kept before stride h (ground (arith, kept)) in
        let more = mul-suc stride (length (strided stride (suc before) xs)) in
        rw kept (omega (arith, rest.0, next, more), omega (arith, rest.1, next, more))
    | inr passed ↦
        let rest = strided-Spans stride (suc before) xs h in
        let next = wait-passed before stride h (ground (arith, passed)) in
        rw passed (omega (arith, rest.0, next), omega (arith, rest.1, next))
  ]

  first_kept :
      (stride : ℕ) (x : A) (xs : List A)
      → 0 < stride
      → (rest : List A) × (strided stride 0 (x ∷ xs) ≡ x ∷ rest)
  unfolding strided
  first_kept stride x xs h = (strided stride 1 xs, rw (zero-mod stride) refl)

  take_whole : (n : ℕ) (xs : List A) → length xs ≤ n → take n xs ≡ xs
  take_whole zero [] h = refl
  take_whole zero (x ∷ xs) h = absurd (omega (arith, h))
  take_whole (suc n) [] h = refl
  take_whole (suc n) (x ∷ xs) h = ap (λ ys. x ∷ ys) (take_whole n xs (omega (arith, h)))

  with_total-some :
      (total : ℕ) (xs : List A)
      → 0 < length xs
      → with_total total xs ≡ some (record { listed = xs; total = total })
  with_total-some total [] h = absurd (omega (arith, h))
  with_total-some total (x ∷ xs) h = refl

module _ {A : Type 0} (in_query in_rank : A → A → Bool) (limit : ℕ) (found_rows : List A) where
  abbrev total_rows : ℕ
  total_rows = length found_rows

  abbrev stride : ℕ
  stride = stride_of total_rows limit

  abbrev every_stride : List A
  every_stride = strided stride 0 (sort_by in_rank found_rows)

  -- All rows, or every stride-th one: from the first one on, up to the last stride of them.
  abbrev pub IsSample : Sample A → Type 0
  IsSample s =
      (s.total ≡ length found_rows)
      × (length s.listed ≤ limit)
      × (((length found_rows ≤ limit) × (s.listed ≡ sort_by in_query found_rows))
          ⊎ ((limit < length found_rows)
              × (s.listed ≡ every_stride)
              × (length found_rows ≤ stride * length s.listed)))

  every_stride-Spans :
      1 ≤ limit → (length every_stride ≤ limit) × (total_rows ≤ stride * length every_stride)
  every_stride-Spans h =
      let spans =
        strided-Spans stride 0 (sort_by in_rank found_rows) (stride-positive total_rows limit) in
      let same = length-sort_by in_rank found_rows in
      let start : wait stride 0 ≡ 0 = ground (arith, zero-mod stride) in
      (
        within_limit limit total_rows (length every_stride) stride
            (stride-covers limit total_rows h) (omega (arith, spans.1, same, start)),
        omega (arith, spans.0, same, start),
      )

  strided_sample :
      length every_stride ≤ limit
      → 0 < length every_stride
      → let ranked = sort_by in_rank found_rows in
        with_total (length ranked) (take limit (strided (stride_of (length ranked) limit) 0 ranked))
        ≡ some (record { listed = every_stride; total = total_rows })
  strided_sample fits some_row =
      let ranked = sort_by in_rank found_rows in
      ap (λ n. with_total n (take limit (strided (stride_of n limit) 0 ranked)))
        (length-sort_by in_rank found_rows)
      ∙ ap (with_total total_rows) (take_whole limit every_stride fits)
      ∙ with_total-some total_rows every_stride some_row

  -- With a limit of at least 1 a sample is always given, with the exact total and no more rows than
  -- the limit: all rows in the query's order if they are within it, and else every stride-th row of
  -- the ranking, a stride being so long that none of these is cut off by the limit.
  pub sample-IsSample :
      1 ≤ limit → (s : Sample A) × (sample in_query in_rank limit found_rows ≡ some s) × IsSample s
  unfolding sample
  sample-IsSample h =
      let in_order = sort_by in_query found_rows in
      let rows = take (limit + 1) in_order in
      let size = length-sort_by in_query found_rows in
      let taken = length-take (limit + 1) in_order in
      elim (Bool-cases (leb (length rows) limit)) [
        | inl fits ↦
            let few : total_rows ≤ limit = ground (arith, fits, taken, size) in
            let all : rows ≡ in_order =
              take_whole (limit + 1) in_order (omega (arith, few, size)) in
            let count : length rows ≡ total_rows = ap length all ∙ size in
            (
              record { listed = rows; total = length rows },
              rw fits refl,
              (count, omega (arith, count, few), inl (few, all)),
            )
        | inr over ↦
            let many : limit < total_rows = ground (arith, over, taken, size) in
            let spans = every_stride-Spans h in
            let some_row : 0 < length every_stride =
              positive_factor stride (length every_stride) total_rows spans.1
                (omega (arith, many)) in
            (
              record { listed = every_stride; total = total_rows },
              rw over (strided_sample spans.0 some_row),
              (refl, spans.0, inr (many, refl, spans.1)),
            )
      ]
