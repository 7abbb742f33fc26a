-- ===== src/Tools/Gaps/Silences.antt =====
-- That the gaps of python/analytics/tools/gaps.py are the stretches without a row of any head.
use quer_project_q.Common.{
  ℕ, ◌≤◌, ◌<◌, ◌≡◌, refl, ap, ap₂, ◌∙◌, Bool, true, Bool-cases, inl, inr, ◌⊎◌, ◌↔◌, List, [], ◌∷◌,
  arith, ltb, ◌==◌, All, All-imp, All-IsIn, All-self, IsIn, where_holds-IsIn, IsIn-where_holds, ℤ,
  pos, ltb_ℤ, map,
}
use quer_project_q.Tools.{Event}
use quer_project_q.Tools.Gaps.{
  Gap, seconds_between, gap_of, add_poll, steps_from, steps, polls, gaps_of,
}

-- No timestamp stands strictly between the two.
abbrev pub IsSilent : ℕ → ℕ → List ℕ → Type 0
IsSilent a b ts = All (λ t. (t ≤ a) ⊎ (b ≤ t)) ts

-- In order, without repeats.
abbrev IsIncreasing : List ℕ → Type 0
IsIncreasing [] = Unit
IsIncreasing (t ∷ ts) = All (λ u. t < u) ts × IsIncreasing ts

module _ (P : ℕ → Type 0) where
  add_poll-All : (t : ℕ) (us : List ℕ) → P t → All P us → All P (add_poll t us)
  unfolding add_poll
  add_poll-All t [] h k = (h, tt)
  add_poll-All t (u ∷ us) h k = elim (Bool-cases (ltb t u)) [
    | inl before ↦ rw before (h, k)
    | inr after ↦ elim (Bool-cases (t == u)) [
      | inl same ↦ rw (after, same) k
      | inr other ↦ rw (after, other) (k.0, add_poll-All t us h k.1)
    ]
  ]

  All-add_poll : (t : ℕ) (us : List ℕ) → All P (add_poll t us) → P t × All P us
  unfolding add_poll
  All-add_poll t [] h = h
  All-add_poll t (u ∷ us) h = elim (Bool-cases (ltb t u)) [
    | inl before ↦ rw before at h
    | inr after ↦ elim (Bool-cases (t == u)) [
      | inl same ↦
          let k : All P (u ∷ us) = rw (after, same) at h in
          let e : t ≡ u = ground (arith, same) in (rw e k.0, k)
      | inr other ↦
          let k : All P (u ∷ add_poll t us) = rw (after, other) at h in
          let rest = All-add_poll t us k.1 in (rest.0, (k.0, rest.1))
    ]
  ]

add_poll-IsIncreasing : (t : ℕ) (us : List ℕ) → IsIncreasing us → IsIncreasing (add_poll t us)
unfolding add_poll
add_poll-IsIncreasing t [] h = (tt, tt)
add_poll-IsIncreasing t (u ∷ us) h = elim (Bool-cases (ltb t u)) [
  | inl before ↦
      let lt : t < u = ground (arith, before) in
      rw before ((lt, All-imp (λ v. u < v) (λ v. t < v) us (λ v k. omega (arith, k, lt)) h.0), h)
  | inr after ↦ elim (Bool-cases (t == u)) [
    | inl same ↦ rw (after, same) h
    | inr other ↦
        let gt : u < t = ground (arith, after, other) in
        rw (after, other) (add_poll-All (λ v. u < v) t us gt h.0, add_poll-IsIncreasing t us h.1)
  ]
]

add_poll-IsIn : (a t : ℕ) (us : List ℕ) → IsIn a (add_poll t us) → (a ≡ t) ⊎ IsIn a us
add_poll-IsIn a t us i =
    let P : ℕ → Type 0 = λ v. (v ≡ t) ⊎ IsIn v us in
    All-IsIn P a (add_poll t us)
      (add_poll-All P t us (inl refl) (All-imp (λ v. IsIn v us) P us (λ v j. inr j) (All-self us)))
      i

IsIn-add_poll : (a t : ℕ) (us : List ℕ) → (a ≡ t) ⊎ IsIn a us → IsIn a (add_poll t us)
unfolding add_poll
IsIn-add_poll a t [] h = h
IsIn-add_poll a t (u ∷ us) h = elim (Bool-cases (ltb t u)) [
  | inl before ↦ rw before h
  | inr after ↦ elim (Bool-cases (t == u)) [
    | inl same ↦
        let e : t ≡ u = ground (arith, same) in
        rw (after, same) (elim h [ inl new ↦ inl (new ∙ e) | inr old ↦ old ])
    | inr other ↦
        rw (after, other)
          (elim h [
            | inl new ↦ inr (IsIn-add_poll a t us (inl new))
            | inr (inl first) ↦ inl first
            | inr (inr later) ↦ inr (IsIn-add_poll a t us (inr later))
          ])
  ]
]

steps_from_sound :
    (a b p : ℕ) (ts : List ℕ)
    → IsIncreasing (p ∷ ts)
    → IsIn (gap_of a b) (steps_from p ts)
    → IsIn a (p ∷ ts) × IsIn b ts × (a < b) × IsSilent a b (p ∷ ts)
steps_from_sound a b p [] sorted i = absurd i
steps_from_sound a b p (t ∷ ts) sorted (inl e) =
    let ea : a ≡ p = ap (λ g. g.start) e in
    let eb : b ≡ t = ap (λ g. g.end_ts) e in
    let lt : p < t = sorted.0.0 in
    (
      inl ea,
      inl eb,
      omega (arith, ea, eb, lt),
      (
        inl (omega (arith, ea)),
        (
          inr (omega (arith, eb)),
          All-imp (λ u. t < u) (λ u. (u ≤ a) ⊎ (b ≤ u)) ts (λ u k. inr (omega (arith, eb, k)))
              sorted.1.0,
        ),
      ),
    )
steps_from_sound a b p (t ∷ ts) sorted (inr i) =
    let rest = steps_from_sound a b t ts sorted.1 i in
    let lt : p < a = All-IsIn (λ u. p < u) a (t ∷ ts) sorted.0 rest.0 in
    (inr rest.0, inr rest.1, rest.2, (inl (omega (arith, lt)), rest.3))

steps_from_complete :
    (a b p : ℕ) (ts : List ℕ)
    → IsIncreasing (p ∷ ts)
    → IsIn a (p ∷ ts)
    → IsIn b (p ∷ ts)
    → a < b
    → IsSilent a b (p ∷ ts)
    → IsIn (gap_of a b) (steps_from p ts)
steps_from_complete a b p [] sorted (inl ea) (inl eb) lt silent = absurd (omega (arith, ea, eb, lt))
steps_from_complete a b p [] sorted (inl ea) (inr ib) lt silent = absurd ib
steps_from_complete a b p [] sorted (inr ia) ib lt silent = absurd ia
steps_from_complete a b p (t ∷ ts) sorted (inl ea) (inl eb) lt silent =
    absurd (omega (arith, ea, eb, lt))
steps_from_complete a b p (t ∷ ts) sorted (inl ea) (inr (inl eb)) lt silent = inl (ap₂ gap_of ea eb)
steps_from_complete a b p (t ∷ ts) sorted (inl ea) (inr (inr ib)) lt silent =
    let far : t < b = All-IsIn (λ u. t < u) b ts sorted.1.0 ib in
    let near : p < t = sorted.0.0 in
    absurd (elim silent.1.0 [
      | inl low ↦ omega (arith, ea, near, low)
      | inr high ↦ omega (arith, far, high)
    ])
steps_from_complete a b p (t ∷ ts) sorted (inr ia) (inl eb) lt silent =
    let after : p < a = All-IsIn (λ u. p < u) a (t ∷ ts) sorted.0 ia in
    absurd (omega (arith, eb, after, lt))
steps_from_complete a b p (t ∷ ts) sorted (inr ia) (inr ib) lt silent =
    inr (steps_from_complete a b t ts sorted.1 ia ib lt silent.1)

steps_sound :
    (a b : ℕ) (ts : List ℕ)
    → IsIncreasing ts
    → IsIn (gap_of a b) (steps ts)
    → IsIn a ts × IsIn b ts × (a < b) × IsSilent a b ts
unfolding steps
steps_sound a b [] sorted i = absurd i
steps_sound a b (p ∷ ts) sorted i =
    let all = steps_from_sound a b p ts sorted i in (all.0, inr all.1, all.2, all.3)

steps_complete :
    (a b : ℕ) (ts : List ℕ)
    → IsIncreasing ts
    → IsIn a ts
    → IsIn b ts
    → a < b
    → IsSilent a b ts
    → IsIn (gap_of a b) (steps ts)
unfolding steps
steps_complete a b [] sorted ia ib lt silent = absurd ia
steps_complete a b (p ∷ ts) sorted ia ib lt silent =
    steps_from_complete a b p ts sorted ia ib lt silent

module _ {Float : Type 0} where
  -- `ts` of every row
  abbrev pub times : List (Event Float) → List ℕ
  times es = map (λ e. e.ts) es

  polls-IsIncreasing : (es : List (Event Float)) → IsIncreasing (polls es)
  unfolding polls
  polls-IsIncreasing [] = tt
  polls-IsIncreasing (e ∷ es) = add_poll-IsIncreasing e.ts (polls es) (polls-IsIncreasing es)

  polls-All : (P : ℕ → Type 0) (es : List (Event Float)) → All P (times es) → All P (polls es)
  unfolding polls
  polls-All P [] h = tt
  polls-All P (e ∷ es) h = add_poll-All P e.ts (polls es) h.0 (polls-All P es h.1)

  All-polls : (P : ℕ → Type 0) (es : List (Event Float)) → All P (polls es) → All P (times es)
  unfolding polls
  All-polls P [] h = tt
  All-polls P (e ∷ es) h =
      let both = All-add_poll P e.ts (polls es) h in (both.0, All-polls P es both.1)

  polls-IsIn : (a : ℕ) (es : List (Event Float)) → IsIn a (polls es) → IsIn a (times es)
  unfolding polls
  polls-IsIn a [] i = i
  polls-IsIn a (e ∷ es) i = elim (add_poll-IsIn a e.ts (polls es) i) [
    | inl here ↦ inl here
    | inr later ↦ inr (polls-IsIn a es later)
  ]

  IsIn-polls : (a : ℕ) (es : List (Event Float)) → IsIn a (times es) → IsIn a (polls es)
  unfolding polls
  IsIn-polls a [] i = i
  IsIn-polls a (e ∷ es) (inl here) = IsIn-add_poll a e.ts (polls es) (inl here)
  IsIn-polls a (e ∷ es) (inr later) = IsIn-add_poll a e.ts (polls es) (inr (IsIn-polls a es later))

  -- Two timestamps of rows, more than the threshold apart, with no row between them.
  abbrev pub IsSilence : ℤ → List (Event Float) → ℕ → ℕ → Type 0
  IsSilence threshold es a b =
      IsIn a (times es)
      × IsIn b (times es)
      × (a < b)
      × IsSilent a b (times es)
      × (ltb_ℤ threshold (pos (seconds_between a b)) ≡ true)

  -- A stretch of time is reported as a gap exactly if it runs from the timestamp of a row to that
  -- of a later one, no row of any head stands between them, and they are more than the threshold
  -- of seconds apart.
  pub gaps_of_iff :
      (threshold : ℤ) (es : List (Event Float)) (a b : ℕ)
      → IsIn (gap_of a b) (gaps_of threshold es) ↔ IsSilence threshold es a b
  unfolding gaps_of
  gaps_of_iff threshold es a b =
      let long : Gap → Bool = λ g. ltb_ℤ threshold (pos g.duration_seconds) in
      (
        (λ i.
            let kept = where_holds-IsIn long (gap_of a b) (steps (polls es)) i in
            let all = steps_sound a b (polls es) (polls-IsIncreasing es) kept.0 in
            (
              polls-IsIn a es all.0,
              polls-IsIn b es all.1,
              all.2,
              All-polls (λ t. (t ≤ a) ⊎ (b ≤ t)) es all.3,
              kept.1,
            )),
        (λ h.
            IsIn-where_holds long (gap_of a b) (steps (polls es))
              (steps_complete a b (polls es) (polls-IsIncreasing es) (IsIn-polls a es h.0)
                (IsIn-polls b es h.1) h.2 (polls-All (λ t. (t ≤ a) ⊎ (b ≤ t)) es h.3))
              h.4),
      )
