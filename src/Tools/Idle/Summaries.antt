-- ===== src/Tools/Idle/Summaries.antt =====
-- The summaries of python/analytics/tools/idle.py against its periods.
use quer_project_q.Common.{
  ℕ, ◌+◌, ◌≤◌, ◌≡◌, refl, Bool, true, Bool-cases, Option, inl, inr, List, [], ◌∷◌, map, arith,
  length, ltb, ltb→lt, ltb→le, All, All-append, where_holds, sum_of, sum_of-sort_by, ℤ,
}
use quer_project_q.Agent.Config.{Number}
use quer_project_q.Tools.{Event, Answer, found, no_data, bad_argument, Reals}
use quer_project_q.Tools.Grouping.{groups}
use quer_project_q.Tools.Gaps.{or_default}
use quer_project_q.Tools.Idle.{
  Period, HeadIdle, IdlePeriods, period_of, is_long, add_period, per_head, more_idle, longest_from,
  periods_answer, runs_of, cycles_of, breaks, idle_rows, idle_periods,
}

add_period-sums :
    (p : Period) (ds : List HeadIdle)
    → (sum_of (λ d. d.periods) (add_period p ds) ≡ 1 + sum_of (λ d. d.periods) ds)
      × (sum_of (λ d. d.total_seconds) (add_period p ds)
          ≡ p.duration_seconds + sum_of (λ d. d.total_seconds) ds)
unfolding add_period
add_period-sums p [] = (refl, omega arith)
add_period-sums p (d ∷ ds) =
    let rest = add_period-sums p ds in (ground (arith, rest.0), ground (arith, rest.1))

per_head-sums :
    (ds : List HeadIdle) (ps : List Period)
    → (sum_of (λ d. d.periods) (per_head ds ps) ≡ sum_of (λ d. d.periods) ds + length ps)
      × (sum_of (λ d. d.total_seconds) (per_head ds ps)
          ≡ sum_of (λ d. d.total_seconds) ds + sum_of (λ p. p.duration_seconds) ps)
unfolding per_head
per_head-sums ds [] = (omega arith, omega arith)
per_head-sums ds (p ∷ ps) =
    let rest = per_head-sums (add_period p ds) ps in
    let one = add_period-sums p ds in (omega (arith, rest.0, one.0), omega (arith, rest.1, one.1))

longest_from-longest :
    (longest best : Period) (ps : List Period)
    → longest ≡ longest_from best ps
    → (best.duration_seconds ≤ longest.duration_seconds)
      × All (λ p. p.duration_seconds ≤ longest.duration_seconds) ps
unfolding longest_from
longest_from-longest longest best [] e = (rw e (omega arith), tt)
longest_from-longest longest best (p ∷ ps) e =
    elim (Bool-cases (ltb best.duration_seconds p.duration_seconds)) [
      | inl longer ↦
          let rest = longest_from-longest longest p ps (ground (arith, e, longer)) in
          let lt = ltb→lt best.duration_seconds p.duration_seconds longer in
          (omega (arith, rest.0, lt), rest)
      | inr shorter ↦
          let rest = longest_from-longest longest best ps (ground (arith, e, shorter)) in
          let le = ltb→le best.duration_seconds p.duration_seconds shorter in
          (rest.0, (omega (arith, rest.0, le), rest.1))
    ]

-- The periods are long enough and none is longer than the longest, and the heads' numbers and
-- totals add up to those of the periods.
abbrev pub AreSummed : ℤ → IdlePeriods → Type 0
AreSummed threshold v =
    All (λ p. is_long threshold p ≡ true) v.periods
    × All (λ p. p.duration_seconds ≤ v.longest_period.duration_seconds) v.periods
    × (sum_of (λ d. d.periods) v.by_head ≡ length v.periods)
    × (sum_of (λ d. d.total_seconds) v.by_head ≡ v.total_idle_seconds)
    × (v.total_idle_seconds ≡ sum_of (λ p. p.duration_seconds) v.periods)

abbrev pub IdleResult : ℤ → Answer IdlePeriods → Type 0
IdleResult threshold (found v) = AreSummed threshold v
IdleResult threshold no_data = Unit
IdleResult threshold bad_argument = ⊥

kept_hold : {A : Type 0} (p : A → Bool) (xs : List A) → All (λ x. p x ≡ true) (where_holds p xs)
kept_hold p [] = tt
kept_hold p (x ∷ xs) = elim (Bool-cases (p x)) [
  | inl holds ↦ rw holds (holds, kept_hold p xs)
  | inr fails ↦ rw fails (kept_hold p xs)
]

periods-IdleResult :
    (threshold : ℤ) (n : ℕ) (ps : List Period)
    → All (λ p. is_long threshold p ≡ true) ps
    → IdleResult threshold (periods_answer threshold n ps)
unfolding periods_answer
periods-IdleResult threshold n [] h = tt
periods-IdleResult threshold n (p ∷ ps) h =
    let sums = per_head-sums [] (p ∷ ps) in
    let ds = per_head [] (p ∷ ps) in
    (
      h,
      longest_from-longest (longest_from p ps) p ps refl,
      omega (arith, sum_of-sort_by more_idle (λ d. d.periods) ds, sums.0),
      omega (arith, sum_of-sort_by more_idle (λ d. d.total_seconds) ds, sums.1),
      refl,
    )

module _ {Float : Type 0} (R : Reals Float) (no_load : Number Float) (max_gap : ℤ) where
  idle_rows-long :
      (threshold : ℤ) (gs : List (ℤ × List (Event Float)))
      → All (λ p. is_long threshold p ≡ true) (idle_rows R no_load max_gap threshold gs)
  unfolding idle_rows
  idle_rows-long threshold [] = tt
  idle_rows-long threshold (g ∷ gs) =
      let ps =
        map (period_of g.0)
          (runs_of (breaks R no_load max_gap) (cycles_of R no_load max_gap g.1)) in
      All-append (λ p. is_long threshold p ≡ true) (where_holds (is_long threshold) ps)
        (idle_rows R no_load max_gap threshold gs) (kept_hold (is_long threshold) ps)
        (idle_rows-long threshold gs)

  -- Where the tool finds idle periods, each lasts at least the threshold, the longest is at least
  -- as long as each, and the heads' numbers of periods and their totals add up to the number of
  -- periods and to their total.
  pub idle_periods-IdleResult :
      (default : ℤ) (min_seconds : Option ℤ) (es : List (Event Float))
      → IdleResult
          (or_default default min_seconds)
          (idle_periods R no_load max_gap default min_seconds es)
  unfolding idle_periods
  idle_periods-IdleResult default min_seconds es =
      let threshold = or_default default min_seconds in
      periods-IdleResult threshold (length es)
        (idle_rows R no_load max_gap threshold (groups (λ e. e.head_id) es))
        (idle_rows-long threshold (groups (λ e. e.head_id) es))
