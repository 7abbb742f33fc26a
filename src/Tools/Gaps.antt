-- ===== src/Tools/Gaps.antt =====
-- python/analytics/tools/gaps.py. The total in hours is a float, a parameter.
pub mod Silences
use quer_project_q.Common.{
  ℕ, suc, ◌+◌, ◌-◌, ◌/◌, ◌≤◌, ◌<◌, ◌≡◌, refl, ap, sym, Bool, true, Option, none, some, inl, inr,
  ◌⊎◌, ◌↔◌, List, [], ◌∷◌, arith, ltb, ◌==◌, if◌then◌else◌, length, All, All-imp, All-IsIn, IsIn,
  where_holds, where_holds-IsIn, IsIn-where_holds, ℤ, pos, ltb_ℤ, map,
}
use quer_project_q.Tools.{Event, Answer, found, no_data}

pub record Gap : Type 0 where
  pub start : ℕ
  pub end_ts : ℕ
  pub duration_seconds : ℕ

pub record Gaps (Float : Type 0) : Type 0 where
  pub gaps : List Gap
  pub gap_count : ℕ
  pub total_gap_seconds : ℕ
  pub total_gap_hours : Float
  pub longest_gap : Option Gap
  pub min_seconds : ℤ
  pub rows_scanned : ℕ

-- DATE_DIFF('second', a, b), of two timestamps in microseconds
abbrev pub seconds_between : ℕ → ℕ → ℕ
seconds_between a b = b / 1000000 - a / 1000000

abbrev pub gap_of : ℕ → ℕ → Gap
gap_of a b = record { start = a; end_ts = b; duration_seconds = seconds_between a b }

-- A timestamp into the ones that are there, in order and without repeats.
unfoldable pub add_poll : ℕ → List ℕ → List ℕ
add_poll t [] = t ∷ []
add_poll t (u ∷ us) =
    let rest = add_poll t us in if ltb t u then t ∷ u ∷ us else if t == u then u ∷ us else u ∷ rest

-- LAG(ts) OVER (ORDER BY ts): each timestamp after the first, with the one before it.
abbrev steps_from : ℕ → List ℕ → List Gap
steps_from prev [] = []
steps_from prev (t ∷ ts) = gap_of prev t ∷ steps_from t ts

unfoldable pub steps : List ℕ → List Gap
steps [] = []
steps (t ∷ ts) = steps_from t ts

abbrev pub total_seconds : List Gap → ℕ
total_seconds [] = 0
total_seconds (g ∷ gs) = g.duration_seconds + total_seconds gs

-- `max(gaps, key=…)`: the first of the longest.
unfoldable pub longest_from : Gap → List Gap → Gap
longest_from best [] = best
longest_from best (g ∷ gs) =
    longest_from (if ltb best.duration_seconds g.duration_seconds then g else best) gs

unfoldable pub longest : List Gap → Option Gap
unfolding longest_from
longest [] = none
longest (g ∷ gs) = some (longest_from g gs)

abbrev pub or_default : ℤ → Option ℤ → ℤ
or_default d none = d
or_default d (some n) = n

module _ {Float : Type 0} where
  -- SELECT DISTINCT ts, in order
  unfoldable pub polls : List (Event Float) → List ℕ
  unfolding add_poll
  polls [] = []
  polls (e ∷ es) = add_poll e.ts (polls es)

  -- The query: the steps of more than the threshold.
  unfoldable pub gaps_of : ℤ → List (Event Float) → List Gap
  unfolding polls steps
  gaps_of threshold es =
      where_holds (λ g. ltb_ℤ threshold (pos g.duration_seconds)) (steps (polls es))

  -- `event_gaps` on the rows in scope, given `cfg.idle_max_gap_seconds`.
  unfoldable pub event_gaps : (ℕ → Float) → ℤ → Option ℤ → List (Event Float) → Answer (Gaps Float)
  unfolding gaps_of longest
  event_gaps hours max_gap min_seconds [] = no_data
  event_gaps hours max_gap min_seconds (e ∷ es) =
      let threshold = or_default max_gap min_seconds in
      let gaps = gaps_of threshold (e ∷ es) in
      found (record {
        gaps = gaps;
        gap_count = length gaps;
        total_gap_seconds = total_seconds gaps;
        total_gap_hours = hours (total_seconds gaps);
        longest_gap = longest gaps;
        min_seconds = threshold;
        rows_scanned = length (e ∷ es);
      })
