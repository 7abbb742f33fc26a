-- ===== src/Tools/Factors.antt =====
-- python/analytics/tools/factors.py, on the rows in scope. Rates, the test on the expected counts, the
-- chi-square sum and its tail, and what is computed of REAL columns are parameters.
pub mod Parts
mod Tests
use quer_project_q.Common.{
  ℕ, ◌-◌, ◌/◌, ◌%◌, ◌+◌, Bool, true, false, not, ◌&&◌, ◌||◌, String, str_eq, Option, none, some,
  List, [], ◌∷◌, map, ltb, ◌==◌, if◌then◌else◌, where_holds, sum_of, length, ℤ, pos, ltb_ℤ,
}
use quer_project_q.Agent.Config.{Number}
use quer_project_q.Tools.{Event, Answer, found, no_data, bad_argument, Reals, holds}
use quer_project_q.Tools.Grouping.{groups, count_where}

-- `FACTORS`
pub data Factor : Type 0 where
  hour_of_day torque : Factor

-- `by in FACTORS`
unfoldable pub factor_of : String → Option Factor
factor_of s =
    if str_eq s "hour_of_day"
    then some hour_of_day
    else if str_eq s "torque"
    then some torque
    else none

pub record Arithmetic (Float : Type 0) : Type 0 where
  pub ratio : ℕ → ℕ → Float
  pub less : Float → Float → Bool
  pub expects_enough : ℕ → Float → Bool
  pub chi_square : List (ℕ × ℕ) → Float → Float
  pub tail : ℕ → Float → Float
  pub correlation : List (Float × Bool) → Option Float
  pub mean : List Float → Option Float

pub record Hour (Float : Type 0) : Type 0 where
  pub hour : ℤ
  pub closures : ℕ
  pub rejected : ℕ
  pub reject_rate : Float

-- The note beside the hours, if there is one.
pub data Note : Type 0 where
  nothing_to_test too_few_rejects : Note

pub record Hours (Float : Type 0) : Type 0 where
  pub hours : List (Hour Float)
  pub closures : ℕ
  pub rejected : ℕ
  pub reject_rate : Float
  pub chi_square : Option Float
  pub degrees_of_freedom : ℕ
  pub p_value : Option Float
  pub highest : Hour Float
  pub lowest : Hour Float
  pub note : Option Note

pub data Zone : Type 0 where
  below inside above : Zone

pub record ZoneRow (Float : Type 0) : Type 0 where
  pub zone : Zone
  pub closures : ℕ
  pub rejected : ℕ
  pub reject_rate : Option Float

pub record Zones (Float : Type 0) : Type 0 where
  pub closures : ℕ
  pub correlation : Option Float
  pub mean_torque_successful : Option Float
  pub mean_torque_rejected : Option Float
  pub zones : List (ZoneRow Float)

pub data Factors (Float : Type 0) : Type 0 where
  by_hour : Hours Float → Factors Float
  by_torque : Zones Float → Factors Float

-- HOUR(ts)
abbrev pub hour_number : {Float : Type 0} → Event Float → ℤ
hour_number e = pos (e.ts / 3600000000 % 24)

abbrev pub same_zone : Zone → Zone → Bool
same_zone below below = true
same_zone inside inside = true
same_zone above above = true
same_zone y z = false

module _ {Float : Type 0} (R : Reals Float) (D : Arithmetic Float)
    (success torque_min torque_max : Number Float) where
  open R use {positive, equals, over, under, odd}
  open D use {ratio, less, expects_enough, chi_square, tail, correlation, mean}

  abbrev pub is_success : Event Float → Bool
  is_success e = holds (λ s. equals s success) e.status

  abbrev pub is_reject : Event Float → Bool
  is_reject e = holds odd e.status

  -- A closure with a verdict.
  abbrev pub has_verdict : Event Float → Bool
  has_verdict e = holds positive e.app_torque && (is_success e || is_reject e)

  unfoldable pub hour_row : ℤ × List (Event Float) → Hour Float
  hour_row g = record {
    hour = g.0;
    closures = length g.1;
    rejected = count_where is_reject g.1;
    reject_rate = ratio (count_where is_reject g.1) (length g.1);
  }

  -- max(ranked, key=…): the highest rate, of equal ones the earliest hour. `max` keeps the first.
  unfoldable pub highest_from : Hour Float → List (Hour Float) → Hour Float
  highest_from best [] = best
  highest_from best (h ∷ hs) =
      highest_from (if less best.reject_rate h.reject_rate then h else best) hs

  -- min(ranked, key=…)
  unfoldable pub lowest_from : Hour Float → List (Hour Float) → Hour Float
  lowest_from best [] = best
  lowest_from best (h ∷ hs) =
      lowest_from (if less h.reject_rate best.reject_rate then h else best) hs

  -- `expected_ok`
  abbrev pub expected_ok : Float → List (Hour Float) → Bool
  expected_ok rate [] = true
  expected_ok rate (h ∷ hs) = expects_enough h.closures rate && expected_ok rate hs

  abbrev pub note_on : ℕ → Float → List (Hour Float) → Option Note
  note_on rejected rate hours =
      if rejected == 0 || ltb (length hours) 2
      then some nothing_to_test
      else if not (expected_ok rate hours)
      then some too_few_rejects
      else none

  -- The statistic, where the test is made.
  abbrev pub tested : Option Note → Float → List (Hour Float) → Option Float
  tested none rate hours = some (chi_square (map (λ h. (h.closures, h.rejected)) hours) rate)
  tested (some note) rate hours = none

  abbrev pub tail_of : ℕ → Option Float → Option Float
  tail_of df none = none
  tail_of df (some chi2) = some (tail df chi2)

  -- `_hour_of_day`, on the hours of the query.
  unfoldable pub hours_of : List (Hour Float) → Answer (Factors Float)
  unfolding highest_from lowest_from
  hours_of [] = no_data
  hours_of (h ∷ hs) =
      let total = sum_of (λ k. k.closures) (h ∷ hs) in
      let rejected = sum_of (λ k. k.rejected) (h ∷ hs) in
      let rate = ratio rejected total in
      let note = note_on rejected rate (h ∷ hs) in
      let df = length hs in
      let chi2 = tested note rate (h ∷ hs) in
      found (
        by_hour (record {
          hours = h ∷ hs;
          closures = total;
          rejected = rejected;
          reject_rate = rate;
          chi_square = chi2;
          degrees_of_freedom = df;
          p_value = tail_of df chi2;
          highest = highest_from h hs;
          lowest = lowest_from h hs;
          note = note;
        }))

  -- `zone`, of the torque of a closure
  abbrev pub zone_of : Event Float → Zone
  zone_of e =
      if holds (λ x. under x torque_min) e.app_torque
      then below
      else if holds (λ x. over x torque_max) e.app_torque
      then above
      else inside

  -- A zone's count, 0 where no closure is in it.
  unfoldable pub zone_row : List (Event Float) → Zone → ZoneRow Float
  zone_row es z =
      let n = count_where (λ e. same_zone (zone_of e) z) es in
      let k = count_where (λ e. same_zone (zone_of e) z && is_reject e) es in
      record {
        zone = z;
        closures = n;
        rejected = k;
        reject_rate = if n == 0 then none else some (ratio k n);
      }

  abbrev pub torques : List (Event Float) → List Float
  torques [] = []
  torques (e ∷ es) = elim e.app_torque [ none ↦ torques es | some x ↦ x ∷ torques es ]

  -- The torques, each with whether the closure is a success.
  abbrev pub verdicts : List (Event Float) → List (Float × Bool)
  verdicts [] = []
  verdicts (e ∷ es) = elim e.app_torque [
    | none ↦ verdicts es
    | some x ↦ (x, is_success e) ∷ verdicts es
  ]

  -- `_torque`; a correlation that is nan is NULL here.
  unfoldable pub zones_of : List (Event Float) → Answer (Factors Float)
  unfolding zone_row
  zones_of [] = no_data
  zones_of (e ∷ es) = found (
      by_torque (record {
        closures = length (e ∷ es);
        correlation = correlation (verdicts (e ∷ es));
        mean_torque_successful = mean (torques (where_holds is_success (e ∷ es)));
        mean_torque_rejected = mean (torques (where_holds is_reject (e ∷ es)));
        zones = map (zone_row (e ∷ es)) (below ∷ inside ∷ above ∷ []);
      }))

  unfoldable pub factors_by : Factor → List (Event Float) → Answer (Factors Float)
  unfolding hours_of hour_row zones_of
  factors_by hour_of_day judged = hours_of (map hour_row (groups hour_number judged))
  factors_by torque judged = zones_of judged

  abbrev pub factors_if : Option Factor → List (Event Float) → Answer (Factors Float)
  factors_if none rows = bad_argument
  factors_if (some by) rows = factors_by by (where_holds has_verdict rows)

  -- `failure_correlation` on the rows in scope.
  unfoldable pub failure_correlation : String → List (Event Float) → Answer (Factors Float)
  unfolding factor_of factors_by
  failure_correlation by rows = factors_if (factor_of by) rows
