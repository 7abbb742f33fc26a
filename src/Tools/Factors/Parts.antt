-- ===== src/Tools/Factors/Parts.antt =====
-- The parts that python/analytics/tools/factors.py counts the closures with a verdict in.
use quer_project_q.Common.{
  ◌+◌, ◌≤◌, ◌≡◌, Bool, ◌⊎◌, String, none, some, List, where_holds, sum_of, length,
}
use quer_project_q.Agent.Config.{Number}
use quer_project_q.Tools.{Event, Answer, found, no_data, bad_argument, Reals}
use quer_project_q.Tools.Grouping.{count_where}
use quer_project_q.Tools.Factors.{
  Factor, hour_of_day, torque, factor_of, Arithmetic, Hours, Note, Zone, Factors, by_hour,
  by_torque, same_zone, is_reject, has_verdict, zone_of,
}

module _ {Float : Type 0} (R : Reals Float) (D : Arithmetic Float)
    (success torque_min torque_max : Number Float) where
  abbrev reject : Event Float → Bool
  reject e = is_reject R D success torque_min torque_max e

  abbrev judged : List (Event Float) → List (Event Float)
  judged rows = where_holds (has_verdict R D success torque_min torque_max) rows

  -- A test is made of at least one reject in at least two hours, or there is a note and no test.
  IsTested : Hours Float → Type 0
  IsTested h =
      ((h.note ≡ none)
        × (1 ≤ h.rejected)
        × (2 ≤ length h.hours)
        × ((p : Float) × (h.p_value ≡ some p)))
      ⊎ ((h.p_value ≡ none) × ((n : Note) × (h.note ≡ some n)))

  -- The counts of the closures that have a verdict.
  AreParts : Factor → List (Event Float) → Factors Float → Type 0
  AreParts torque es (by_hour h) = ⊥
  AreParts hour_of_day es (by_torque z) = ⊥
  AreParts hour_of_day es (by_hour h) =
      (h.closures ≡ length es)
      × (h.rejected ≡ count_where reject es)
      × (h.degrees_of_freedom + 1 ≡ length h.hours)
      × IsTested h
  AreParts torque es (by_torque z) =
      (z.closures ≡ length es)
      × (sum_of (λ r. r.closures) z.zones ≡ length es)
      × (sum_of (λ r. r.rejected) z.zones ≡ count_where reject es)

  abbrev in_zone : Zone → Event Float → Bool
  in_zone z e = same_zone (zone_of R D success torque_min torque_max e) z

  -- What is answered on the closures with a verdict.
  OnJudged : Factor → List (Event Float) → Answer (Factors Float) → Type 0
  OnJudged by es bad_argument = ⊥
  OnJudged by es no_data = length es ≡ 0
  OnJudged by es (found f) = AreParts by es f

  -- An unknown factor, or what is answered on the closures with a verdict.
  pub FactorResult : String → List (Event Float) → Answer (Factors Float) → Type 0
  FactorResult by rows bad_argument = factor_of by ≡ none
  FactorResult by rows no_data = (f : Factor) × (factor_of by ≡ some f) × (length (judged rows) ≡ 0)
  FactorResult by rows (found v) =
      (f : Factor) × (factor_of by ≡ some f) × AreParts f (judged rows) v
