-- ===== src/Tools/Anomaly/Flags.antt =====
-- `anomalies` of python/analytics/tools/anomaly.py on the rows in scope. Medians, quantiles and the
-- tests on REAL columns are parameters; the sentences of a reason are left out.
pub mod Conditions
pub mod Exact
use quer_project_q.Common.{
  ℕ, ◌+◌, Bool, true, false, not, ◌&&◌, ◌||◌, String, str_eq, Option, none, some, ◌>>=◌, List, [],
  ◌∷◌, map, map_option, ltb, ◌==◌, if◌then◌else◌, where_holds, sort_by, length, ℤ, ltb_ℤ, eqb_ℤ,
}
use quer_project_q.Cleaning.Floats.{Floats}
use quer_project_q.Agent.Config.{Number}
use quer_project_q.Agent.Status.{decode}
use quer_project_q.Tools.{Event, Answer, found, bad_argument, Reals, holds}
use quer_project_q.Tools.Filter.{in_time}
use quer_project_q.Tools.Grouping.{groups, count_where}
use quer_project_q.Tools.Overview.{Limits}
use quer_project_q.Tools.Anomaly.{Sample, sample}
use quer_project_q.Tools.Anomaly.Records.{
  Method, method_of, has_threshold, has_deviation, Scale, Fault, Deviation, Bands, Anomalies,
  bump_all, or_unspecified, hit_of, more_hits, scale_at, is_fallback, threshold, mad, iqr, exact,
}

module _ (F : Floats) (R : Reals F.Float) (L : Limits F.Float) (B : Bands F.Float) (cap : ℕ) where
  open F use {Float}
  open R use {positive, odd}
  open L use {less, greater}
  open B use {
    torque_min, torque_max, mad_floor, mad_k, median, distance, half_iqr, scaled, greatest, beyond,
    at_most, real_less, same_status,
  }

  abbrev pub is_cap : Event Float → Bool
  is_cap e = holds positive e.app_torque

  -- REJECT_SQL
  abbrev pub is_fault : Event Float → Bool
  is_fault e = holds odd e.status

  abbrev pub is_out : Event Float → Bool
  is_out e = is_cap e && holds (λ x. less x torque_min || greater x torque_max) e.app_torque

  -- The rank of a hit: the time, the head and the torque.
  abbrev pub hit_rank : Event Float → Event Float → Bool
  hit_rank d e =
      ltb d.ts e.ts
      || (d.ts == e.ts
          && (ltb_ℤ d.head_id e.head_id
              || (eqb_ℤ d.head_id e.head_id && real_less d.app_torque e.app_torque)))

  -- The rank of a fault: then the status.
  abbrev pub fault_rank : Event Float → Event Float → Bool
  fault_rank d e = hit_rank d e || (not (hit_rank e d) && real_less d.status e.status)

  -- The names of a status's conditions; `none` where `int` raises.
  unfoldable pub conditions_of : Float → Option (List String)
  conditions_of status = do decoded ← decode F status; some (or_unspecified decoded.names)

  abbrev pub conditions_at : Option Float → Option (List String)
  conditions_at none = none
  conditions_at (some status) = conditions_of status

  unfoldable pub fault_of : Event Float → Option (Fault Float)
  unfolding conditions_of
  fault_of e = do
    reason ← conditions_at e.status
    some (record { head_id = e.head_id; ts = e.ts; app_torque = e.app_torque; reason = reason })

  -- GROUP BY status: a status into the ones that are there, with their counts.
  unfoldable pub add_status : Option Float → List (Float × ℕ) → List (Float × ℕ)
  add_status none gs = gs
  add_status (some x) [] = (x, 1) ∷ []
  add_status (some x) ((y, n) ∷ gs) =
      let rest = add_status (some x) gs in
      if same_status x y then (y, n + 1) ∷ gs else (y, n) ∷ rest

  unfoldable pub statuses : List (Event Float) → List (Float × ℕ)
  unfolding add_status
  statuses [] = []
  statuses (e ∷ es) = add_status e.status (statuses es)

  -- The loop over the groups.
  unfoldable pub tally : List (Float × ℕ) → List (String × ℕ) → Option (List (String × ℕ))
  unfolding conditions_of bump_all
  tally [] dict = some dict
  tally ((x, n) ∷ gs) dict = do cs ← conditions_of x; tally gs (bump_all n cs dict)

  unfoldable pub scale_of : List Float → Scale Float
  scale_of torques =
      let m = median torques in
      let spread = median (map (λ x. distance x m) torques) in
      let half = half_iqr torques in
      record {
        m = m;
        s = greatest (scaled (if positive spread then spread else half)) mad_floor;
        basis = if positive spread then mad else if positive half then iqr else exact;
      }

  abbrev pub torques_of : List (Event Float) → List Float
  torques_of [] = []
  torques_of (e ∷ es) = elim e.app_torque [ none ↦ torques_of es | some x ↦ x ∷ torques_of es ]

  -- The CTE `scale`.
  unfoldable pub scales : List (Event Float) → List (ℤ × Scale Float)
  unfolding scale_of
  scales caps = map (λ g. (g.0, scale_of (torques_of g.1))) (groups (λ e. e.head_id) caps)

  abbrev pub is_off : Event Float → Option (Scale Float) → Bool
  is_off e none = false
  is_off e (some scale) = holds (λ x. beyond (distance x scale.m) mad_k scale.s) e.app_torque

  -- WHERE ABS(c.app_torque - scale.m) > ? * scale.s
  abbrev pub off_rows : List (Event Float) → List (Event Float)
  off_rows caps = let ss = scales caps in where_holds (λ e. is_off e (scale_at e.head_id ss)) caps

  abbrev pub deviation_at : Event Float → Option (Scale Float) → Option (Deviation Float)
  deviation_at e none = none
  deviation_at e (some scale) = some (record { hit = hit_of e; m = scale.m; basis = scale.basis })

  -- What the threshold method finds, nothing where it does not run.
  unfoldable pub threshold_sample : Bool → List (Event Float) → Option (Sample (Event Float))
  unfolding sample
  threshold_sample false rows = some (record { listed = []; total = 0 })
  threshold_sample true rows = sample in_time hit_rank cap (where_holds is_out rows)

  unfoldable pub out_by_head : Bool → List (Event Float) → List (ℤ × ℕ)
  out_by_head false rows = []
  out_by_head true rows =
      sort_by more_hits
        (map (λ g. (g.0, length g.1)) (groups (λ e. e.head_id) (where_holds is_out rows)))

  unfoldable pub deviation_sample : Bool → List (Event Float) → Option (Sample (Event Float))
  unfolding sample scales scale_at
  deviation_sample false caps = some (record { listed = []; total = 0 })
  deviation_sample true caps = sample in_time hit_rank cap (off_rows caps)

  abbrev pub heads_if : Bool → List (Event Float) → List (ℤ × Scale Float)
  heads_if false caps = []
  heads_if true caps = scales caps

  -- The values of the result.
  abbrev pub gathered :
      Method
      → List (Event Float)
      → ℕ
      → List (Fault Float)
      → List (String × ℕ)
      → Sample (Event Float)
      → ℕ
      → List (Deviation Float)
      → Anomalies Float
  gathered method rows fault_count faults by_condition out off_count deviations =
      let ss = heads_if (has_deviation method) (where_holds is_cap rows) in
      record {
        faults = faults;
        threshold_hits = map hit_of out.listed;
        deviation_hits = deviations;
        deviation_fallbacks = map (λ h. (h.0, (h.1).basis)) (where_holds is_fallback ss);
        capping_operations = count_where is_cap rows;
        faults_by_condition = by_condition;
        threshold_by_head = out_by_head (has_threshold method) rows;
        deviation_heads_at_floor = count_where (λ h. at_most (h.1).s mad_floor) ss;
        deviation_heads = length ss;
        fault_count = fault_count;
        threshold_count = out.total;
        deviation_count = off_count;
        rows_scanned = length rows;
      }

  -- `anomalies` by a method; `none` is an exception.
  unfoldable pub flags : Method → List (Event Float) → Option (Anomalies Float)
  unfolding sample fault_of statuses tally threshold_sample out_by_head deviation_sample scales
      scale_at
  flags method rows =
      let caps = where_holds is_cap rows in
      let ss = heads_if (has_deviation method) caps in
      do
        fault_rows ← sample in_time fault_rank cap (where_holds is_fault rows)
        faults ← map_option fault_of fault_rows.listed
        by_condition ← tally (statuses (where_holds is_fault rows)) []
        out ← threshold_sample (has_threshold method) rows
        off ← deviation_sample (has_deviation method) caps
        deviations ← map_option (λ e. deviation_at e (scale_at e.head_id ss)) off.listed
        some (gathered method rows fault_rows.total faults by_condition out off.total deviations)

  abbrev answer_of : Option (Anomalies Float) → Option (Answer (Anomalies Float))
  answer_of none = none
  answer_of (some a) = some (found a)

  -- `anomalies` on the rows in scope.
  unfoldable pub anomalies : String → List (Event Float) → Option (Answer (Anomalies Float))
  unfolding method_of flags
  anomalies method rows = elim (method_of method) [
    | none ↦ some bad_argument
    | some m ↦ answer_of (flags m rows)
  ]
