-- ===== src/Tools/Idle.antt =====
-- python/analytics/tools/idle.py. The rows of a head are taken in the order of the windows.
pub mod Runs
pub mod Summaries
use quer_project_q.Common.{
  ℕ, suc, ◌+◌, ◌-◌, Bool, true, false, not, ◌&&◌, ◌||◌, eqb_ℤ, Option, none, some, List, [], ◌∷◌,
  ◌++◌, map, ltb, ◌==◌, if◌then◌else◌, length, where_holds, sort_by, sum_of, ℤ, pos, ltb_ℤ,
}
use quer_project_q.Agent.Config.{Number, whole}
use quer_project_q.Tools.{Event, Answer, found, no_data, Reals, holds}
use quer_project_q.Tools.Grouping.{groups}
use quer_project_q.Tools.Filter.{in_time}
use quer_project_q.Tools.Gaps.{seconds_between, or_default}

-- A row of one head: its timestamp, and whether it is a no-load cycle.
abbrev pub Cycle : Type 0
Cycle = ℕ × Bool

-- A no-load row with its island and its segment.
pub record Keyed : Type 0 where
  pub ts : ℕ
  pub island : ℕ
  pub segment : ℕ

pub record Run : Type 0 where
  pub start : ℕ
  pub end_ts : ℕ
  pub cycles : ℕ

-- A group of the query `runs`, with its key.
pub record KeyedRun : Type 0 where
  pub island : ℕ
  pub segment : ℕ
  pub run : Run

abbrev pub single : ℕ → Run
single t = record { start = t; end_ts = t; cycles = 1 }

-- A run with one earlier cycle.
abbrev pub extend : ℕ → Run → Run
extend t r = record { start = t; end_ts = r.end_ts; cycles = suc r.cycles }

-- `marked` and the island of `no_load_rows`: `rn_all` and `rn_grp` number the rows and the no-load
-- rows, and an island is their difference.
unfoldable pub islands : ℕ → ℕ → List Cycle → List (ℕ × ℕ)
islands rn_all rn_grp [] = []
islands rn_all rn_grp ((t, true) ∷ rs) =
    (t, suc rn_all - suc rn_grp) ∷ islands (suc rn_all) (suc rn_grp) rs
islands rn_all rn_grp ((t, false) ∷ rs) = islands (suc rn_all) rn_grp rs

-- `breaks a b` is whether DATE_DIFF('second', a, b) is more than the gap that is allowed.
module _ (breaks : ℕ → ℕ → Bool) where
  -- The segment of a row, given the row before it: the running sum of `gap_break` in its island.
  unfoldable pub segment_of : Option Keyed → ℕ → ℕ → ℕ
  segment_of none t i = 0
  segment_of (some prev) t i =
      if prev.island == i then (if breaks prev.ts t then suc prev.segment else prev.segment) else 0

  abbrev pub keyed_row : Option Keyed → ℕ → ℕ → Keyed
  keyed_row prev t i = record { ts = t; island = i; segment = segment_of prev t i }

  -- `segmented`
  unfoldable pub segmented : Option Keyed → List (ℕ × ℕ) → List Keyed
  unfolding segment_of
  segmented prev [] = []
  segmented prev ((t, i) ∷ xs) = keyed_row prev t i ∷ segmented (some (keyed_row prev t i)) xs

-- A row into the groups of the rows after it. Both keys grow with time, so the rows of a group are
-- next to each other, and its MIN and MAX are its first and its last.
unfoldable pub add_keyed : Keyed → List KeyedRun → List KeyedRun
add_keyed x [] = record { island = x.island; segment = x.segment; run = single x.ts } ∷ []
add_keyed x (r ∷ rs) =
    if x.island == r.island && x.segment == r.segment
    then record { island = x.island; segment = x.segment; run = extend x.ts r.run } ∷ rs
    else record { island = x.island; segment = x.segment; run = single x.ts } ∷ r ∷ rs

-- GROUP BY island, segment
unfoldable pub keyed_runs : List Keyed → List KeyedRun
unfolding add_keyed
keyed_runs [] = []
keyed_runs (x ∷ xs) = add_keyed x (keyed_runs xs)

-- `runs`, of one head
unfoldable pub runs_of : (ℕ → ℕ → Bool) → List Cycle → List Run
unfolding keyed_runs segmented islands
runs_of breaks rs = map (λ r. r.run) (keyed_runs (segmented breaks none (islands 0 0 rs)))

pub record Period : Type 0 where
  pub head_id : ℤ
  pub run : Run
  pub duration_seconds : ℕ

pub record HeadIdle : Type 0 where
  pub head_id : ℤ
  pub periods : ℕ
  pub total_seconds : ℕ

pub record IdlePeriods : Type 0 where
  pub periods : List Period
  pub total_idle_seconds : ℕ
  pub longest_period : Period
  pub by_head : List HeadIdle
  pub min_seconds : ℤ
  pub rows_scanned : ℕ

abbrev pub period_of : ℤ → Run → Period
period_of h r = record { head_id = h; run = r; duration_seconds = seconds_between r.start r.end_ts }

-- DATE_DIFF('second', start, end_ts) >= threshold
abbrev pub is_long : ℤ → Period → Bool
is_long threshold p = not (ltb_ℤ (pos p.duration_seconds) threshold)

-- A period into `per_head`, a dict in the order of insertion.
unfoldable pub add_period : Period → List HeadIdle → List HeadIdle
add_period p [] =
    record { head_id = p.head_id; periods = 1; total_seconds = p.duration_seconds } ∷ []
add_period p (d ∷ ds) =
    let rest = add_period p ds in
    if eqb_ℤ d.head_id p.head_id
    then record {
      head_id = d.head_id;
      periods = d.periods + 1;
      total_seconds = d.total_seconds + p.duration_seconds;
    }
      ∷ ds
    else d ∷ rest

unfoldable pub per_head : List HeadIdle → List Period → List HeadIdle
unfolding add_period
per_head ds [] = ds
per_head ds (p ∷ ps) = per_head (add_period p ds) ps

-- key=lambda kv: (-kv[1][1], kv[0])
abbrev pub more_idle : HeadIdle → HeadIdle → Bool
more_idle a b =
    ltb b.total_seconds a.total_seconds
    || (a.total_seconds == b.total_seconds && ltb_ℤ a.head_id b.head_id)

-- `max(periods, key=…)`: the first of the longest.
unfoldable pub longest_from : Period → List Period → Period
longest_from best [] = best
longest_from best (p ∷ ps) =
    longest_from (if ltb best.duration_seconds p.duration_seconds then p else best) ps

unfoldable pub periods_answer : ℤ → ℕ → List Period → Answer IdlePeriods
unfolding per_head longest_from
periods_answer threshold scanned [] = no_data
periods_answer threshold scanned (p ∷ ps) = found (record {
  periods = p ∷ ps;
  total_idle_seconds = sum_of (λ q. q.duration_seconds) (p ∷ ps);
  longest_period = longest_from p ps;
  by_head = sort_by more_idle (per_head [] (p ∷ ps));
  min_seconds = threshold;
  rows_scanned = scanned;
})

module _ {Float : Type 0} (R : Reals Float) (no_load : Number Float) (max_gap : ℤ) where
  open R use {equals}

  -- status = ? AND app_torque = 0
  abbrev pub is_no_load : Event Float → Bool
  is_no_load e =
      holds (λ s. equals s no_load) e.status && holds (λ x. equals x (whole (pos 0))) e.app_torque

  abbrev pub cycles_of : List (Event Float) → List Cycle
  cycles_of es = map (λ e. (e.ts, is_no_load e)) (sort_by in_time es)

  abbrev pub breaks : ℕ → ℕ → Bool
  breaks a b = ltb_ℤ max_gap (pos (seconds_between a b))

  -- The rows of the query: the heads in order, and the runs of each.
  unfoldable pub idle_rows : ℤ → List (ℤ × List (Event Float)) → List Period
  unfolding runs_of
  idle_rows threshold [] = []
  idle_rows threshold (g ∷ gs) =
      where_holds (is_long threshold) (map (period_of g.0) (runs_of breaks (cycles_of g.1)))
      ++ idle_rows threshold gs

  -- `idle_periods` on the rows in scope, given `cfg.idle_min_seconds`.
  unfoldable pub idle_periods : ℤ → Option ℤ → List (Event Float) → Answer IdlePeriods
  unfolding idle_rows periods_answer
  idle_periods default min_seconds es =
      let threshold = or_default default min_seconds in
      periods_answer threshold (length es) (idle_rows threshold (groups (λ e. e.head_id) es))
