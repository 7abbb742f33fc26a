-- ===== src/Tools/Success.antt =====
-- python/analytics/tools/success.py. A rate is a float: the division and the order of its results
-- are parameters.
pub mod Partition
use quer_project_q.Common.{
  ℕ, ◌+◌, ◌*◌, ◌/◌, String, Bool, true, false, Option, none, some, List, [], ◌∷◌, map, ◌==◌, str_eq,
  if◌then◌else◌, where_holds, sum_of, length, not, ℤ, pos, ltb_ℤ,
}
use quer_project_q.Agent.Config.{Number}
use quer_project_q.Tools.{Event, Answer, found, no_data, bad_argument, Reals, holds}
use quer_project_q.Tools.Grouping.{groups, count_where}

-- `_GROUPS`, without "overall"
pub data Group : Type 0 where
  by_head by_day : Group

pub data Scope : Type 0 where
  overall : Scope
  each : Group → Scope

-- `by in _GROUPS`
unfoldable pub scope_of : String → Option Scope
scope_of by =
    if str_eq by "head"
    then some (each by_head)
    else if str_eq by "day"
    then some (each by_day)
    else if str_eq by "overall"
    then some overall
    else none

pub record Counts : Type 0 where
  pub total : ℕ
  pub successful : ℕ
  pub failed : ℕ

pub record Ratios (Float : Type 0) : Type 0 where
  pub ratio : ℕ → ℕ → Float
  pub less : Float → Float → Bool

-- A head's or a day's row.
pub record GroupRate (Float : Type 0) : Type 0 where
  pub label : ℤ
  pub counts : Counts
  pub success_rate : Option Float

pub record Overall (Float : Type 0) : Type 0 where
  pub counts : Counts
  pub success_rate : Option Float
  pub lowest_head : Option ℤ

pub data Rates (Float : Type 0) : Type 0 where
  whole : Overall Float → Rates Float
  split : List (GroupRate Float) → Rates Float

-- The head, or the day: CAST(ts AS DATE).
abbrev pub key_of : {Float : Type 0} → Group → Event Float → ℤ
key_of by_head e = e.head_id
key_of by_day e = pos (e.ts / 86400000000)

module _ {Float : Type 0} (R : Reals Float) (success : Number Float) (D : Ratios Float) where
  open R use {positive, equals, odd}
  open D use {ratio, less}

  abbrev pub is_success : Event Float → Bool
  is_success e = holds (λ s. equals s success) e.status

  abbrev pub is_failure : Event Float → Bool
  is_failure e = holds odd e.status

  -- app_torque > 0
  abbrev pub capping : List (Event Float) → List (Event Float)
  capping rows = where_holds (λ e. holds positive e.app_torque) rows

  -- The `select` of a set of rows.
  unfoldable pub counts_of : List (Event Float) → Counts
  counts_of es = record {
    total = length es;
    successful = count_where is_success es;
    failed = count_where is_failure es;
  }

  -- `_success_rate`
  unfoldable pub rate_of : Counts → Option Float
  rate_of c =
      if c.successful + c.failed == 0
      then none
      else some (ratio c.successful (c.successful + c.failed))

  unfoldable pub group_rate : ℤ × List (Event Float) → GroupRate Float
  unfolding counts_of rate_of
  group_rate g = record {
    label = g.0;
    counts = counts_of g.1;
    success_rate = rate_of (counts_of g.1);
  }

  abbrev pub verdicts : GroupRate Float → ℕ
  verdicts h = h.counts.successful + h.counts.failed

  -- key=lambda h: (h[2] / (h[2] + h[3]), h[0])
  abbrev worse : GroupRate Float → GroupRate Float → Bool
  worse a b =
      let ra = ratio a.counts.successful (verdicts a) in
      let rb = ratio b.counts.successful (verdicts b) in
      if less ra rb then true else if less rb ra then false else ltb_ℤ a.label b.label

  unfoldable lowest_from : GroupRate Float → List (GroupRate Float) → ℤ
  lowest_from best [] = best.label
  lowest_from best (h ∷ hs) = lowest_from (if worse h best then h else best) hs

  -- `min(ranked, …)` or None
  unfoldable pub lowest_of : List (GroupRate Float) → Option ℤ
  unfolding lowest_from
  lowest_of [] = none
  lowest_of (h ∷ hs) = some (lowest_from h hs)

  unfoldable pub ranked : List (GroupRate Float) → List (GroupRate Float)
  ranked hs = where_holds (λ h. not (verdicts h == 0)) hs

  abbrev pub rates_by : Group → List (Event Float) → List (GroupRate Float)
  rates_by g es = map group_rate (groups (key_of g) es)

  unfoldable pub overall_of : List (Event Float) → Overall Float
  unfolding counts_of rate_of ranked lowest_of group_rate
  overall_of es = record {
    counts = counts_of es;
    success_rate = rate_of (counts_of es);
    lowest_head = lowest_of (ranked (rates_by by_head es));
  }

  abbrev pub unless_empty : List (GroupRate Float) → Answer (Rates Float)
  unless_empty [] = no_data
  unless_empty (h ∷ hs) = found (split (h ∷ hs))

  -- On the capping operations in scope.
  unfoldable pub rates : Scope → List (Event Float) → Answer (Rates Float)
  unfolding overall_of group_rate
  rates overall es = if length es == 0 then no_data else found (whole (overall_of es))
  rates (each g) es = unless_empty (rates_by g es)

  -- `success_rates` on the rows in scope.
  unfoldable pub success_rates : String → List (Event Float) → Answer (Rates Float)
  unfolding rates scope_of
  success_rates by rows = elim (scope_of by) [
    | none ↦ bad_argument
    | some s ↦ rates s (capping rows)
  ]

  -- `rows_scanned`
  unfoldable pub scanned : Rates Float → ℕ
  scanned (whole o) = o.counts.total
  scanned (split hs) = sum_of (λ h. h.counts.total) hs
