-- ===== src/Tools/Torque.antt =====
-- python/analytics/tools/torque.py, on the rows in scope. The statistics of REAL columns, the class of
-- a torque in the histogram and the start of a class are parameters.
pub mod Counted
mod Tests
use quer_project_q.Common.{
  ℕ, Bool, true, false, ◌&&◌, String, str_eq, Option, none, some, List, [], ◌∷◌, map, if◌then◌else◌,
  where_holds, sort_by, sum_of, length, ℤ, pos, ltb_ℤ,
}
use quer_project_q.Agent.Config.{Number}
use quer_project_q.Tools.{Event, Answer, found, no_data, bad_argument, Reals, holds}
use quer_project_q.Tools.Grouping.{groups}

-- `_OUTCOMES`
pub data Closures : Type 0 where
  successful failed all : Closures

-- `outcome in _OUTCOMES`
unfoldable pub closures_of : String → Option Closures
closures_of s =
    if str_eq s "successful"
    then some successful
    else if str_eq s "failed"
    then some failed
    else if str_eq s "all"
    then some all
    else none

pub data Split : Type 0 where
  overall each_head : Split

-- `by in (None, "head")`
unfoldable pub split_of : Option String → Option Split
split_of none = some overall
split_of (some s) = if str_eq s "head" then some each_head else none

pub record Statistics (Float : Type 0) : Type 0 where
  pub average : List Float → Float
  pub least : List Float → Float
  pub greatest : List Float → Float
  pub deviation : List Float → Option Float
  pub median : List Float → Float
  pub more : Float → Float → Bool
  pub class_of : Float → ℤ
  pub bin_start : ℤ → Float

-- The columns of `agg`.
pub record Stats (Float : Type 0) : Type 0 where
  pub n : ℕ
  pub mean : Float
  pub min : Float
  pub max : Float
  pub stddev : Option Float
  pub median : Float

pub record Histogram (Float : Type 0) : Type 0 where
  pub stats : Stats Float
  pub histogram : List (Float × ℕ)

pub data Torques (Float : Type 0) : Type 0 where
  by_head : List (ℤ × Stats Float) → Torques Float
  whole : Histogram Float → Torques Float

-- The torques that are there.
abbrev pub torques : {Float : Type 0} → List (Event Float) → List Float
torques [] = []
torques (e ∷ es) = elim e.app_torque [ none ↦ torques es | some x ↦ x ∷ torques es ]

-- `scanned`
unfoldable pub scanned : {Float : Type 0} → Torques Float → ℕ
scanned (by_head hs) = sum_of (λ h. (h.1).n) hs
scanned (whole w) = w.stats.n

module _ {Float : Type 0} (R : Reals Float) (S : Statistics Float) (success : Number Float) where
  open R use {positive, equals, odd}
  open S use {average, least, greatest, deviation, median, more, class_of, bin_start}

  abbrev pub has_outcome : Closures → Event Float → Bool
  has_outcome all e = true
  has_outcome successful e = holds (λ s. equals s success) e.status
  has_outcome failed e = holds odd e.status

  -- `cond`
  abbrev pub is_kept : Closures → Event Float → Bool
  is_kept outcome e = holds positive e.app_torque && has_outcome outcome e

  unfoldable pub stats_of : List (Event Float) → Stats Float
  stats_of es = record {
    n = length es;
    mean = average (torques es);
    min = least (torques es);
    max = greatest (torques es);
    stddev = deviation (torques es);
    median = median (torques es);
  }

  -- `stddev` DESC NULLS LAST: which of two comes first, if one does.
  abbrev pub wider : Option Float → Option Float → Bool
  wider none b = false
  wider (some x) none = true
  wider (some x) (some y) = more x y

  -- ORDER BY stddev DESC NULLS LAST, head_id
  abbrev pub before : ℤ × Stats Float → ℤ × Stats Float → Bool
  before a b =
      if wider (a.1).stddev (b.1).stddev
      then true
      else if wider (b.1).stddev (a.1).stddev
      then false
      else ltb_ℤ a.0 b.0

  -- GROUP BY head_id
  unfoldable pub head_stats : List (Event Float) → List (ℤ × Stats Float)
  unfolding stats_of
  head_stats kept = sort_by before (map (λ g. (g.0, stats_of g.1)) (groups (λ e. e.head_id) kept))

  -- The class of a closure; those without a torque are not kept.
  abbrev pub class_at : Event Float → ℤ
  class_at e = elim e.app_torque [ none ↦ pos 0 | some x ↦ class_of x ]

  unfoldable pub classes : List (Event Float) → List (Float × ℕ)
  classes kept = map (λ g. (bin_start g.0, length g.1)) (groups class_at kept)

  abbrev pub unless_empty : List (ℤ × Stats Float) → Answer (Torques Float)
  unless_empty [] = no_data
  unless_empty (h ∷ hs) = found (by_head (h ∷ hs))

  abbrev pub unless_none : List (Event Float) → Answer (Torques Float)
  unless_none [] = no_data
  unless_none (e ∷ es) =
      found (whole (record { stats = stats_of (e ∷ es); histogram = classes (e ∷ es) }))

  unfoldable pub stats_by : Split → List (Event Float) → Answer (Torques Float)
  unfolding head_stats classes stats_of
  stats_by each_head kept = unless_empty (head_stats kept)
  stats_by overall kept = unless_none kept

  abbrev pub stats_if : Option Closures → Option Split → List (Event Float) → Answer (Torques Float)
  stats_if (some outcome) (some by) rows = stats_by by (where_holds (is_kept outcome) rows)
  stats_if outcome by rows = bad_argument

  -- `torque_stats` on the rows in scope.
  unfoldable pub torque_stats : String → Option String → List (Event Float) → Answer (Torques Float)
  unfolding closures_of split_of stats_by
  torque_stats outcome by rows = stats_if (closures_of outcome) (split_of by) rows
