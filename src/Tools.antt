-- ===== src/Tools.antt =====
-- The tools (python/analytics/tools) over the rows of `cap_events` that are in scope. A tool's SQL is
-- translated to functions on lists; what it computes on REAL columns is a parameter.
pub mod Gaps
pub mod Grouping
pub mod Filter
pub mod Success
pub mod Overview
pub mod Speed
pub mod Idle
pub mod Calendar
pub mod Compare
pub mod Anomaly
pub mod Torque
pub mod Factors
mod Tests
use quer_project_q.Common.{ℕ, Bool, false, Option, none, some, ℤ}
use quer_project_q.Agent.Config.{Number}

-- A row of `cap_events`: `ts` in microseconds, `none` for NULL; a NULL flag does not pass a test
-- and is false.
pub record Event (Float : Type 0) : Type 0 where
  pub head_id : ℤ
  pub ts : ℕ
  pub cap_seq : ℤ
  pub app_torque : Option Float
  pub status : Option Float
  pub is_reset : Bool

-- What a tool answers: a result, no data, or an argument that it refuses.
pub data Answer (Values : Type 0) : Type 0 where
  found : Values → Answer Values
  no_data : Answer Values
  bad_argument : Answer Values

-- What the queries test on a REAL: `x > 0`, `x > CAST(? AS REAL)`, `x < CAST(? AS REAL)`, `x = ?`, and
-- `CAST(x AS BIGINT) % 2 <> 0`.
pub record Reals (Float : Type 0) : Type 0 where
  pub positive : Float → Bool
  pub over : Float → Number Float → Bool
  pub under : Float → Number Float → Bool
  pub equals : Float → Number Float → Bool
  pub odd : Float → Bool

-- A test of a WHERE clause on a column: NULL does not pass.
abbrev pub holds : {Float : Type 0} → (Float → Bool) → Option Float → Bool
holds p none = false
holds p (some x) = p x
