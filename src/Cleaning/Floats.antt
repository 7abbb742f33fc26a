-- ===== src/Cleaning/Floats.antt =====
-- Python's floats as the cleaning code uses them.
use quer_project_q.Common.{String, Bool, Option, ℤ}

pub record Floats : Type 1 where
  pub Float : Type 0
  -- `float(x)` on a cell; `none` is the ValueError.
  pub parse : String → Option Float
  -- `round(x)` and `int(x)`; `none` is the error that a nan or an infinity raises.
  pub round : Float → Option ℤ
  pub to_int : Float → Option ℤ
  pub is_nan : Float → Bool
  -- `x > n` and `x == n` for an integral constant n.
  pub above : Float → ℤ → Bool
  pub equals : Float → ℤ → Bool
