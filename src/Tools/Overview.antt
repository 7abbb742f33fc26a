-- ===== src/Tools/Overview.antt =====
-- python/analytics/tools/overview.py.
pub mod Consistent
use quer_project_q.Common.{
  ℕ, Bool, true, false, ◌&&◌, ◌||◌, Option, none, some, List, [], ◌∷◌, map, ltb, if◌then◌else◌,
  length, ℤ, pos,
}
use quer_project_q.Agent.Config.{Number, whole}
use quer_project_q.Tools.{Event, Answer, found, no_data, Reals, holds}
use quer_project_q.Tools.Grouping.{groups, count_where}

-- `x < ?` and `x > ?` on a REAL, against the torque band.
pub record Limits (Float : Type 0) : Type 0 where
  pub less : Float → Number Float → Bool
  pub greater : Float → Number Float → Bool

pub record Overview : Type 0 where
  pub capping_operations : ℕ
  pub successful : ℕ
  pub failed : ℕ
  pub no_load_cycles : ℕ
  pub heads : List ℤ
  pub ts_min : ℕ
  pub ts_max : ℕ
  pub null_torque : ℕ
  pub invalid_torque : ℕ
  pub counter_resets : ℕ
  pub rows_scanned : ℕ

abbrev pub is_null : {A : Type 0} → Option A → Bool
is_null none = true
is_null (some a) = false

module _ {Float : Type 0} where
  -- MIN(ts) and MAX(ts), from a row on
  unfoldable pub earliest : ℕ → List (Event Float) → ℕ
  earliest t [] = t
  earliest t (e ∷ es) = earliest (if ltb e.ts t then e.ts else t) es

  unfoldable pub latest : ℕ → List (Event Float) → ℕ
  latest t [] = t
  latest t (e ∷ es) = latest (if ltb t e.ts then e.ts else t) es

module _ {Float : Type 0} (R : Reals Float) (L : Limits Float)
    (success no_load torque_min torque_max : Number Float) where
  open R use {positive, equals, odd}
  open L use {less, greater}

  -- app_torque > 0
  abbrev pub has_load : Event Float → Bool
  has_load e = holds positive e.app_torque

  abbrev pub has_status : Number Float → Event Float → Bool
  has_status n e = holds (λ s. equals s n) e.status

  abbrev pub off_band : Event Float → Bool
  off_band e = holds (λ x. less x torque_min || greater x torque_max) e.app_torque

  -- `overview` on the rows in scope.
  unfoldable pub overview : List (Event Float) → Answer Overview
  unfolding earliest latest
  overview [] = no_data
  overview (e ∷ es) =
      let rows = e ∷ es in
      found (record {
        capping_operations = count_where has_load rows;
        successful = count_where (λ r. has_status success r && has_load r) rows;
        failed = count_where (λ r. holds odd r.status && has_load r) rows;
        no_load_cycles =
            count_where
              (λ r. has_status no_load r && holds (λ x. equals x (whole (pos 0))) r.app_torque)
              rows;
        heads = map (λ g. g.0) (groups (λ r. r.head_id) rows);
        ts_min = earliest e.ts es;
        ts_max = latest e.ts es;
        null_torque = count_where (λ r. is_null r.app_torque) rows;
        invalid_torque = count_where (λ r. has_load r && off_band r) rows;
        counter_resets = count_where (λ r. r.is_reset) rows;
        rows_scanned = length rows;
      })
