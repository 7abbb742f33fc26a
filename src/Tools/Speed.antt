-- ===== src/Tools/Speed.antt =====
-- python/analytics/tools/speed.py. The rates and their means are floats, parameters.
pub mod Hours
use quer_project_q.Common.{
  ℕ, ◌+◌, ◌*◌, ◌/◌, String, Bool, Option, none, some, List, [], ◌∷◌, map, ◌==◌, str_eq,
  if◌then◌else◌, where_holds, sum_of, length, ℤ, pos,
}
use quer_project_q.Tools.{Event, Answer, found, no_data, bad_argument, Reals, holds}
use quer_project_q.Tools.Grouping.{groups}
use quer_project_q.Tools.Gaps.{add_poll}

pub data Bucket : Type 0 where
  hour day : Bucket

-- `bucket in _BUCKETS`
unfoldable pub bucket_of : String → Option Bucket
bucket_of s = if str_eq s "hour" then some hour else if str_eq s "day" then some day else none

-- The length of a bucket in microseconds.
abbrev pub width : Bucket → ℕ
width hour = 3600000000
width day = 86400000000

pub record Rates (Float : Type 0) : Type 0 where
  pub per_hour : ℕ → ℕ → Float
  pub per_second : ℕ → ℕ → Float
  pub zero_rate : Float
  pub mean : List Float → Float

pub record BucketRate (Float : Type 0) : Type 0 where
  pub bucket_start : ℤ
  pub caps : ℕ
  pub active_hours : ℕ
  pub pieces_per_hour : Float
  pub pieces_per_second : Float

pub record Speed (Float : Type 0) : Type 0 where
  pub buckets : List (BucketRate Float)
  pub mean_pieces_per_hour : Float
  pub mean_pieces_per_second : Float
  pub rows_scanned : ℕ

module _ {Float : Type 0} where
  -- DATE_TRUNC: the number of the bucket since the epoch.
  abbrev pub bucket_number : Bucket → Event Float → ℤ
  bucket_number b e = pos (e.ts / width b)

  -- DISTINCT DATE_TRUNC('HOUR', ts), in order
  unfoldable pub hours_of : List (Event Float) → List ℕ
  unfolding add_poll
  hours_of [] = []
  hours_of (e ∷ es) = add_poll (e.ts / width hour) (hours_of es)

module _ {Float : Type 0} (R : Reals Float) (D : Rates Float) where
  open D use {per_hour, per_second, zero_rate, mean}

  unfoldable pub bucket_rate : ℤ × List (Event Float) → BucketRate Float
  unfolding hours_of
  bucket_rate g =
      let caps = length g.1 in
      let active = length (hours_of g.1) in
      record {
        bucket_start = g.0;
        caps = caps;
        active_hours = active;
        pieces_per_hour = if active == 0 then zero_rate else per_hour caps active;
        pieces_per_second = if active == 0 then zero_rate else per_second caps active;
      }

  abbrev pub buckets_of : Bucket → List (Event Float) → List (BucketRate Float)
  buckets_of b rows =
      map bucket_rate
        (groups (bucket_number b) (where_holds (λ e. holds R.positive e.app_torque) rows))

  unfoldable pub speed_of : List (BucketRate Float) → Answer (Speed Float)
  speed_of [] = no_data
  speed_of (b ∷ bs) = found (record {
    buckets = b ∷ bs;
    mean_pieces_per_hour = mean (map (λ r. r.pieces_per_hour) (b ∷ bs));
    mean_pieces_per_second = mean (map (λ r. r.pieces_per_second) (b ∷ bs));
    rows_scanned = sum_of (λ r. r.caps) (b ∷ bs);
  })

  -- `capping_speed` on the rows in scope.
  unfoldable pub capping_speed : String → List (Event Float) → Answer (Speed Float)
  unfolding bucket_of bucket_rate speed_of
  capping_speed bucket rows = elim (bucket_of bucket) [
    | none ↦ bad_argument
    | some b ↦ speed_of (buckets_of b rows)
  ]
