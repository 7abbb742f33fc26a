-- ===== src/Tools/Anomaly/Records.antt =====
-- The records of `anomalies` of python/analytics/tools/anomaly.py, and the helpers that read no
-- settings.
use quer_project_q.Common.{
  ℕ, ◌+◌, Bool, true, false, ◌&&◌, ◌||◌, String, str_eq, Option, none, some, List, [], ◌∷◌, ltb,
  ◌==◌, if◌then◌else◌, ℤ, ltb_ℤ, eqb_ℤ,
}
use quer_project_q.Agent.Config.{Number}
use quer_project_q.Tools.{Event}

-- `_METHODS`
pub data Method : Type 0 where
  threshold deviation both : Method

-- `method in _METHODS`
unfoldable pub method_of : String → Option Method
method_of s =
    if str_eq s "threshold"
    then some threshold
    else if str_eq s "deviation"
    then some deviation
    else if str_eq s "both"
    then some both
    else none

-- `method in ("threshold", "both")`, and with "deviation".
abbrev pub has_threshold : Method → Bool
has_threshold deviation = false
has_threshold method = true

abbrev pub has_deviation : Method → Bool
has_deviation threshold = false
has_deviation method = true

pub data Basis : Type 0 where
  mad iqr exact : Basis

-- A head's median, its scale and what this is taken from.
pub record Scale (Float : Type 0) : Type 0 where
  pub m : Float
  pub s : Float
  pub basis : Basis

-- A reject, with the names of its conditions; a reading out of the band; one off its head's median.
pub record Fault (Float : Type 0) : Type 0 where
  pub head_id : ℤ
  pub ts : ℕ
  pub app_torque : Option Float
  pub reason : List String

pub record Hit (Float : Type 0) : Type 0 where
  pub head_id : ℤ
  pub ts : ℕ
  pub app_torque : Option Float

pub record Deviation (Float : Type 0) : Type 0 where
  pub hit : Hit Float
  pub m : Float
  pub basis : Basis

-- The settings of `cfg` that are used, with the two orders on REAL columns and the statistics.
pub record Bands (Float : Type 0) : Type 0 where
  pub torque_min : Number Float
  pub torque_max : Number Float
  pub mad_floor : Number Float
  pub mad_k : Number Float
  pub median : List Float → Float
  pub distance : Float → Float → Float
  pub half_iqr : List Float → Float
  pub scaled : Float → Float
  pub greatest : Float → Number Float → Float
  pub beyond : Float → Number Float → Float → Bool
  pub at_most : Float → Number Float → Bool
  pub real_less : Option Float → Option Float → Bool
  pub same_status : Float → Float → Bool

pub record Anomalies (Float : Type 0) : Type 0 where
  pub faults : List (Fault Float)
  pub threshold_hits : List (Hit Float)
  pub deviation_hits : List (Deviation Float)
  pub deviation_fallbacks : List (ℤ × Basis)
  pub capping_operations : ℕ
  pub faults_by_condition : List (String × ℕ)
  pub threshold_by_head : List (ℤ × ℕ)
  pub deviation_heads_at_floor : ℕ
  pub deviation_heads : ℕ
  pub fault_count : ℕ
  pub threshold_count : ℕ
  pub deviation_count : ℕ
  pub rows_scanned : ℕ

-- d[c] = d.get(c, 0) + n
unfoldable pub bump : String → ℕ → List (String × ℕ) → List (String × ℕ)
bump c n [] = (c, n) ∷ []
bump c n ((d, k) ∷ dict) =
    let rest = bump c n dict in if str_eq d c then (d, k + n) ∷ dict else (d, k) ∷ rest

unfoldable pub bump_all : ℕ → List String → List (String × ℕ) → List (String × ℕ)
unfolding bump
bump_all n [] dict = dict
bump_all n (c ∷ cs) dict = bump_all n cs (bump c n dict)

-- `names or ["unspecified"]`
abbrev pub or_unspecified : List String → List String
or_unspecified [] = "unspecified" ∷ []
or_unspecified (c ∷ cs) = c ∷ cs

abbrev pub hit_of : {Float : Type 0} → Event Float → Hit Float
hit_of e = record { head_id = e.head_id; ts = e.ts; app_torque = e.app_torque }

-- ORDER BY COUNT(*) DESC, head_id
abbrev pub more_hits : ℤ × ℕ → ℤ × ℕ → Bool
more_hits a b = ltb b.1 a.1 || (a.1 == b.1 && ltb_ℤ a.0 b.0)

-- The scale of a head, if it has one.
unfoldable pub scale_at : {Float : Type 0} → ℤ → List (ℤ × Scale Float) → Option (Scale Float)
scale_at h [] = none
scale_at h ((k, s) ∷ scales) = let rest = scale_at h scales in if eqb_ℤ k h then some s else rest

abbrev pub is_fallback : {Float : Type 0} → ℤ × Scale Float → Bool
is_fallback (h, s) = elim s.basis [ mad ↦ false | iqr ↦ true | exact ↦ true ]
