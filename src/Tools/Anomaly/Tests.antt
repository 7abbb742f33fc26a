-- ===== src/Tools/Anomaly/Tests.antt =====
-- Runs of the anomalies. A REAL is an integer, and the median is the first of the readings.
use quer_project_q.Common.{
  ℕ, ◌*◌, ◌≡◌, refl, ltb, ◌==◌, if◌then◌else◌, true, false, none, some, List, [], ◌∷◌, arith, ℤ,
  pos, ltb_ℤ, eqb_ℤ, mod_ℤ, ◌-ℤ◌, eq_of_parts, where_holds, All, sort_by,
}
use quer_project_q.Cleaning.Floats.{Floats}
use quer_project_q.Agent.Config.{Number, whole, real}
use quer_project_q.Agent.Status.{decode}
use quer_project_q.Tools.{Event, Reals}
use quer_project_q.Tools.Overview.{Limits}
use quer_project_q.Tools.Anomaly.{Sample, sample}
use quer_project_q.Tools.Anomaly.Strides.{IsSample, sample-IsSample}
use quer_project_q.Tools.Anomaly.Records.{Bands, Anomalies, both}
use quer_project_q.Tools.Anomaly.Flags.{flags, is_fault, conditions_of}
use quer_project_q.Tools.Anomaly.Flags.Conditions.{HasConditions}
use quer_project_q.Tools.Anomaly.Flags.Exact.{IsExact, flags-IsExact}

abbrev row : ℕ → ℕ → ℤ → ℤ → Event ℤ
row head seconds torque status = record {
  head_id = pos head;
  ts = seconds * 1000000;
  cap_seq = pos 1;
  app_torque = some torque;
  status = some status;
  is_reset = false;
}

-- A reject with a bad closure, one without a condition, and a reading out of the band.
abbrev rows : List (Event ℤ)
rows =
    row 1 30 (pos 2) (pos 65)
    ∷ row 1 10 (pos 2) (pos 0)
    ∷ row 2 20 (pos 9) (pos 1)
    ∷ row 1 40 (pos 2) (pos 65)
    ∷ []

abbrev number : Number ℤ → ℤ
number (whole n) = n
number (real n) = n

abbrev integers : Floats
integers = record {
  Float = ℤ;
  parse = λ s. none;
  round = λ n. some n;
  to_int = λ n. some n;
  is_nan = λ n. false;
  above = λ n m. ltb_ℤ m n;
  equals = eqb_ℤ;
}

abbrev reals : Reals ℤ
reals = record {
  positive = λ x. ltb_ℤ (pos 0) x;
  over = λ x n. ltb_ℤ (number n) x;
  under = λ x n. ltb_ℤ x (number n);
  equals = λ x n. eqb_ℤ x (number n);
  odd = λ x. mod_ℤ x 2 == 1;
}

abbrev limits : Limits ℤ
limits = record { less = λ x n. ltb_ℤ x (number n); greater = λ x n. ltb_ℤ (number n) x }

abbrev first_or_zero : List ℤ → ℤ
first_or_zero [] = pos 0
first_or_zero (x ∷ xs) = x

abbrev bands : Bands ℤ
bands = record {
  torque_min = whole (pos 1);
  torque_max = whole (pos 5);
  mad_floor = whole (pos 1);
  mad_k = whole (pos 3);
  median = first_or_zero;
  distance = λ x m. if ltb_ℤ x m then m -ℤ x else x -ℤ m;
  half_iqr = λ xs. pos 0;
  scaled = λ x. x;
  greatest = λ x n. number n;
  beyond = λ x k s. ltb_ℤ s x;
  at_most = λ x n. true;
  real_less = λ a b. false;
  same_status = eqb_ℤ;
}

same_status-eq : (x y : ℤ) → eqb_ℤ x y ≡ true → x ≡ y
same_status-eq x y h = eq_of_parts x y (ground (arith, h))

-- A sample of two of the four rows: the first and the third in time.
sample_of_two :
    sample (λ a b. ltb a b) (λ a b. ltb a b) 2 (40 ∷ 10 ∷ 20 ∷ 30 ∷ [])
    ≡ some (record { listed = 10 ∷ 30 ∷ []; total = 4 })
unfolding sample sort_by
sample_of_two = refl

sample-IsSample_example :
    (s : Sample ℕ) × (sample (λ a b. ltb a b) (λ a b. ltb a b) 2 (40 ∷ 10 ∷ 20 ∷ 30 ∷ []) ≡ some s)
    × IsSample (λ a b. ltb a b) (λ a b. ltb a b) 2 (40 ∷ 10 ∷ 20 ∷ 30 ∷ []) s
sample-IsSample_example =
    sample-IsSample (λ a b. ltb a b) (λ a b. ltb a b) 2 (40 ∷ 10 ∷ 20 ∷ 30 ∷ []) (omega arith)

rows-HaveConditions :
    All
      (HasConditions integers reals limits bands 2)
      (where_holds (is_fault integers reals limits bands 2) rows)
unfolding conditions_of decode
rows-HaveConditions =
    (("Bad Closure" ∷ [], refl), (("unspecified" ∷ [], refl), (("Bad Closure" ∷ [], refl), tt)))

flags-IsExact_example :
    (a : Anomalies ℤ) × (flags integers reals limits bands 2 both rows ≡ some a)
    × IsExact integers reals limits bands 2 both "Bad Closure" rows a
flags-IsExact_example =
    flags-IsExact integers reals limits bands 2 both "Bad Closure" rows (omega arith) same_status-eq
      rows-HaveConditions
