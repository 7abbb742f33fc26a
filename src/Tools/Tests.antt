-- ===== src/Tools/Tests.antt =====
-- Runs of the tools. A REAL is an integer.
use quer_project_q.Common.{
  ℕ, ◌*◌, ◌/◌, ◌≡◌, refl, ◌↔◌, ◌-◌, ltb, Bool, true, false, IsIn, none, some, List, [], ◌∷◌, ◌==◌,
  ℤ, pos, ltb_ℤ, eqb_ℤ, mod_ℤ,
}
use quer_project_q.Cleaning.Floats.{Floats}
use quer_project_q.Agent.Config.{Number, whole, real}
use quer_project_q.Tools.{Event, Reals}
use quer_project_q.Tools.Gaps.{gap_of, gaps_of}
use quer_project_q.Tools.Gaps.Silences.{IsSilence, gaps_of_iff}
use quer_project_q.Tools.Idle.{Cycle, runs_of, idle_periods}
use quer_project_q.Tools.Idle.Runs.{maximal_runs, runs_of-maximal_runs}
use quer_project_q.Tools.Idle.Summaries.{IdleResult, idle_periods-IdleResult}
use quer_project_q.Tools.Filter.{closure_filter}
use quer_project_q.Tools.Filter.Counted.{FilterResult, closure_filter-FilterResult}
use quer_project_q.Tools.Success.{by_head, scope_of, Ratios, success_rates}
use quer_project_q.Tools.Success.Partition.{Partitions, success_rates-Partitions}
use quer_project_q.Tools.Overview.{Limits, overview}
use quer_project_q.Tools.Overview.Consistent.{Agree, overview-Agree}
use quer_project_q.Tools.Speed.{Rates, bucket_of, capping_speed}
use quer_project_q.Tools.Speed.Hours.{SpeedResult, capping_speed-SpeedResult}

abbrev row : ℕ → ℕ → ℤ → ℤ → Event ℤ
row head seconds torque status = record {
  head_id = pos head;
  ts = seconds * 1000000;
  cap_seq = pos 1;
  app_torque = some torque;
  status = some status;
  is_reset = false;
}

-- Two heads; a stop of 100 seconds.
abbrev rows : List (Event ℤ)
rows =
    row 2 10 (pos 2) (pos 65)
    ∷ row 1 10 (pos 2) (pos 0)
    ∷ row 1 110 (pos 3) (pos 0)
    ∷ row 1 111 (pos 0) (pos 2)
    ∷ []

abbrev number : Number ℤ → ℤ
number (whole n) = n
number (real n) = n

abbrev reals : Reals ℤ
reals = record {
  positive = λ x. ltb_ℤ (pos 0) x;
  over = λ x n. ltb_ℤ (number n) x;
  under = λ x n. ltb_ℤ x (number n);
  equals = λ x n. eqb_ℤ x (number n);
  odd = λ x. mod_ℤ x 2 == 1;
}

abbrev integers : Floats
integers = record {
  Float = ℤ;
  parse = λ s. none;
  round = λ n. some n;
  to_int = λ n. some n;
  is_nan = λ n. false;
  above = λ n m. ltb_ℤ m n;
  equals = eqb_ℤ;
}

gaps_of_iff_example :
    IsIn (gap_of 10000000 110000000) (gaps_of (pos 60) rows)
    ↔ IsSilence (pos 60) rows 10000000 110000000
gaps_of_iff_example = gaps_of_iff (pos 60) rows 10000000 110000000

one_gap : gaps_of (pos 60) rows ≡ gap_of 10000000 110000000 ∷ []
unfolding gaps_of
one_gap = refl

closure_filter-FilterResult_example :
    FilterResult integers reals
      (whole (pos 0))
      "failed"
      none
      rows
      (closure_filter integers reals (whole (pos 0)) (some (whole (pos 1))) none "failed" none rows)
closure_filter-FilterResult_example =
    closure_filter-FilterResult integers reals (whole (pos 0)) (some (whole (pos 1))) none "failed"
      none rows

abbrev ratios : Ratios ℤ
ratios = record { ratio = λ s n. pos s; less = ltb_ℤ }

success_rates-Partitions_example :
    Partitions reals
      (whole (pos 0))
      ratios
      (success_rates reals (whole (pos 0)) ratios "head" rows)
      (success_rates reals (whole (pos 0)) ratios "overall" rows)
unfolding scope_of
success_rates-Partitions_example =
    success_rates-Partitions reals (whole (pos 0)) ratios "head" by_head rows refl

abbrev whole_rates : Rates ℤ
whole_rates = record {
  per_hour = λ n h. pos (n / h);
  per_second = λ n h. pos (n / (h * 3600));
  zero_rate = pos 0;
  mean = λ xs. pos 0;
}

capping_speed-SpeedResult_example :
    SpeedResult reals whole_rates
      (bucket_of "hour")
      rows
      (capping_speed reals whole_rates "hour" rows)
capping_speed-SpeedResult_example = capping_speed-SpeedResult reals whole_rates "hour" rows

-- Two no-load cycles, a break, one more, a closure with load, one more.
abbrev cycles : List Cycle
cycles = (1, true) ∷ (2, true) ∷ (9, true) ∷ (10, false) ∷ (11, true) ∷ []

abbrev apart : ℕ → ℕ → Bool
apart a b = ltb 3 (b - a)

runs_of-maximal_runs_example : runs_of apart cycles ≡ maximal_runs apart cycles
runs_of-maximal_runs_example = runs_of-maximal_runs apart cycles

three_runs :
    runs_of apart cycles
    ≡ record { start = 1; end_ts = 2; cycles = 2 }
      ∷ record { start = 9; end_ts = 9; cycles = 1 }
      ∷ record { start = 11; end_ts = 11; cycles = 1 }
      ∷ []
unfolding runs_of
three_runs = refl

idle_periods-IdleResult_example :
    IdleResult (pos 0) (idle_periods reals (whole (pos 2)) (pos 60) (pos 0) none rows)
idle_periods-IdleResult_example =
    idle_periods-IdleResult reals (whole (pos 2)) (pos 60) (pos 0) none rows

abbrev limits : Limits ℤ
limits = record { less = λ x n. ltb_ℤ x (number n); greater = λ x n. ltb_ℤ (number n) x }

overview-Agree_example :
    Agree
      (overview reals limits (whole (pos 0)) (whole (pos 2)) (whole (pos 1)) (whole (pos 2)) rows)
      (success_rates reals (whole (pos 0)) ratios "overall" rows)
overview-Agree_example =
    overview-Agree reals (whole (pos 0)) ratios limits (whole (pos 2)) (whole (pos 1))
      (whole (pos 2)) rows
