-- ===== src/Tools/Torque/Tests.antt =====
-- A run of the torque statistics. A REAL is an integer, and the deviation of one reading is NULL.
use quer_project_q.Common.{
  ℕ, ◌*◌, ◌≡◌, ◌==◌, true, false, none, some, List, [], ◌∷◌, arith, length, ℤ, pos, ltb_ℤ, eqb_ℤ,
  mod_ℤ, if◌then◌else◌, ltb,
}
use quer_project_q.Agent.Config.{Number, whole, real}
use quer_project_q.Tools.{Event, Reals}
use quer_project_q.Tools.Torque.{Statistics, torque_stats}
use quer_project_q.Tools.Torque.Counted.{TorqueResult, torque_stats-TorqueResult}

abbrev row : ℕ → ℕ → ℤ → ℤ → Event ℤ
row head seconds torque status = record {
  head_id = pos head;
  ts = seconds * 1000000;
  cap_seq = pos 1;
  app_torque = some torque;
  status = some status;
  is_reset = false;
}

abbrev rows : List (Event ℤ)
rows =
    row 1 10 (pos 2) (pos 0)
    ∷ row 2 10 (pos 3) (pos 0)
    ∷ row 2 20 (pos 4) (pos 0)
    ∷ row 3 20 (pos 0) (pos 2)
    ∷ []

abbrev number : Number ℤ → ℤ
number (whole n) = n
number (real n) = n

abbrev reals : Reals ℤ
reals = record {
  positive = λ x. ltb_ℤ (pos 0) x;
  over = λ x n. ltb_ℤ (number n) x;
  under = λ x n. ltb_ℤ x (number n);
  equals = λ x n. eqb_ℤ x (number n);
  odd = λ x. mod_ℤ x 2 == 1;
}

abbrev first_or_zero : List ℤ → ℤ
first_or_zero [] = pos 0
first_or_zero (x ∷ xs) = x

abbrev statistics : Statistics ℤ
statistics = record {
  average = first_or_zero;
  least = first_or_zero;
  greatest = first_or_zero;
  deviation = λ xs. if ltb (length xs) 2 then none else some (pos (length xs));
  median = first_or_zero;
  more = λ x y. ltb_ℤ y x;
  class_of = λ x. x;
  bin_start = λ c. c;
}

more-asym : (x y : ℤ) → ltb_ℤ y x ≡ true → ltb_ℤ x y ≡ false
more-asym x y h = ground (arith, h)

torque_stats-TorqueResult_example :
    TorqueResult reals statistics
      (whole (pos 0))
      "successful"
      (some "head")
      rows
      (torque_stats reals statistics (whole (pos 0)) "successful" (some "head") rows)
torque_stats-TorqueResult_example =
    torque_stats-TorqueResult reals statistics (whole (pos 0)) more-asym "successful" (some "head")
      rows
