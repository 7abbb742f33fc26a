-- ===== src/Tools/Factors/Tests.antt =====
-- Runs of the factors. A REAL is an integer.
use quer_project_q.Common.{
  ℕ, ◌*◌, ◌/◌, ◌==◌, leb, false, none, some, List, [], ◌∷◌, ℤ, pos, ltb_ℤ, eqb_ℤ, mod_ℤ,
}
use quer_project_q.Agent.Config.{Number, whole, real}
use quer_project_q.Tools.{Event, Reals}
use quer_project_q.Tools.Factors.{Arithmetic}

abbrev row : ℕ → ℕ → ℤ → ℤ → Event ℤ
row head seconds torque status = record {
  head_id = pos head;
  ts = seconds * 1000000;
  cap_seq = pos 1;
  app_torque = some torque;
  status = some status;
  is_reset = false;
}

abbrev rows : List (Event ℤ)
rows =
    row 1 10 (pos 2) (pos 0)
    ∷ row 2 10 (pos 3) (pos 0)
    ∷ row 2 20 (pos 4) (pos 0)
    ∷ row 3 20 (pos 0) (pos 2)
    ∷ []

abbrev number : Number ℤ → ℤ
number (whole n) = n
number (real n) = n

abbrev reals : Reals ℤ
reals = record {
  positive = λ x. ltb_ℤ (pos 0) x;
  over = λ x n. ltb_ℤ (number n) x;
  under = λ x n. ltb_ℤ x (number n);
  equals = λ x n. eqb_ℤ x (number n);
  odd = λ x. mod_ℤ x 2 == 1;
}

abbrev arithmetic : Arithmetic ℤ
arithmetic = record {
  ratio = λ a b. pos (a / b);
  less = ltb_ℤ;
  expects_enough = λ n r. leb 5 n;
  chi_square = λ hs r. pos 0;
  tail = λ df x. pos 0;
  correlation = λ vs. none;
  mean = λ xs. none;
}
