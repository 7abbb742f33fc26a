-- ===== src/Store/Tests.antt =====
-- Runs of the store's access: `int` reads the years and months that occur here.
use Prim.Native.Char.{code}
use Prim.Native.String.{String}
use quer_project_q.Common.{
  ℕ, ◌≡◌, refl, ◌==◌, true, false, Option, none, some, str_eq, str_append, if◌then◌else◌, suc,
  arith,
}
use quer_project_q.Agent.Narrator.Text.{Chars}
use quer_project_q.Store.{
  Month, between, reversed, connect, view, view_head, first_day, period_clause,
}
use quer_project_q.Store.Quoting.{literal, connect-literal}
use quer_project_q.Store.Months.{month_number}
use quer_project_q.Store.Periods.{period_clause-range}

abbrev chars : Chars
chars = record { is_space = λ c. code c == 32; is_digit = λ c. false }

abbrev int_of : String → Option ℕ
int_of s =
    if str_eq s "2026"
    then some 2026
    else if str_eq s "02"
    then some 2
    else if str_eq s "12"
    then some 12
    else if str_eq s "13"
    then some 13
    else none

abbrev february : Month
february = record { year = 2026; mon = 2 }

abbrev december : Month
december = record { year = 2026; mon = 12 }

february_text : first_day february ≡ "2026-02-01"
unfolding first_day
february_text = refl

ten_thousand : first_day (record { year = 10000; mon = 1 }) ≡ "10000-01-01"
unfolding first_day
ten_thousand = refl

backwards : period_clause chars int_of (some "2026-12..2026-02") ≡ reversed
unfolding period_clause
backwards = refl

period_clause-range_example :
    (period_clause chars int_of (some "2026-02 .. 2026-12")
      ≡ between february (record { year = 2027; mon = 1 }))
    × (month_number (record { year = 2027; mon = 1 }) ≡ suc (month_number december))
unfolding period_clause
period_clause-range_example =
    period_clause-range chars int_of "2026-02 .. 2026-12" "2026-02 " " 2026-12" february december
      refl refl refl (omega arith) (omega arith)

connect-literal_example :
    (tail : String) × (connect (λ p. true) (λ g. true) (λ d g. str_append d g) "it's/"
      ≡ view (str_append view_head tail))
    × (literal false tail ≡ some ("it's/*.parquet", ")"))
connect-literal_example =
    connect-literal (λ p. true) (λ g. true) (λ d g. str_append d g) "it's/" refl refl
