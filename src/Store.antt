-- ===== src/Store.antt =====
-- python/analytics/store.py: which store a connection reads, and the period that a query is scoped
-- to. What `int` makes of a text without a dash is a parameter, as is which characters are spaces;
-- the queries are translated where the tools ask them.
pub mod Quoting
pub mod Months
pub mod Periods
mod Tests
use Prim.Native.Char.{Char, code}
use Prim.Native.String.{String}
use quer_project_q.Common.{
  length, text_before, ℕ, zero, suc, ◌+◌, ◌/◌, ◌%◌, Bool, true, false, not, ◌&&◌, Option, none,
  some, List, [], ◌∷◌, ltb, leb, ◌==◌, if◌then◌else◌, str_append, ◌>>=◌, ℤ, ltb_ℤ, eqb_ℤ,
}
use quer_project_q.Agent.Narrator.Text.{Chars, one, strip}
use quer_project_q.Tools.{Event}
use quer_project_q.Tools.Overview.{earliest, latest}

-- glob.replace("'", "''")
unfoldable pub double_quotes : String → String
double_quotes String.[] = ""
double_quotes (String.◌∷◌ c s) =
    let rest = double_quotes s in
    if code c == 39 then String.◌∷◌ c (String.◌∷◌ c rest) else String.◌∷◌ c rest

-- What `connect` opens: a database file, or a view, given by its SQL, over the files of a directory.
pub data Connection : Type 0 where
  database : String → Connection
  view : String → Connection
  no_parquet_files : Connection

abbrev pub view_head : String
view_head =
    "CREATE VIEW cap_events AS SELECT DISTINCT ON (machine_id, head_id, ts) * FROM read_parquet('"

-- `connect`, given `os.path.isdir`, whether a glob finds a file, and `os.path.join`.
unfoldable pub connect :
    (String → Bool) → (String → Bool) → (String → String → String) → String → Connection
unfolding double_quotes
connect is_dir finds join store_path =
    let glob = join store_path "*.parquet" in
    if not (is_dir store_path)
    then database store_path
    else if not (finds glob)
    then no_parquet_files
    else view (str_append view_head (str_append (double_quotes glob) "')"))

-- An id into the ones that are there, in order and without repeats.
unfoldable pub add_head : ℤ → List ℤ → List ℤ
add_head h [] = h ∷ []
add_head h (k ∷ ks) =
    let rest = add_head h ks in
    if ltb_ℤ h k then h ∷ k ∷ ks else if eqb_ℤ h k then k ∷ ks else k ∷ rest

-- `discover_heads`, on the rows of the machine
unfoldable pub discover_heads : {Float : Type 0} → List (Event Float) → List ℤ
unfolding add_head
discover_heads [] = []
discover_heads (e ∷ es) = add_head e.head_id (discover_heads es)

-- `store_fingerprint`: MIN(ts) and MAX(ts) are NULL, the text "None", where there are no rows.
pub record StoreFingerprint : Type 0 where
  pub store_path : String
  pub rows : ℕ
  pub ts_min : Option ℕ
  pub ts_max : Option ℕ
  pub distinct_heads : ℕ

abbrev first_ts : {Float : Type 0} → List (Event Float) → Option ℕ
first_ts [] = none
first_ts (e ∷ es) = some (earliest e.ts es)

abbrev last_ts : {Float : Type 0} → List (Event Float) → Option ℕ
last_ts [] = none
last_ts (e ∷ es) = some (latest e.ts es)

-- On all rows of the store, given `os.path.basename`.
unfoldable pub store_fingerprint :
    {Float : Type 0} → (String → String) → String → List (Event Float) → StoreFingerprint
unfolding discover_heads earliest latest
store_fingerprint basename store_path es = record {
  store_path = basename store_path;
  rows = length es;
  ts_min = first_ts es;
  ts_max = last_ts es;
  distinct_heads = length (discover_heads es);
}

pub record Month : Type 0 where
  pub year : ℕ
  pub mon : ℕ

-- `year_n, mon_n`
unfoldable pub next_month : Month → Month
next_month t =
    if t.mon == 12
    then record { year = t.year + 1; mon = 1 }
    else record { year = t.year; mon = t.mon + 1 }

unfoldable pub digit_char : ℕ → Char
digit_char d =
    if d == 0
    then "0"
    else if d == 1
    then "1"
    else if d == 2
    then "2"
    else if d == 3
    then "3"
    else if d == 4
    then "4"
    else if d == 5
    then "5"
    else if d == 6
    then "6"
    else if d == 7
    then "7"
    else if d == 8
    then "8"
    else "9"

-- The last so many digits of a number, before a text.
unfoldable pub decimal : ℕ → ℕ → String → String
unfolding digit_char
decimal zero n tail = tail
decimal (suc width) n tail = decimal width (n / 10) (String.◌∷◌ (digit_char (n % 10)) tail)

-- The number of digits of a number, on fuel: the number itself is enough.
unfoldable pub digit_count : ℕ → ℕ → ℕ
digit_count zero n = 1
digit_count (suc fuel) n = let rest = digit_count fuel (n / 10) in if ltb n 10 then 1 else suc rest

-- f"{n:0{width}d}", before a text
unfoldable pub padded : ℕ → ℕ → String → String
unfolding decimal digit_count
padded width n tail =
    let digits = digit_count n n in decimal (if ltb digits width then width else digits) n tail

-- f"{year:04d}-{mon:02d}-01"
unfoldable pub first_day : Month → String
unfolding padded
first_day t = padded 4 t.year (String.◌∷◌ "-" (padded 2 t.mon "-01"))

abbrev pub prepend : Char → List String → List String
prepend c [] = one c ∷ []
prepend c (s ∷ ss) = String.◌∷◌ c s ∷ ss

-- `month.split("-")`
unfoldable pub split_dash : String → List String
split_dash String.[] = "" ∷ []
split_dash (String.◌∷◌ c s) =
    let rest = split_dash s in if code c == 45 then "" ∷ rest else prepend c rest

abbrev pub after_first : Char → Option (String × String) → Option (String × String)
after_first c none = none
after_first c (some (first, last)) = some (String.◌∷◌ c first, last)

-- `period.split("..", 1)`; `none` where ".." does not occur.
unfoldable pub split_dots : String → Option (String × String)
split_dots String.[] = none
split_dots (String.◌∷◌ c String.[]) = none
split_dots (String.◌∷◌ c (String.◌∷◌ d s)) =
    let rest = split_dots (String.◌∷◌ d s) in
    if code c == 46 && code d == 46 then some ("", s) else after_first c rest

-- The month of a text; the ValueErrors of `_month_bounds` are `unparseable` and `out_of_range`.
pub data MonthOf : Type 0 where
  month : Month → MonthOf
  unparseable out_of_range : MonthOf

abbrev pub checked_month : ℕ → ℕ → MonthOf
checked_month year mon =
    if leb 1 mon && leb mon 12 then month (record { year = year; mon = mon }) else out_of_range

-- The parameters of the clause: the whole store, or `ts >= start AND ts < end`.
pub data Clause : Type 0 where
  everything : Clause
  between : Month → Month → Clause
  bad_month : MonthOf → Clause
  reversed : Clause

-- A period of one month.
abbrev pub single : MonthOf → Clause
single (month t) = between t (next_month t)
single failure = bad_month failure

-- The bounds of a range, unless its start is not before its end.
abbrev pub range : MonthOf → MonthOf → Clause
range (month t) (month u) =
    if text_before (first_day t) (first_day (next_month u))
    then between t (next_month u)
    else reversed
range (month t) failure = bad_month failure
range failure later = bad_month failure

-- `int(x) for x in …`: both numbers, or a ValueError.
abbrev pub month_from : Option ℕ → Option ℕ → MonthOf
month_from (some year) (some mon) = checked_month year mon
month_from year mon = unparseable

module _ (chars : Chars) (int_of : String → Option ℕ) where
  abbrev pub parts_of : List String → MonthOf
  parts_of (y ∷ m ∷ []) = month_from (int_of y) (int_of m)
  parts_of parts = unparseable

  -- `_month_bounds`, up to the bounds' texts
  unfoldable pub month_of : String → MonthOf
  unfolding split_dash
  month_of text = parts_of (split_dash text)

  abbrev pub clause_of : String → Option (String × String) → Clause
  clause_of period (some (first, last)) =
      range (month_of (strip chars first)) (month_of (strip chars last))
  clause_of period none = single (month_of (strip chars period))

  -- `period_clause`
  unfoldable pub period_clause : Option String → Clause
  unfolding month_of split_dots first_day text_before next_month strip
  period_clause none = everything
  period_clause (some period) = clause_of period (split_dots period)

-- The texts that a query's clause is given.
unfoldable pub params : Clause → List String
unfolding first_day
params (between t u) = first_day t ∷ first_day u ∷ []
params clause = []

-- `scope_clause`: the machine's id, then the period's parameters.
unfoldable pub scope_params : String → Clause → List String
unfolding params
scope_params machine_id clause = machine_id ∷ params clause
