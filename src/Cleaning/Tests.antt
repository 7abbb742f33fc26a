-- ===== src/Cleaning/Tests.antt =====
-- Runs of the cleaners on small files: floats are integers, and a cell is one digit.
use quer_project_q.Common.{
  ℕ, zero, suc, ◌+◌, ◌*◌, ◌≤◌, String, ◌≡◌, refl, ap, Bool, true, false, Option, none, some, List,
  [], ◌∷◌, ◌++◌, map, length, length-map, arith, str_eq, if◌then◌else◌, replicate, All, ℤ, pos,
  ◌-ℤ◌, ltb_ℤ, eqb_ℤ,
}
use quer_project_q.Cleaning.Floats.{Floats}
use quer_project_q.Cleaning.Extract.{CapEvent, Reading, Row, parse_row, extract, num_heads}
use quer_project_q.Cleaning.Extract.Parsed.{parsed_rows}
use quer_project_q.Cleaning.Extract.Held.{extract-held}
use quer_project_q.Cleaning.Extract.Events.{IsEvent}
use quer_project_q.Cleaning.Extract.Total.{IsFinite, IsFiniteRow, extract-returns}
use quer_project_q.Cleaning.Vectorized.{
  Pandas, FrameRow, expected_header, extract_frame, transform, arrays, wrap64, frame_has_nan,
}
use quer_project_q.Cleaning.Vectorized.Pairs.{IsRounded}
use quer_project_q.Cleaning.Vectorized.Rows.{row_of, events}
use quer_project_q.Cleaning.Vectorized.Equivalence.{IsCounted, ReadsCsv, extract_frame-extract}
use quer_project_q.Cleaning.Union.{union_rows}
use quer_project_q.Cleaning.Union.Redelivery.{union_rows-redelivered}
use quer_project_q.Cleaning.Kpi.{Kpis, kpis, columns_with}
use quer_project_q.Cleaning.Kpi.Counts.{kpis-IsTally}

abbrev digit : String → Option ℤ
digit s =
    if str_eq s "0"
    then some (pos 0)
    else if str_eq s "1"
    then some (pos 1)
    else if str_eq s "2"
    then some (pos 2)
    else if str_eq s "3"
    then some (pos 3)
    else none

abbrev whole : Floats
whole = record {
  Float = ℤ;
  parse = digit;
  round = λ n. some n;
  to_int = λ n. some n;
  is_nan = λ n. false;
  above = λ n m. ltb_ℤ m n;
  equals = eqb_ℤ;
}

-- A poll: its time, the counter of head 1, and the counter of the others.
abbrev poll : String → String → String → List String
poll ts first other = ts ∷ first ∷ replicate 35 other ++ replicate 36 "2" ++ replicate 36 "1"

abbrev readings : ℤ → ℤ → List (Reading ℤ)
readings first other =
    record { count = first; torque = pos 2; status = pos 1 }
    ∷ replicate 35 (record { count = other; torque = pos 2; status = pos 1 })

parse_poll :
    parse_row whole (poll "b" "2" "1")
    ≡ some (record { ts = "b"; readings = readings (pos 2) (pos 1) })
unfolding parse_row
parse_poll = refl

parse_poll' :
    parse_row whole (poll "c" "2" "1")
    ≡ some (record { ts = "c"; readings = readings (pos 2) (pos 1) })
unfolding parse_row
parse_poll' = refl

extract-held_example :
    extract whole
      ([] ∷ poll "a" "1" "1" ∷ poll "b" "2" "1" ∷ poll "c" "2" "1" ∷ poll "d" "0" "1" ∷ [])
    ≡ extract whole ([] ∷ poll "a" "1" "1" ∷ poll "b" "2" "1" ∷ poll "d" "0" "1" ∷ [])
extract-held_example =
    extract-held whole [] (poll "a" "1" "1" ∷ []) (poll "d" "0" "1" ∷ []) (poll "b" "2" "1")
      (poll "c" "2" "1") (record { ts = "b"; readings = readings (pos 2) (pos 1) })
      (record { ts = "c"; readings = readings (pos 2) (pos 1) }) parse_poll parse_poll' refl

-- A short row, and the three readable ones.
abbrev polls : List (List String)
polls = poll "a" "1" "1" ∷ ("x" ∷ []) ∷ poll "b" "3" "1" ∷ poll "c" "0" "1" ∷ []

parsed_polls :
    parsed_rows whole polls
    ≡ record { ts = "a"; readings = readings (pos 1) (pos 1) }
      ∷ record { ts = "b"; readings = readings (pos 3) (pos 1) }
      ∷ record { ts = "c"; readings = readings (pos 0) (pos 1) }
      ∷ []
unfolding parsed_rows parse_row
parsed_polls = refl

All-replicate : {A : Type 0} (P : A → Type 0) (n : ℕ) (a : A) → P a → All P (replicate n a)
All-replicate P zero a h = tt
All-replicate P (suc n) a h = (h, All-replicate P n a h)

All-readings :
    (P : Reading ℤ → Type 0) (first other : ℤ)
    → P (record { count = first; torque = pos 2; status = pos 1 })
    → P (record { count = other; torque = pos 2; status = pos 1 })
    → All P (readings first other)
All-readings P first other h k =
    (h, All-replicate P 35 (record { count = other; torque = pos 2; status = pos 1 }) k)

polls-IsFiniteRow : All (IsFiniteRow whole) (parsed_rows whole polls)
polls-IsFiniteRow = rw parsed_polls (
  All-readings (IsFinite whole) (pos 1) (pos 1) ((_, refl), (_, refl)) ((_, refl), (_, refl)),
  (
    All-readings (IsFinite whole) (pos 3) (pos 1) ((_, refl), (_, refl)) ((_, refl), (_, refl)),
    (
      All-readings (IsFinite whole) (pos 0) (pos 1) ((_, refl), (_, refl)) ((_, refl), (_, refl)),
      tt,
    ),
  ),
)

extract-returns_example :
    (es : List (CapEvent ℤ)) × (skipped : ℕ) × (extract whole ([] ∷ polls) ≡ some (es, skipped))
    × All (IsEvent whole num_heads) es
    × (length (parsed_rows whole polls) + skipped ≡ length polls)
    × (length es ≤ num_heads * length (parsed_rows whole polls))
extract-returns_example = extract-returns whole [] polls polls-IsFiniteRow

-- A `read_csv` that yields the rows that parse.
abbrev frame_of : Row ℤ → FrameRow ℤ
frame_of r = record { ts = some r.ts; readings = r.readings }

abbrev parsed_only : Pandas whole
parsed_only = record {
  read_csv = λ rows. some (map frame_of (parsed_rows whole rows));
  rint = λ n. n;
}

row_of-frame_of : (rows : List (Row ℤ)) → map (row_of whole parsed_only) (map frame_of rows) ≡ rows
row_of-frame_of [] = refl
row_of-frame_of (r ∷ rows) = ap (λ rs. r ∷ rs) (row_of-frame_of rows)

parsed_only-ReadsCsv : (rows : List (List String)) → ReadsCsv whole parsed_only rows
parsed_only-ReadsCsv rows = record {
  covers = λ df e.
      let same : map frame_of (parsed_rows whole rows) ≡ df = ground (arith, e) in
      rw (← same) (omega (arith, length-map (parsed_rows whole rows) frame_of));
  exact = λ df e nan.
      let same : map frame_of (parsed_rows whole rows) ≡ df = ground (arith, e) in
      rw (← same) (row_of-frame_of (parsed_rows whole rows));
}

polls-IsCounted : All (IsCounted whole parsed_only) (parsed_rows whole polls)
polls-IsCounted = rw parsed_polls (
  All-readings (IsRounded whole parsed_only) (pos 1) (pos 1) (refl, (omega arith, omega arith))
      (refl, (omega arith, omega arith)),
  (
    All-readings (IsRounded whole parsed_only) (pos 3) (pos 1) (refl, (omega arith, omega arith))
        (refl, (omega arith, omega arith)),
    (
      All-readings (IsRounded whole parsed_only) (pos 0) (pos 1) (refl, (omega arith, omega arith))
          (refl, (omega arith, omega arith)),
      tt,
    ),
  ),
)

extract_frame-extract_example :
    extract_frame whole parsed_only expected_header expected_header polls
    ≡ events whole parsed_only (extract whole (expected_header ∷ polls))
extract_frame-extract_example =
    extract_frame-extract whole parsed_only expected_header polls (parsed_only-ReadsCsv polls)
      polls-IsCounted

abbrev seen : CapEvent ℤ → String × ℤ × Bool
seen e = (e.ts, e.delta, e.reset)

-- A reset of head 1, after an advance of two caps.
extract_frame-polls :
    map seen (elim (extract_frame whole parsed_only expected_header expected_header polls) [
      | none ↦ []
      | some es ↦ es
    ])
    ≡ (("b", pos 2, false) ∷ ("c", pos 0, true) ∷ [])
unfolding extract_frame parsed_rows parse_row transform arrays frame_has_nan wrap64 ◌-ℤ◌
extract_frame-polls = refl

union_rows-redelivered_example :
    union_rows whole (([] ∷ polls) ∷ ([] ∷ []) ∷ ([] ∷ polls) ∷ [])
    ≡ union_rows whole (([] ∷ polls) ∷ ([] ∷ []) ∷ [])
union_rows-redelivered_example = union_rows-redelivered whole [] (([] ∷ []) ∷ []) [] ([] ∷ polls)

abbrev kpi_header : List String
kpi_header = "timestamp" ∷ "H01 Count" ∷ "H01 AppTorque" ∷ "H01 Status" ∷ []

abbrev kpi_rows : List (List String)
kpi_rows =
    ("a" ∷ "1" ∷ "2" ∷ "0" ∷ [])
    ∷ ("b" ∷ "2" ∷ "2" ∷ "0" ∷ [])
    ∷ ("c" ∷ "3" ∷ "2" ∷ "3" ∷ [])
    ∷ ("d" ∷ "0" ∷ "0" ∷ "2" ∷ [])
    ∷ []

abbrev kpi_counts : Kpis
kpi_counts = record { capping_operations = 2; successful = 1; failed = 1; no_load_cycles = 1 }

kpis_run : kpis whole (kpi_header ∷ kpi_rows) ≡ some kpi_counts
unfolding kpis
kpis_run = refl

kpis-IsTally_example :
    (kpi_counts.successful + kpi_counts.failed ≤ kpi_counts.capping_operations)
    × (kpi_counts.capping_operations ≤ length (columns_with "Count" 0 kpi_header) * length kpi_rows)
    × (kpi_counts.no_load_cycles ≤ length (columns_with "Count" 0 kpi_header) * length kpi_rows)
kpis-IsTally_example = kpis-IsTally whole kpi_header kpi_rows kpi_counts kpis_run
