-- ===== src/Cleaning/Extract.antt =====
-- python/oracle.py: the reference dedup. `none` is an exception that leaves `extract`.
pub mod Held
pub mod Width
pub mod Parsed
pub mod Events
pub mod Total
use quer_project_q.Common.{
  ℕ, suc, ◌+◌, ◌*◌, String, Bool, true, false, not, Option, none, some, List, [], ◌∷◌, ◌++◌, ◌>>=◌,
  ◌==◌, ltb, if◌then◌else◌, map_option, slice, length, replicate, ℤ, pos, ◌-ℤ◌, ltb_ℤ, mod_ℤ,
}
use quer_project_q.Cleaning.Floats.{Floats}

abbrev pub num_heads : ℕ
num_heads = 36

-- The tuple of one closure, in its field order.
pub record CapEvent (Float : Type 0) : Type 0 where
  pub head_id : ℕ
  pub ts : String
  pub cap_seq : ℤ
  pub torque : Float
  pub status : Float
  pub delta : ℤ
  pub is_fault : Bool
  pub aggregated : Bool
  pub reset : Bool

-- `counts[h], torque[h], status[h]`
pub record Reading (Float : Type 0) : Type 0 where
  pub count : Float
  pub torque : Float
  pub status : Float

pub record Row (Float : Type 0) : Type 0 where
  pub ts : String
  pub readings : List (Reading Float)

abbrev pub zip_readings :
    {Float : Type 0} → List Float → List Float → List Float → List (Reading Float)
zip_readings (c ∷ cs) (t ∷ ts) (s ∷ ss) =
    record { count = c; torque = t; status = s } ∷ zip_readings cs ts ss
zip_readings _ _ _ = []

module _ (F : Floats) where
  open F use {Float, parse, round, to_int}

  -- Bit 0 of the status, by Python's floored `%`.
  unfoldable pub is_reject : Float → Option Bool
  is_reject status = do n ← to_int status; some (not (mod_ℤ n 2 == 0))

  -- `none` is a row that is skipped: too short, or with a cell that does not parse.
  unfoldable pub parse_row : List String → Option (Row Float)
  parse_row [] = none
  parse_row (ts ∷ cells) =
      let row = ts ∷ cells in
      if ltb (length row) (1 + num_heads * 3) then none else (do
        counts ← map_option parse (slice 1 (1 + num_heads) row)
        torque ← map_option parse (slice (1 + num_heads) (1 + 2 * num_heads) row)
        status ← map_option parse (slice (1 + 2 * num_heads) (1 + 3 * num_heads) row)
        some (record { ts = ts; readings = zip_readings counts torque status }))

  -- The tests on one head's counter `c` against its last value.
  unfoldable pub advance :
      ℕ → String → Option ℤ → ℤ → Reading Float → Option (ℤ × List (CapEvent Float))
  advance h ts none c r = some (c, [])
  advance h ts (some l) c r =
      if ltb_ℤ l c
      then (do
        fault ← is_reject r.status
        some (
          c,
          record {
            head_id = h + 1;
            ts = ts;
            cap_seq = c;
            torque = r.torque;
            status = r.status;
            delta = c -ℤ l;
            is_fault = fault;
            aggregated = ltb_ℤ (pos 1) (c -ℤ l);
            reset = false;
          }
              ∷ [],
        ))
      else if ltb_ℤ c l
      then (do
        fault ← is_reject r.status
        some (
          c,
          record {
            head_id = h + 1;
            ts = ts;
            cap_seq = c;
            torque = r.torque;
            status = r.status;
            delta = pos 0;
            is_fault = fault;
            aggregated = false;
            reset = true;
          }
              ∷ [],
        ))
      else some (l, [])

  -- `for h in range(NUM_HEADS)`, from head `h` on, over what is left of `last` and the row.
  unfoldable pub heads_step :
      ℕ
      → String
      → List (Option ℤ)
      → List (Reading Float)
      → Option (List (Option ℤ) × List (CapEvent Float))
  heads_step h ts [] rs = some ([], [])
  heads_step h ts (l ∷ ls) [] = some (l ∷ ls, [])
  heads_step h ts (l ∷ ls) (r ∷ rs) = do
    c ← round r.count
    (l', es) ← advance h ts l c r
    (ls', fs) ← heads_step (suc h) ts ls rs
    some (some l' ∷ ls', es ++ fs)

  -- `for row in reader`, from the counters `last`: the events, and the number of skipped rows.
  unfoldable pub extract_rows :
      List (Option ℤ) → List (List String) → Option (List (CapEvent Float) × ℕ)
  extract_rows last [] = some ([], 0)
  extract_rows last (row ∷ rows) = elim (parse_row row) [
    | none ↦ extract_rows last rows >>= λ (es, skipped). some (es, skipped + 1)
    | some r ↦ heads_step 0 r.ts last r.readings >>= λ (last', es).
        extract_rows last' rows >>= λ (fs, skipped). some (es ++ fs, skipped)
  ]

  -- The rows of a file, its header first; a file with no header raises StopIteration.
  unfoldable pub extract : List (List String) → Option (List (CapEvent Float) × ℕ)
  unfolding extract_rows
  extract [] = none
  extract (header ∷ rows) = extract_rows (replicate num_heads none) rows
