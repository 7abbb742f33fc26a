-- ===== src/Tools/Filter.antt =====
-- python/analytics/tools/filter.py.
pub mod Counted
use quer_project_q.Common.{
  ℕ, String, Bool, true, false, not, ◌&&◌, Option, none, some, List, [], ◌∷◌, map, ◌>>=◌, ◌==◌, ltb,
  str_eq, if◌then◌else◌, length, take, where_holds, map_option, sort_by, ℤ, pos, ltb_ℤ, eqb_ℤ,
  mod_ℤ, ◌||◌,
}
use quer_project_q.Cleaning.Floats.{Floats}
use quer_project_q.Agent.Config.{Number}
use quer_project_q.Agent.Status.{decode}
use quer_project_q.Tools.{Event, Answer, found, no_data, bad_argument, Reals, holds}
use quer_project_q.Tools.Grouping.{groups, count_where}

pub data Outcome : Type 0 where
  successful failed all : Outcome

-- `outcome in _OUTCOMES`
unfoldable pub outcome_of : String → Option Outcome
outcome_of s =
    if str_eq s "successful"
    then some successful
    else if str_eq s "failed"
    then some failed
    else if str_eq s "all"
    then some all
    else none

-- A condition of an argument that is not None.
abbrev pub if_given : {A : Type 0} → (A → Bool) → Option A → Bool
if_given p none = true
if_given p (some a) = p a

-- The outcome of a listed event.
pub data Label : Type 0 where
  rejected : List String → Label
  ok no_verdict : Label

abbrev or_unspecified : List String → List String
or_unspecified [] = "unspecified" ∷ []
or_unspecified (n ∷ ns) = n ∷ ns

pub record Listed (Float : Type 0) : Type 0 where
  pub row : Event Float
  pub label : Label

pub record Filtered (Float : Type 0) : Type 0 where
  pub count : ℕ
  pub capping_operations : ℕ
  pub by_head : List (ℤ × ℕ)
  pub events : List (Listed Float)
  pub listed : ℕ

-- ORDER BY COUNT(*) DESC, of groups that are in the order of their heads
abbrev pub more_often : ℤ × ℕ → ℤ × ℕ → Bool
more_often a b = ltb b.1 a.1

module _ {Float : Type 0} where
  -- ORDER BY ts, cap_seq
  abbrev pub in_time : Event Float → Event Float → Bool
  in_time d e = ltb d.ts e.ts || (d.ts == e.ts && ltb_ℤ d.cap_seq e.cap_seq)

  abbrev pub head_count : ℤ × List (Event Float) → ℤ × ℕ
  head_count g = (g.0, length g.1)

-- The arguments, the settings and the tests. `F` gives `int` on a status.
module _ (F : Floats) (R : Reals F.Float) (success : Number F.Float) where
  open F use {Float, to_int}
  open R use {positive, over, under, equals, odd}

  -- app_torque > 0
  abbrev pub with_load : Event Float → Bool
  with_load e = holds positive e.app_torque

  abbrev pub has_outcome : Outcome → Event Float → Bool
  has_outcome all e = true
  has_outcome successful e = holds (λ s. equals s success) e.status
  has_outcome failed e = holds odd e.status

  -- The WHERE clause.
  unfoldable pub matches :
      Option (Number Float) → Option (Number Float) → Option ℤ → Outcome → Event Float → Bool
  matches above below head outcome e =
      with_load e
      && if_given (λ limit. holds (λ x. over x limit) e.app_torque) above
      && if_given (λ limit. holds (λ x. under x limit) e.app_torque) below
      && if_given (λ h. eqb_ℤ e.head_id h) head
      && has_outcome outcome e

  -- `none` is the exception of `int` on NULL, a nan or an infinity.
  unfoldable pub label_of : Event Float → Option (Listed Float)
  unfolding decode
  label_of e = do
    status ← e.status
    bits ← to_int status
    decoded ← decode F status
    some (record {
      row = e;
      label =
          if mod_ℤ bits 2 == 1
          then rejected (or_unspecified decoded.names)
          else if equals status success
          then ok
          else no_verdict;
    })

  -- The rows that are itemised: the first 20.
  unfoldable pub listed_rows : List (Event Float) → List (Event Float)
  listed_rows kept = take 20 (sort_by in_time kept)

  unfoldable pub summary : ℕ → List (Event Float) → Option (Filtered Float)
  unfolding label_of listed_rows
  summary in_scope kept = do
    events ← map_option label_of (listed_rows kept)
    some (record {
      count = length kept;
      capping_operations = in_scope;
      by_head = sort_by more_often (map head_count (groups (λ e. e.head_id) kept));
      events = events;
      listed = length events;
    })

  -- The head must be a number from 1.
  abbrev pub bad_head : Option ℤ → Bool
  bad_head none = false
  bad_head (some h) = ltb_ℤ h (pos 1)

  -- `closure_filter` on the rows in scope; `none` is an exception.
  unfoldable pub closure_filter :
      Option (Number Float)
      → Option (Number Float)
      → String
      → Option ℤ
      → List (Event Float)
      → Option (Answer (Filtered Float))
  unfolding matches summary outcome_of
  closure_filter above below outcome head rows = elim (outcome_of outcome) [
    | none ↦ some bad_argument
    | some o ↦
        if bad_head head
        then some bad_argument
        else if count_where with_load rows == 0
        then some no_data
        else summary (count_where with_load rows) (where_holds (matches above below head o) rows)
          >>= λ v. some (found v)
  ]
