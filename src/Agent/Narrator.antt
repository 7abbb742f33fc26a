-- ===== src/Agent/Narrator.antt =====
-- python/analytics/agent/narrator.py. The prose of the prompts is left out: `write` makes the user's
-- turn from its parts. `json.dumps` and the deterministic report are parameters.
pub mod Bounded
pub mod Text
pub mod Prompt
pub mod Writing
pub mod Written
pub mod Local
pub mod Raised
pub mod Cuts
pub mod Tests
use Prim.Native.String.{count}
use quer_project_q.Common.{
  ℕ, suc, ◌+◌, ◌/◌, ◌-◌, String, Bool, true, false, not, ◌&&◌, ◌||◌, Option, none, some, List, [],
  ◌∷◌, ◌++◌, map, ◌>>=◌, ◌==◌, leb, str_eq, str_append, if◌then◌else◌, ℤ, pos, negsuc,
}
use quer_project_q.Agent.Json.{
  Json, null, str, arr, obj, Items, nil, cons, Fields, end, field, Dict, items, fields, get, truthy,
}
use quer_project_q.Agent.Config.{Config}
use quer_project_q.Agent.Plan.{Source, router, llm}
use quer_project_q.Agent.Executor.{Execution, ToolResult}
use quer_project_q.Agent.Model.{Failure, Loads, Client, Reply, json_call, make_client}
use quer_project_q.Agent.Narrator.Text.{
  Chars, join, is_empty, all_texts, texts_where, splitlines, ends_with_colon, rstrip, strip,
  strip_marker, has_bullet, numbers, without, after_dot,
}

-- Why a model's text is worse than the template.
pub data Thin : Type 0 where
  empty_section no_bullet only_lead_ins : Thin
  ungrounded_number : String → Thin

-- Why the model did not write the narrative.
pub data Note : Type 0 where
  no_client : String → Note
  model_failed : Option Failure → Note
  missing_section : Note
  thin : Thin → Note
  summary_failed_too : Note → String → Note

-- `source`: the template or the model. `note`: `none` is the empty one.
pub data Writer : Type 0 where
  template model : Writer

pub record Narrative : Type 0 where
  pub findings : String
  pub next_checks : String
  pub source : Writer
  pub note : Option Note

-- What `summarise` does; its narrative is the template's, with no note.
pub data Summary : Type 0 where
  summarised : String → String → Summary
  summary_failed : String → Summary

-- What the tests on numbers need of Python's floats: `float(text)`, and whether two floats differ
-- by at most half a unit of so many decimal places, and a billionth.
pub record Decimals (Float : Type 0) : Type 0 where
  pub of_text : String → Float
  pub close : ℕ → Float → Float → Bool

abbrev or_else {ℓ} : {A : Type ℓ} → Option A → Option A → Option A
or_else none o = o
or_else (some a) o = some a

module _ {Float : Type 0} (chars : Chars) (shown : Json Float → String) where
  -- `str(item)`
  abbrev text_of : Json Float → String
  text_of (str s) = s
  text_of v = shown v

  -- "\n".join(f"- {item}" for item in items if item)
  unfoldable pub bullet_lines : List (Json Float) → List String
  unfolding strip strip_marker
  bullet_lines [] = []
  bullet_lines (v ∷ vs) =
      let item = strip chars (strip_marker chars (text_of v)) in
      let rest = bullet_lines vs in if is_empty item then rest else str_append "- " item ∷ rest

  -- `_bullets`
  unfoldable pub bullets : Json Float → String
  unfolding bullet_lines join
  bullets (arr xs) = join "\n" (bullet_lines (items xs))
  bullets v = text_of v

module _ (chars : Chars) where
  abbrev pub is_blank : String → Bool
  is_blank s = is_empty (strip chars s)

  -- `_unsubstantiated`
  unfoldable pub unsubstantiated : String → Option Thin
  unfolding strip has_bullet splitlines rstrip ends_with_colon
  unsubstantiated findings =
      if is_empty findings || is_blank findings
      then some empty_section
      else if not (has_bullet chars findings)
      then some no_bullet
      else if all_texts (λ ln. ends_with_colon (rstrip chars ln))
          (texts_where (λ ln. not (is_blank ln)) (splitlines findings))
      then some only_lead_ins
      else none

  module _ {Float : Type 0} (decimals : Decimals Float) where
    open decimals use {of_text, close}

    abbrev pub some_close : ℕ → Float → List String → Bool
    some_close places x [] = false
    some_close places x (n ∷ ns) = close places x (of_text n) || some_close places x ns

    -- The number is a single digit, or it is one of `known`, rounded.
    unfoldable pub is_carried : List String → String → Bool
    unfolding without after_dot
    is_carried known n =
        leb (count (without 46 n)) 1 || some_close (count (after_dot n)) (of_text n) known

    unfoldable pub first_uncarried : List String → List String → Option Thin
    unfolding is_carried
    first_uncarried known [] = none
    first_uncarried known (n ∷ ns) =
        let rest = first_uncarried known ns in
        if is_carried known n then rest else some (ungrounded_number n)

    -- `_ungrounded`
    unfoldable pub ungrounded : String → String → String → Option Thin
    unfolding first_uncarried numbers
    ungrounded answer findings question =
        first_uncarried (numbers chars findings ++ numbers chars question) (numbers chars answer)

-- `_ROW_CAPS`
abbrev pub row_caps : List ℕ
row_caps = 120 ∷ 60 ∷ 40 ∷ 20 ∷ 10 ∷ 5 ∷ []

-- How many rows a table may have, and a daily one: the daily tables are cut first.
unfoldable pub attempts : List (ℕ × ℕ)
attempts = map (λ day. (120, day)) row_caps ++ map (λ head. (head, 5)) (60 ∷ 40 ∷ 20 ∷ 10 ∷ 5 ∷ [])

-- The text of the first attempt that fits, or that of the last one.
unfoldable pub first_fit : (String → Bool) → (ℕ × ℕ → String) → List (ℕ × ℕ) → String
first_fit fits tables [] = ""
first_fit fits tables (a ∷ []) = tables a
first_fit fits tables (a ∷ b ∷ rest) =
    let next = first_fit fits tables (b ∷ rest) in if fits (tables a) then tables a else next
