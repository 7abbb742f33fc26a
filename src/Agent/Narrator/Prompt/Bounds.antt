-- ===== src/Agent/Narrator/Prompt/Bounds.antt =====
-- What of the results reaches the prompt, `_payload` of python/analytics/agent/narrator.py.
use quer_project_q.Common.{ℕ, String, ◌≡◌, refl, some, List, [], ◌∷◌, map}
use quer_project_q.Agent.Json.{Json, str, arr, obj, Items, nil, cons, Fields, fields, get}
use quer_project_q.Agent.Executor.{Execution, ToolResult}
use quer_project_q.Agent.Narrator.Bounded.{IsBounded, bounded-lem}
use quer_project_q.Agent.Narrator.Prompt.{Setting, items_of, status_text, payload_item, payload}

module _ {Float : Type 0} (S : Setting Float) (limit : ℕ) where
  -- The value at a key, which is bounded.
  abbrev pub HasBounded : String → Fields Float → Type 0
  HasBounded key fs = (v : Json Float) × (get key (fields fs) ≡ some v) × IsBounded S.show limit v

  -- An object with the tool and the status of the result, whose message, values and provenance are
  -- bounded.
  abbrev pub IsItemOf : ToolResult Float → Json Float → Type 0
  IsItemOf r (obj fs) =
      (get "tool" (fields fs) ≡ some r.tool)
      × (get "status" (fields fs) ≡ some (str (status_text r.status)))
      × HasBounded "message" fs
      × HasBounded "values" fs
      × HasBounded "provenance" fs
  IsItemOf r v = ⊥

  -- An item for each result.
  abbrev pub AreBounded : List (ToolResult Float) → Items Float → Type 0
  AreBounded [] nil = Unit
  AreBounded [] (cons v vs) = ⊥
  AreBounded (r ∷ rs) nil = ⊥
  AreBounded (r ∷ rs) (cons v vs) = IsItemOf r v × AreBounded rs vs

  payload_item-IsItemOf : (r : ToolResult Float) → IsItemOf r (payload_item S limit r)
  unfolding payload_item
  payload_item-IsItemOf r = (
    refl,
    refl,
    (_, refl, bounded-lem S.show limit _),
    (_, refl, bounded-lem S.show limit _),
    (_, refl, bounded-lem S.show limit _),
  )

  items_of-AreBounded :
      (rs : List (ToolResult Float)) → AreBounded rs (items_of (map (payload_item S limit) rs))
  items_of-AreBounded [] = tt
  items_of-AreBounded (r ∷ rs) = (payload_item-IsItemOf r, items_of-AreBounded rs)

  -- What the prompt shows of an execution is the JSON of one object for each of its results, in
  -- their order, with its tool and its status. Whatever the tool returned, in the message, the
  -- values and the provenance of it no list, at any depth, has more items than the limit, and every
  -- text has at most 4000 characters, or is the first 4000 of one with the note of the cut, or is
  -- the note beside a sample.
  pub payload-AreBounded :
      (x : Execution Float)
      → (vs : Items Float) × (payload S x limit ≡ S.dumps (arr vs)) × AreBounded x.results vs
  unfolding payload
  payload-AreBounded x =
      (items_of (map (payload_item S limit) x.results), refl, items_of-AreBounded x.results)
