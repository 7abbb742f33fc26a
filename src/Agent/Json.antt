-- ===== src/Agent/Json.antt =====
-- JSON values as Python holds them, after `json.loads`. The floats are a parameter.
use quer_project_q.Common.{
  String, Bool, true, false, not, Option, none, some, List, [], ◌∷◌, str_eq, if◌then◌else◌, ℤ, pos,
  eqb_ℤ,
}

mutual
  pub data Json (Float : Type 0) : Type 0 where
    null : Json Float
    bool : Bool → Json Float
    int : ℤ → Json Float
    num : Float → Json Float
    str : String → Json Float
    arr : Items Float → Json Float
    obj : Fields Float → Json Float

  pub data Items (Float : Type 0) : Type 0 where
    nil : Items Float
    cons : Json Float → Items Float → Items Float

  pub data Fields (Float : Type 0) : Type 0 where
    end : Fields Float
    field : String → Json Float → Fields Float → Fields Float

-- A dict with string keys, in its order.
abbrev pub Dict : Type 0 → Type 0
Dict Float = List (String × Json Float)

module _ {Float : Type 0} where
  abbrev pub items : Items Float → List (Json Float)
  items nil = []
  items (cons x xs) = x ∷ items xs

  abbrev pub fields : Fields Float → Dict Float
  fields end = []
  fields (field k v fs) = (k, v) ∷ fields fs

  -- `k in d`
  abbrev pub contains : String → Dict Float → Bool
  contains k [] = false
  contains k ((j, v) ∷ d) = let rest = contains k d in if str_eq j k then true else rest

  -- `d.get(k)`; `none` is a key that is not there.
  abbrev pub get : String → Dict Float → Option (Json Float)
  get k [] = none
  get k ((j, v) ∷ d) = let rest = get k d in if str_eq j k then some v else rest

  -- `d.get(k)` as Python gives it: None where the key is not there.
  abbrev pub get_or_null : String → Dict Float → Json Float
  get_or_null k d = elim (get k d) [ none ↦ null | some v ↦ v ]

  abbrev pub is_null : Json Float → Bool
  is_null null = true
  is_null _ = false

  -- A list and a dict cannot be looked up in a dict: Python raises TypeError.
  abbrev pub is_hashable : Json Float → Bool
  is_hashable (arr xs) = false
  is_hashable (obj fs) = false
  is_hashable _ = true

  -- `bool(v)`, given whether a float is zero.
  abbrev pub truthy : (Float → Bool) → Json Float → Bool
  truthy zero_float null = false
  truthy zero_float (bool b) = b
  truthy zero_float (int n) = not (eqb_ℤ n (pos 0))
  truthy zero_float (num x) = not (zero_float x)
  truthy zero_float (str s) = not (str_eq s "")
  truthy zero_float (arr nil) = false
  truthy zero_float (arr (cons x xs)) = true
  truthy zero_float (obj end) = false
  truthy zero_float (obj (field k v fs)) = true
