-- ===== src/Agent/Narrator/Bounded.antt =====
-- `_bounded` of python/analytics/agent/narrator.py: what of a result reaches the prompt.
use Prim.Native.String.{String, [], ◌∷◌, count}
use quer_project_q.Common.{
  ℕ, zero, suc, ◌-◌, ◌≤◌, ◌≡◌, refl, Bool-cases, inl, inr, ◌⊎◌, arith, ltb, if◌then◌else◌,
  str_append, ltb→le, pos,
}
use quer_project_q.Agent.Json.{
  Json, null, bool, int, num, str, arr, obj, Items, nil, cons, Fields, end, field,
}

-- `value[:n]`
abbrev pub prefix : ℕ → String → String
prefix zero s = []
prefix (suc n) [] = []
prefix (suc n) (c ∷ s) = c ∷ prefix n s

-- `_MAX_STR_CHARS`
abbrev pub max_str_chars : ℕ
max_str_chars = 4000

-- `show` is `str` on an int.
module _ (show : ℕ → String) where
  -- The note after a text that was cut.
  unfoldable pub cut_note : String → String
  cut_note s = str_append " ... [truncated " (
      str_append (show (count s - max_str_chars))
        (str_append " of " (str_append (show (count s)) " chars]")))

  -- The note beside a sample of a list.
  unfoldable pub sample_note : ℕ → ℕ → String
  sample_note limit n = str_append "list truncated to the first " (
      str_append (show limit) (
        str_append " of " (
          str_append (show n)
            ": a sample in no useful order, so name no longest, largest, first or only item from it; use the summary fields")))

  unfoldable pub bounded_text : String → String
  unfolding cut_note
  bounded_text s =
      if ltb max_str_chars (count s) then str_append (prefix max_str_chars s) (cut_note s) else s

module _ {Float : Type 0} where
  abbrev pub item_count : Items Float → ℕ
  item_count nil = 0
  item_count (cons x xs) = suc (item_count xs)

  -- `value[:n]`
  abbrev pub first_items : ℕ → Items Float → Items Float
  first_items zero xs = nil
  first_items (suc n) nil = nil
  first_items (suc n) (cons x xs) = cons x (first_items n xs)

module _ (show : ℕ → String) (limit : ℕ) where
  -- A text of at most so many characters, or the start of one with its note.
  abbrev pub IsShort : String → Type 0
  IsShort s =
      (count s ≤ max_str_chars)
      ⊎ ((t : String) × (s ≡ str_append (prefix max_str_chars t) (cut_note show t)))
      ⊎ ((n : ℕ) × (s ≡ sample_note show limit n))

  bounded_text-IsShort : (s : String) → IsShort (bounded_text show s)
  unfolding bounded_text
  bounded_text-IsShort s = elim (Bool-cases (ltb max_str_chars (count s))) [
    | inl long ↦ rw long (inr (inl (s, refl)))
    | inr short ↦ rw short (inl (ltb→le max_str_chars (count s) short))
  ]

module _ {Float : Type 0} (show : ℕ → String) (limit : ℕ) where
  -- A list whose items are bounded already, or its sample.
  unfoldable pub bounded_list : Items Float → Json Float
  unfolding sample_note
  bounded_list xs =
      if ltb limit (item_count xs)
      then obj (
          field "item_count" (int (pos (item_count xs))) (
            field "note" (str (sample_note show limit (item_count xs)))
              (field "sample" (arr (first_items limit xs)) end)))
      else arr xs

  mutual
    pub bounded : Json Float → Json Float
    bounded (str s) = str (bounded_text show s)
    bounded (arr xs) = bounded_list (bounded_items xs)
    bounded (obj fs) = obj (bounded_fields fs)
    bounded null = null
    bounded (bool b) = bool b
    bounded (int n) = int n
    bounded (num x) = num x

    pub bounded_items : Items Float → Items Float
    bounded_items nil = nil
    bounded_items (cons x xs) = cons (bounded x) (bounded_items xs)

    pub bounded_fields : Fields Float → Fields Float
    bounded_fields end = end
    bounded_fields (field k v fs) = field k (bounded v) (bounded_fields fs)

  -- Every list in the value, at any depth, has at most `limit` items, and every text is short.
  mutual
    pub IsBounded : Json Float → Type 0
    IsBounded (str s) = IsShort show limit s
    IsBounded (arr xs) = (item_count xs ≤ limit) × AreBoundedItems xs
    IsBounded (obj fs) = AreBoundedFields fs
    IsBounded null = Unit
    IsBounded (bool b) = Unit
    IsBounded (int n) = Unit
    IsBounded (num x) = Unit

    pub AreBoundedItems : Items Float → Type 0
    AreBoundedItems nil = Unit
    AreBoundedItems (cons x xs) = IsBounded x × AreBoundedItems xs

    pub AreBoundedFields : Fields Float → Type 0
    AreBoundedFields end = Unit
    AreBoundedFields (field k v fs) = IsBounded v × AreBoundedFields fs

  item_count-first_items : (n : ℕ) (xs : Items Float) → item_count (first_items n xs) ≤ n
  item_count-first_items zero xs = omega arith
  item_count-first_items (suc n) nil = omega arith
  item_count-first_items (suc n) (cons x xs) = omega (arith, item_count-first_items n xs)

  first_items-AreBounded :
      (n : ℕ) (xs : Items Float) → AreBoundedItems xs → AreBoundedItems (first_items n xs)
  unfolding IsBounded
  first_items-AreBounded zero xs h = tt
  first_items-AreBounded (suc n) nil h = tt
  first_items-AreBounded (suc n) (cons x xs) h = (h.0, first_items-AreBounded n xs h.1)

  bounded_list-IsBounded : (xs : Items Float) → AreBoundedItems xs → IsBounded (bounded_list xs)
  unfolding bounded_list IsBounded
  bounded_list-IsBounded xs h = elim (Bool-cases (ltb limit (item_count xs))) [
    | inl long ↦ rw long (
      tt,
      (
        inr (inr (item_count xs, refl)),
        ((item_count-first_items limit xs, first_items-AreBounded limit xs h), tt),
      ),
    )
    | inr short ↦ rw short (ltb→le limit (item_count xs) short, h)
  ]

  mutual
    unfolding bounded IsBounded

    pub bounded-lem : (v : Json Float) → IsBounded (bounded v)
    bounded-lem (str s) = bounded_text-IsShort show limit s
    bounded-lem (arr xs) = bounded_list-IsBounded (bounded_items xs) (items-lem xs)
    bounded-lem (obj fs) = fields-lem fs
    bounded-lem null = tt
    bounded-lem (bool b) = tt
    bounded-lem (int n) = tt
    bounded-lem (num x) = tt

    items-lem : (xs : Items Float) → AreBoundedItems (bounded_items xs)
    items-lem nil = tt
    items-lem (cons x xs) = (bounded-lem x, items-lem xs)

    fields-lem : (fs : Fields Float) → AreBoundedFields (bounded_fields fs)
    fields-lem end = tt
    fields-lem (field k v fs) = (bounded-lem v, fields-lem fs)
