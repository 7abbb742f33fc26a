-- ===== src/Agent/Registry/Strip.antt =====
-- `_strip_unsupported_keywords` of python/analytics/agent/registry.py.
use quer_project_q.Common.{
  String, ◌≡◌, refl, ap, ap₂, Bool, false, Bool-cases, inl, inr, ◌||◌, arith, str_eq, str_eq_iff,
  some, ◌>>=◌, if◌then◌else◌,
}
use quer_project_q.Agent.Json.{
  Json, null, bool, int, num, str, arr, obj, Items, nil, cons, Fields, end, field, fields, get,
}

-- `k in _UNSUPPORTED_KEYWORDS`
unfoldable pub unsupported : String → Bool
unsupported k =
    str_eq k "minimum"
    || str_eq k "maximum"
    || str_eq k "maxItems"
    || str_eq k "minItems"
    || str_eq k "maxLength"
    || str_eq k "minLength"

module _ {Float : Type 0} where
  unfoldable mutual
    pub strip : Json Float → Json Float
    strip (obj fs) = obj (strip_fields fs)
    strip (arr xs) = arr (strip_items xs)
    strip null = null
    strip (bool b) = bool b
    strip (int n) = int n
    strip (num x) = num x
    strip (str s) = str s

    pub strip_items : Items Float → Items Float
    strip_items nil = nil
    strip_items (cons x xs) = cons (strip x) (strip_items xs)

    pub strip_fields : Fields Float → Fields Float
    strip_fields end = end
    strip_fields (field k v fs) =
        let rest = strip_fields fs in
        let inner = strip v in if unsupported k then rest else field k inner rest

  -- No object in the value, at any depth, has an unsupported key.
  mutual
    pub IsSupported : Json Float → Type 0
    IsSupported (obj fs) = AreSupportedFields fs
    IsSupported (arr xs) = AreSupportedItems xs
    IsSupported null = Unit
    IsSupported (bool b) = Unit
    IsSupported (int n) = Unit
    IsSupported (num x) = Unit
    IsSupported (str s) = Unit

    pub AreSupportedItems : Items Float → Type 0
    AreSupportedItems nil = Unit
    AreSupportedItems (cons x xs) = IsSupported x × AreSupportedItems xs

    pub AreSupportedFields : Fields Float → Type 0
    AreSupportedFields end = Unit
    AreSupportedFields (field k v fs) =
        (unsupported k ≡ false) × IsSupported v × AreSupportedFields fs

  mutual
    unfolding strip IsSupported

    strip-IsSupported : (v : Json Float) → IsSupported (strip v)
    strip-IsSupported (obj fs) = strip_fields-AreSupported fs
    strip-IsSupported (arr xs) = strip_items-AreSupported xs
    strip-IsSupported null = tt
    strip-IsSupported (bool b) = tt
    strip-IsSupported (int n) = tt
    strip-IsSupported (num x) = tt
    strip-IsSupported (str s) = tt

    strip_items-AreSupported : (xs : Items Float) → AreSupportedItems (strip_items xs)
    strip_items-AreSupported nil = tt
    strip_items-AreSupported (cons x xs) = (strip-IsSupported x, strip_items-AreSupported xs)

    strip_fields-AreSupported : (fs : Fields Float) → AreSupportedFields (strip_fields fs)
    strip_fields-AreSupported end = tt
    strip_fields-AreSupported (field k v fs) = elim (Bool-cases (unsupported k)) [
      | inl dropped ↦ rw dropped (strip_fields-AreSupported fs)
      | inr kept ↦ rw kept (kept, strip-IsSupported v, strip_fields-AreSupported fs)
    ]

  mutual
    unfolding strip IsSupported

    strip_twice : (v : Json Float) → IsSupported v → strip v ≡ v
    strip_twice (obj fs) h = ap obj (fields_twice fs h)
    strip_twice (arr xs) h = ap arr (items_twice xs h)
    strip_twice null h = refl
    strip_twice (bool b) h = refl
    strip_twice (int n) h = refl
    strip_twice (num x) h = refl
    strip_twice (str s) h = refl

    items_twice : (xs : Items Float) → AreSupportedItems xs → strip_items xs ≡ xs
    items_twice nil h = refl
    items_twice (cons x xs) h = ap₂ cons (strip_twice x h.0) (items_twice xs h.1)

    fields_twice : (fs : Fields Float) → AreSupportedFields fs → strip_fields fs ≡ fs
    fields_twice end h = refl
    fields_twice (field k v fs) h =
        rw h.0 (ap₂ (λ w rest. field k w rest) (strip_twice v h.1) (fields_twice fs h.2))

  get-strip_fields :
      (k : String) (fs : Fields Float)
      → unsupported k ≡ false
      → get k (fields (strip_fields fs)) ≡ (get k (fields fs) >>= λ v. some (strip v))
  unfolding strip
  get-strip_fields k end h = refl
  get-strip_fields k (field j v fs) h = elim (Bool-cases (unsupported j)) [
    | inl dropped ↦ elim (Bool-cases (str_eq j k)) [
      | inl same ↦
          let both : j ≡ k = (str_eq_iff j k).0 same in
          absurd (ground (arith, rw both at dropped, h))
      | inr other ↦ rw (dropped, other) (get-strip_fields k fs h)
    ]
    | inr kept ↦ elim (Bool-cases (str_eq j k)) [
      | inl same ↦ rw kept (ground (arith, same))
      | inr other ↦ rw (kept, other) (get-strip_fields k fs h)
    ]
  ]

  -- Under a keyword that is supported, a stripped object holds the stripped value that the object
  -- held there, or nothing if it held nothing; no unsupported keyword is left at any depth, and
  -- stripping once more changes nothing.
  pub get-strip :
      (k : String) (fs : Fields Float)
      → unsupported k ≡ false
      → (get k (fields (strip_fields fs)) ≡ (get k (fields fs) >>= λ v. some (strip v)))
        × IsSupported (strip (obj fs))
        × (strip (strip (obj fs)) ≡ strip (obj fs))
  get-strip k fs h = (
    get-strip_fields k fs h,
    strip-IsSupported (obj fs),
    strip_twice (strip (obj fs)) (strip-IsSupported (obj fs)),
  )
