-- ===== src/Cleaning/Union/Redelivery.antt =====
-- A file that is delivered again adds no row.
use quer_project_q.Common.{
  ℕ, String, true, Bool-cases, ◌≡◌, refl, some, Option-cases, inl, inr, List, [], ◌∷◌, ◌++◌, arith,
  str_eq_iff, All, if◌then◌else◌,
}
use quer_project_q.Cleaning.Floats.{Floats}
use quer_project_q.Cleaning.Extract.{CapEvent, extract}
use quer_project_q.Cleaning.Union.{Key, same_key, member, key, add_events, union_from, union_rows}

same_key_refl : (k : Key) → same_key k k ≡ true
unfolding same_key
same_key_refl (h, t) = ground (arith, str_eq_iff t t)

module _ {Float : Type 0} where
  -- Every key of the events is in the set.
  abbrev Covered : List Key → List (CapEvent Float) → Type 0
  Covered u es = All (λ e. member (key e) u ≡ true) es

  member-add_events :
      (k : Key) (u : List Key) (es : List (CapEvent Float))
      → member k u ≡ true
      → member k (add_events u es) ≡ true
  unfolding add_events
  member-add_events k u [] h = h
  member-add_events k u (e ∷ es) h = elim (Bool-cases (member (key e) u)) [
    | inl old ↦ rw old (member-add_events k u es h)
    | inr new ↦ rw new (member-add_events k (key e ∷ u) es (ground (arith, h)))
  ]

  -- The set with one event's key.
  abbrev grown : List Key → CapEvent Float → List Key
  grown u e = if member (key e) u then u else key e ∷ u

  member-grown : (u : List Key) (e : CapEvent Float) → member (key e) (grown u e) ≡ true
  unfolding member
  member-grown u e = ground (arith, same_key_refl (key e))

  Covered-add_events : (u : List Key) (es : List (CapEvent Float)) → Covered (add_events u es) es
  unfolding add_events
  Covered-add_events u [] = tt
  Covered-add_events u (e ∷ es) = (
    member-add_events (key e) (grown u e) es (member-grown u e),
    Covered-add_events (grown u e) es,
  )

  add_events-Covered :
      (u : List Key) (es : List (CapEvent Float)) → Covered u es → add_events u es ≡ u
  unfolding add_events
  add_events-Covered u [] h = refl
  add_events-Covered u (e ∷ es) h = rw h.0 (add_events-Covered u es h.1)

  Covered-more :
      (u : List Key) (es fs : List (CapEvent Float)) → Covered u es → Covered (add_events u fs) es
  Covered-more u [] fs h = tt
  Covered-more u (e ∷ es) fs h = (member-add_events (key e) u fs h.0, Covered-more u es fs h.1)

module _ (F : Floats) where
  open F use {Float}

  -- A file whose events are covered may be left out, wherever it stands.
  union_from-Covered :
      (u : List Key) (p : List (List String)) (qs rs : List (List (List String)))
      (es : List (CapEvent Float)) (skipped : ℕ)
      → extract F p ≡ some (es, skipped)
      → Covered u es
      → union_from F u (qs ++ p ∷ rs) ≡ union_from F u (qs ++ rs)
  unfolding union_from
  union_from-Covered u p [] rs es skipped e h = ground (arith, e, add_events-Covered u es h)
  union_from-Covered u p (q ∷ qs) rs es skipped e h = elim (Option-cases (extract F q)) [
    | inl raised ↦ ground (arith, raised)
    | inr ((fs, s), eq) ↦ ground (
      arith,
      eq,
      union_from-Covered (add_events u fs) p qs rs es skipped e (Covered-more u es fs h),
    )
  ]

  union_from-redelivered :
      (u : List Key) (ps qs rs : List (List (List String))) (p : List (List String))
      → union_from F u (ps ++ p ∷ qs ++ p ∷ rs) ≡ union_from F u (ps ++ p ∷ qs ++ rs)
  unfolding union_from
  union_from-redelivered u [] qs rs p = elim (Option-cases (extract F p)) [
    | inl raised ↦ ground (arith, raised)
    | inr ((es, s), e) ↦
        ground
          (arith, e, union_from-Covered (add_events u es) p qs rs es s e (Covered-add_events u es))
  ]
  union_from-redelivered u (q ∷ ps) qs rs p = elim (Option-cases (extract F q)) [
    | inl raised ↦ ground (arith, raised)
    | inr ((es, s), e) ↦ ground (arith, e, union_from-redelivered (add_events u es) ps qs rs p)
  ]

  -- A file that occurs a second time in the list of files leaves the count as it is, wherever
  -- the two stand, and raises only if the list without it raises.
  pub union_rows-redelivered :
      (ps qs rs : List (List (List String))) (p : List (List String))
      → union_rows F (ps ++ p ∷ qs ++ p ∷ rs) ≡ union_rows F (ps ++ p ∷ qs ++ rs)
  unfolding union_rows
  union_rows-redelivered ps qs rs p = rw (union_from-redelivered [] ps qs rs p)
