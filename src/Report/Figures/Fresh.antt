-- ===== src/Report/Figures/Fresh.antt =====
-- Which names a step of a report may give to its figures (python/analytics/report/render.py).
use quer_project_q.Common.{
  ℕ, suc, ◌≤◌, ◌≡◌, ◌≢◌, ap, true, false, none, some, inl, inr, ◌⊎◌, List, [], ◌∷◌, ◌++◌, arith,
  All, All-append,
}
use quer_project_q.Report.Figures.{FigureKey, Figure, same_key, was_seen, seen_after}

-- No two items are the same.
abbrev pub AreDistinct : {A : Type 0} → List A → Type 0
AreDistinct [] = Unit
AreDistinct (x ∷ xs) = All (λ y. x ≢ y) xs × AreDistinct xs

pub distinct-append :
    {A : Type 0} (xs ys : List A)
    → AreDistinct xs
    → AreDistinct ys
    → All (λ x. All (λ y. x ≢ y) ys) xs
    → AreDistinct (xs ++ ys)
distinct-append [] ys h k c = k
distinct-append (x ∷ xs) ys h k c =
    (All-append (λ y. x ≢ y) xs ys h.0 c.0, distinct-append xs ys h.1 k c.1)

-- The keys of a result differ.
abbrev pub AreUnlike : List FigureKey → Type 0
AreUnlike [] = Unit
AreUnlike (k ∷ ks) = All (λ j. same_key k j ≡ false) ks × AreUnlike ks

-- A figure's name from some step on: a plain one of a key that was not seen, or a step's.
abbrev pub IsFresh : ℕ → List FigureKey → Figure → Type 0
IsFresh index seen f =
    ((f.step ≡ none) × (was_seen f.key seen ≡ false)) ⊎ ((i : ℕ) × (f.step ≡ some i) × (index ≤ i))

-- A figure of a step, with the keys that are seen after it.
abbrev pub IsOfStep : ℕ → List FigureKey → Figure → Type 0
IsOfStep index later f = ((f.step ≡ none) ⊎ (f.step ≡ some index)) × (was_seen f.key later ≡ true)

pub forget_key :
    (k : FigureKey) (index : ℕ) (seen : List FigureKey) (f : Figure)
    → IsFresh index (k ∷ seen) f
    → IsFresh index seen f
forget_key k index seen f (inl h) = inl (h.0, ground (arith, h.1))
forget_key k index seen f (inr h) = inr h

pub forget_keys :
    (index : ℕ) (ks seen : List FigureKey) (f : Figure)
    → IsFresh index (seen_after seen ks) f
    → IsFresh index seen f
forget_keys index [] seen f h = h
forget_keys index (k ∷ ks) seen f h =
    forget_key k index seen f (forget_keys index ks (k ∷ seen) f h)

pub forget_step :
    (index : ℕ) (seen : List FigureKey) (f : Figure)
    → IsFresh (suc index) seen f
    → IsFresh index seen f
forget_step index seen f (inl h) = inl h
forget_step index seen f (inr h) = inr (h.0, h.1, omega (arith, h.2))

pub seen_stays :
    (k : FigureKey) (ks seen : List FigureKey)
    → was_seen k seen ≡ true
    → was_seen k (seen_after seen ks) ≡ true
seen_stays k [] seen h = h
seen_stays k (j ∷ ks) seen h = seen_stays k ks (j ∷ seen) (ground (arith, h))

pub same_key_refl : (k : FigureKey) → same_key k k ≡ true
same_key_refl k = ground arith

pub later_seen : (ks seen : List FigureKey) → All (λ k. was_seen k (seen_after seen ks) ≡ true) ks
later_seen [] seen = tt
later_seen (k ∷ ks) seen =
    (seen_stays k ks (k ∷ seen) (ground (arith, same_key_refl k)), later_seen ks (k ∷ seen))

pub apart :
    (index : ℕ) (later : List FigureKey) (f g : Figure)
    → IsOfStep index later f
    → IsFresh (suc index) later g
    → f ≢ g
apart index later f g h (inl k) e =
    let same : f.key ≡ g.key = ap (λ x. x.key) e in absurd (ground (arith, rw same at h.1, k.1))
apart index later f g h (inr k) e =
    let same : f.step ≡ g.step = ap (λ x. x.step) e in absurd (ground (arith, h.0, same, k.1, k.2))
