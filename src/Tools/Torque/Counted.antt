-- ===== src/Tools/Torque/Counted.antt =====
-- What `torque_stats` of python/analytics/tools/torque.py counts.
use mathlib.Core.Path.{subst}
use quer_project_q.Common.{
  ℕ, ◌≤◌, ◌≡◌, refl, sym, ◌∙◌, true, false, Bool-cases, inl, inr, ◌⊎◌, String, Option, none, some,
  List, [], ◌∷◌, map, arith, where_holds, sort_by, IsOrdered, sort_by-IsOrdered, sum_of,
  sum_of-sort_by, length, ℤ,
}
use quer_project_q.Agent.Config.{Number}
use quer_project_q.Tools.{Event, Answer, found, no_data, bad_argument, Reals}
use quer_project_q.Tools.Grouping.{groups, count_where, length-groups, length-where_holds}
use quer_project_q.Tools.Torque.{
  Closures, closures_of, Split, split_of, each_head, overall, Statistics, Stats, Torques, by_head,
  whole, scanned, is_kept, stats_of, wider, before, head_stats, class_at, classes, unless_empty,
  stats_by, stats_if, torque_stats,
}

module _ {Float : Type 0} (R : Reals Float) (S : Statistics Float) (success : Number Float) where
  -- The closures of an outcome.
  kept_count : Closures → List (Event Float) → ℕ
  kept_count outcome rows = count_where (is_kept R S success outcome) rows

  -- The answer is of the split: a list of heads in their order, or a histogram of all.
  Shape : Split → Torques Float → Type 0
  Shape each_head (by_head hs) = IsOrdered (before R S success) hs
  Shape each_head (whole w) = ⊥
  Shape overall (by_head hs) = ⊥
  Shape overall (whole w) = sum_of {A = Float × ℕ} (λ c. c.1) w.histogram ≡ w.stats.n

  -- An unknown argument, no closure of the outcome, or statistics of all of them.
  pub TorqueResult : String → Option String → List (Event Float) → Answer (Torques Float) → Type 0
  TorqueResult outcome by rows bad_argument = (closures_of outcome ≡ none) ⊎ (split_of by ≡ none)
  TorqueResult outcome by rows no_data =
      (o : Closures) × (s : Split) × (closures_of outcome ≡ some o)
      × (split_of by ≡ some s)
      × (kept_count o rows ≡ 0)
  TorqueResult outcome by rows (found v) =
      (o : Closures) × (s : Split) × (closures_of outcome ≡ some o)
      × (split_of by ≡ some s)
      × (scanned v ≡ kept_count o rows)
      × (1 ≤ scanned v)
      × Shape s v

  classes-sum :
      (gs : List (ℤ × List (Event Float)))
      → sum_of {A = Float × ℕ} (λ c. c.1) (map (λ g. (S.bin_start g.0, length g.1)) gs)
        ≡ sum_of (λ g. length g.1) gs
  classes-sum [] = refl
  classes-sum (g ∷ gs) = omega (arith, classes-sum gs)

  heads-sum :
      (gs : List (ℤ × List (Event Float)))
      → sum_of {A = ℤ × Stats Float} (λ h. (h.1).n) (map (λ g. (g.0, stats_of R S success g.1)) gs)
        ≡ sum_of (λ g. length g.1) gs
  unfolding stats_of
  heads-sum [] = refl
  heads-sum (g ∷ gs) = omega (arith, heads-sum gs)

  head_stats-sum :
      (kept : List (Event Float))
      → sum_of {A = ℤ × Stats Float} (λ h. (h.1).n) (head_stats R S success kept) ≡ length kept
  unfolding head_stats
  head_stats-sum kept =
      let gs = groups (λ e. e.head_id) kept in
      sum_of-sort_by (before R S success) (λ h. (h.1).n)
        (map (λ g. (g.0, stats_of R S success g.1)) gs)
      ∙ heads-sum gs
      ∙ length-groups (λ e. e.head_id) kept

  module _ (asymmetric : (x y : Float) → S.more x y ≡ true → S.more y x ≡ false) where
    wider-asym : (a b : Option Float) → wider R S success a b ≡ true → wider R S success b a ≡ false
    wider-asym none b h = absurd (ground (arith, h))
    wider-asym (some x) none h = refl
    wider-asym (some x) (some y) h = asymmetric x y h

    before-asym :
        (a b : ℤ × Stats Float) → before R S success a b ≡ true → before R S success b a ≡ false
    before-asym a b h = elim (Bool-cases (wider R S success (a.1).stddev (b.1).stddev)) [
      | inl first ↦ ground (arith, first, wider-asym (a.1).stddev (b.1).stddev first)
      | inr equal ↦ ground (arith, equal, h)
    ]

    -- What is answered on the closures that are kept.
    abbrev OnKept : Split → List (Event Float) → Answer (Torques Float) → Type 0
    OnKept s kept bad_argument = ⊥
    OnKept s kept no_data = length kept ≡ 0
    OnKept s kept (found v) = (scanned v ≡ length kept) × (1 ≤ scanned v) × Shape s v

    unless_empty-OnKept :
        (e : Event Float) (es : List (Event Float)) (hs : List (ℤ × Stats Float))
        → sum_of {A = ℤ × Stats Float} (λ h. (h.1).n) hs ≡ length (e ∷ es)
        → IsOrdered (before R S success) hs
        → OnKept each_head (e ∷ es) (unless_empty R S success hs)
    unfolding scanned Shape
    unless_empty-OnKept e es [] same ordered = omega (arith, same)
    unless_empty-OnKept e es (h ∷ hs) same ordered = (same, omega (arith, same), ordered)

    no_heads : head_stats R S success [] ≡ []
    unfolding head_stats sort_by groups
    no_heads = refl

    head_stats-IsOrdered :
        (kept : List (Event Float)) → IsOrdered (before R S success) (head_stats R S success kept)
    unfolding head_stats
    head_stats-IsOrdered kept = sort_by-IsOrdered (before R S success) before-asym _

    stats_by-OnKept :
        (by : Split) (kept : List (Event Float)) → OnKept by kept (stats_by R S success by kept)
    unfolding stats_by classes stats_of Shape scanned
    stats_by-OnKept each_head [] =
        subst (λ hs. OnKept each_head [] (unless_empty R S success hs)) (sym no_heads) refl
    stats_by-OnKept each_head (e ∷ es) =
        unless_empty-OnKept e es (head_stats R S success (e ∷ es)) (head_stats-sum (e ∷ es))
          (head_stats-IsOrdered (e ∷ es))
    stats_by-OnKept overall [] = refl
    stats_by-OnKept overall (e ∷ es) = (
      refl,
      omega arith,
      classes-sum (groups (class_at R S success) (e ∷ es))
          ∙ length-groups (class_at R S success) (e ∷ es),
    )

    to_result :
        (outcome : String) (by : Option String) (rows : List (Event Float)) (o : Closures)
        (s : Split) (answer : Answer (Torques Float))
        → closures_of outcome ≡ some o
        → split_of by ≡ some s
        → OnKept s (where_holds (is_kept R S success o) rows) answer
        → TorqueResult outcome by rows answer
    unfolding TorqueResult kept_count
    to_result outcome by rows o s bad_argument known split h = absurd h
    to_result outcome by rows o s no_data known split h =
        let p = is_kept R S success o in (o, s, known, split, sym (length-where_holds p p rows) ∙ h)
    to_result outcome by rows o s (found v) known split h =
        let p = is_kept R S success o in
        (o, s, known, split, h.0 ∙ length-where_holds p p rows, h.1, h.2)

    stats_if-TorqueResult :
        (outcome : String) (by : Option String) (rows : List (Event Float)) (o : Option Closures)
        (s : Option Split)
        → closures_of outcome ≡ o
        → split_of by ≡ s
        → TorqueResult outcome by rows (stats_if R S success o s rows)
    unfolding TorqueResult
    stats_if-TorqueResult outcome by rows none s known split = inl known
    stats_if-TorqueResult outcome by rows (some o) none known split = inr split
    stats_if-TorqueResult outcome by rows (some o) (some s) known split =
        let kept = where_holds (is_kept R S success o) rows in
        to_result outcome by rows o s (stats_by R S success s kept) known split
          (stats_by-OnKept s kept)

    -- Where the order of spreads is asymmetric, the tool refuses exactly the calls with an unknown
    -- outcome or an unknown split. Of others it has no data exactly where no closure in scope has
    -- the outcome; else what it scanned are the closures of the outcome, at least one. By head the
    -- wider spreads come first; as a whole the histogram's classes add up to the closures.
    pub torque_stats-TorqueResult :
        (outcome : String) (by : Option String) (rows : List (Event Float))
        → TorqueResult outcome by rows (torque_stats R S success outcome by rows)
    unfolding torque_stats
    torque_stats-TorqueResult outcome by rows =
        stats_if-TorqueResult outcome by rows (closures_of outcome) (split_of by) refl refl
