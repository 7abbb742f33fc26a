-- ===== src/Tools/Overview/Consistent.antt =====
-- That python/analytics/tools/overview.py and success.py count alike.
use quer_project_q.Common.{
  ◌≡◌, refl, ◌∙◌, Bool, Bool-cases, ◌&&◌, inl, inr, List, [], ◌∷◌, ◌==◌, arith, length, where_holds,
}
use quer_project_q.Agent.Config.{Number}
use quer_project_q.Tools.{Event, Answer, found, no_data, Reals, holds}
use quer_project_q.Tools.Grouping.{count_where, length-where_holds}
use quer_project_q.Tools.Success.{
  Ratios, Rates, whole, overall, scope_of, is_success, is_failure, capping, counts_of, overall_of,
  rates, success_rates,
}
use quer_project_q.Tools.Overview.{Limits, Overview, overview}

-- The overview and the success rates as a whole: the numbers are the same, or the one has no
-- capping operation and the other no data.
abbrev pub Agree : {Float : Type 0} → Answer Overview → Answer (Rates Float) → Type 0
Agree no_data no_data = Unit
Agree (found v) no_data = v.capping_operations ≡ 0
Agree (found v) (found (whole o)) =
    (v.capping_operations ≡ o.counts.total)
    × (v.successful ≡ o.counts.successful)
    × (v.failed ≡ o.counts.failed)
Agree _ _ = ⊥

count_where-both :
    {A : Type 0} (p q : A → Bool) (xs : List A)
    → count_where (λ x. p x && q x) xs ≡ count_where p (where_holds q xs)
count_where-both p q [] = refl
count_where-both p q (x ∷ xs) = ground (arith, count_where-both p q xs)

module _ {Float : Type 0} (R : Reals Float) (success : Number Float) (D : Ratios Float)
    (L : Limits Float) (no_load torque_min torque_max : Number Float) where
  open R use {positive}

  overall_rates :
      (rows : List (Event Float))
      → success_rates R success D "overall" rows
        ≡ rates R success D overall (capping R success D rows)
  unfolding success_rates scope_of
  overall_rates rows = refl

  -- On the same rows, the overview and the success rates as a whole count the same capping
  -- operations, successes and failures; where the one finds rows but no capping operation, the
  -- other has no data, and so it has where there are no rows.
  pub overview-Agree :
      (rows : List (Event Float))
      → Agree
          (overview R L success no_load torque_min torque_max rows)
          (success_rates R success D "overall" rows)
  unfolding overview rates overall_of counts_of
  overview-Agree [] = rw (overall_rates []) tt
  overview-Agree (e ∷ es) =
      let loaded : Event Float → Bool = λ r. holds positive r.app_torque in
      let rows = e ∷ es in
      let total = length-where_holds loaded loaded rows in
      elim (Bool-cases (length (capping R success D rows) == 0)) [
        | inl empty ↦
            let gone : success_rates R success D "overall" rows ≡ no_data =
              overall_rates rows ∙ rw empty refl in
            let none_there : length (where_holds loaded rows) ≡ 0 = ground (arith, empty) in
            rw gone (omega (arith, total, none_there))
        | inr full ↦
            let got : success_rates R success D "overall" rows
                ≡ found (whole (overall_of R success D (capping R success D rows))) =
              overall_rates rows ∙ rw full refl in
            rw got (
              omega (arith, total),
              count_where-both (is_success R success D) loaded rows,
              count_where-both (is_failure R success D) loaded rows,
            )
      ]
