-- ===== src/Drift/Tests.antt =====
-- A run of Kendall's sum on integers.
use quer_project_q.Common.{◌≡◌, refl, [], ◌∷◌, if◌then◌else◌, ℤ, pos, negsuc, ltb_ℤ, ◌+ℤ◌, List}
use quer_project_q.Drift.{mann_kendall_s, blocks}
use quer_project_q.Drift.Pairs.{pairs, mann_kendall_s-pairs}

abbrev sign : ℤ → ℤ → ℤ
sign x y = if ltb_ℤ x y then pos 1 else if ltb_ℤ y x then negsuc 0 else pos 0

abbrev walk : List ℤ
walk = pos 1 ∷ pos 3 ∷ pos 2 ∷ pos 2 ∷ []

mann_kendall_s-pairs_example : mann_kendall_s sign walk ≡ pairs sign walk
mann_kendall_s-pairs_example = mann_kendall_s-pairs sign walk

-- Three rises and two falls, in blocks of two rows.
blocks-walk : blocks sign 2 walk 4 0 ≡ pos 1
unfolding blocks ◌+ℤ◌
blocks-walk = refl
