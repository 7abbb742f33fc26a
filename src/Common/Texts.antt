-- ===== src/Common/Texts.antt =====
-- The order of Python's texts.
use Prim.Native.Char.{code}
use Prim.Native.String.{String}
use mathlib.Core.Bool.{Bool, true, false}
use quer_project_q.Common.Tests.{ltb, if◌then◌else◌}

-- `a < b` on texts
unfoldable pub text_before : String → String → Bool
text_before String.[] String.[] = false
text_before String.[] (String.◌∷◌ d t) = true
text_before (String.◌∷◌ c s) String.[] = false
text_before (String.◌∷◌ c s) (String.◌∷◌ d t) =
    let rest = text_before s t in
    if ltb (code c) (code d) then true else if ltb (code d) (code c) then false else rest
