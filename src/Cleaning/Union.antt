-- ===== src/Cleaning/Union.antt =====
-- python/oracle_union.py: the distinct (head_id, ts) pairs over several day-files. A Python set is
-- a list in which no key stands twice.
pub mod Redelivery
use quer_project_q.Common.{
  ℕ, String, Bool, true, false, ◌&&◌, ◌||◌, Option, some, List, [], ◌∷◌, ◌>>=◌, ◌==◌, str_eq,
  if◌then◌else◌, length,
}
use quer_project_q.Cleaning.Floats.{Floats}
use quer_project_q.Cleaning.Extract.{CapEvent, extract}

-- `(e[0], e[1])`
abbrev pub Key : Type 0
Key = ℕ × String

unfoldable pub same_key : Key → Key → Bool
same_key (h, t) (h', t') = h == h' && str_eq t t'

unfoldable pub member : Key → List Key → Bool
unfolding same_key
member k [] = false
member k (j ∷ u) = same_key k j || member k u

abbrev pub key : {Float : Type 0} → CapEvent Float → Key
key e = (e.head_id, e.ts)

-- `u |= {(e[0], e[1]) for e in es}`
unfoldable pub add_events : {Float : Type 0} → List Key → List (CapEvent Float) → List Key
unfolding member
add_events u [] = u
add_events u (e ∷ es) = add_events (if member (key e) u then u else key e ∷ u) es

module _ (F : Floats) where
  unfoldable pub union_from : List Key → List (List (List String)) → Option (List Key)
  unfolding add_events
  union_from u [] = some u
  union_from u (p ∷ ps) = extract F p >>= λ (es, _). union_from (add_events u es) ps

  unfoldable pub union_rows : List (List (List String)) → Option ℕ
  unfolding union_from
  union_rows paths = do u ← union_from [] paths; some (length u)
