-- ===== src/Store/Quoting.antt =====
-- The SQL literal that `connect` of python/analytics/store.py splices a path into.
use Prim.Native.Char.{Char, code}
use Prim.Native.String.{String}
use text.Mathlib.TextLemmas.{cons-append}
use quer_project_q.Common.{
  ◌≡◌, refl, ap, ◌∙◌, Bool, true, false, Bool-cases, inl, inr, Option, none, some, ◌==◌,
  if◌then◌else◌, str_append,
}
use quer_project_q.Store.{double_quotes, after_first, view, view_head, connect}

-- A reader of a SQL literal from past its opening quote: the text that it denotes, and what follows
-- its closing quote. A quote that another one follows is a character of the text.
pub literal : Bool → String → Option (String × String)
literal true String.[] = some ("", "")
literal true (String.◌∷◌ c s) =
    let rest = literal false s in
    if code c == 39 then after_first c rest else some ("", String.◌∷◌ c s)
literal false String.[] = none
literal false (String.◌∷◌ c s) =
    let closing = literal true s in
    let rest = literal false s in if code c == 39 then closing else after_first c rest

literal-quote :
    (c : Char) (s : String)
    → code c == 39 ≡ true
    → literal false (String.◌∷◌ c (String.◌∷◌ c s)) ≡ after_first c (literal false s)
unfolding literal
literal-quote c s quote = rw quote refl

literal-plain :
    (c : Char) (s : String)
    → code c == 39 ≡ false
    → literal false (String.◌∷◌ c s) ≡ after_first c (literal false s)
unfolding literal
literal-plain c s plain = rw plain refl

-- What stands behind the opening quote.
abbrev quoted : String → String
quoted s = str_append s "')"

literal-closed : literal false "')" ≡ some ("", ")")
unfolding literal
literal-closed = refl

literal-double_quotes : (s : String) → literal false (quoted (double_quotes s)) ≡ some (s, ")")
unfolding double_quotes
literal-double_quotes String.[] = literal-closed
literal-double_quotes (String.◌∷◌ c s) = elim (Bool-cases (code c == 39)) [
  | inl quote ↦
      let twice : double_quotes (String.◌∷◌ c s) ≡ String.◌∷◌ c (String.◌∷◌ c (double_quotes s)) =
        rw quote refl in
      ap (λ t. literal false (quoted t)) twice
      ∙ ap (literal false) (cons-append c (String.◌∷◌ c (double_quotes s)) "')")
      ∙ ap (λ t. literal false (String.◌∷◌ c t)) (cons-append c (double_quotes s) "')")
      ∙ literal-quote c (quoted (double_quotes s)) quote
      ∙ ap (after_first c) (literal-double_quotes s)
  | inr plain ↦
      let once : double_quotes (String.◌∷◌ c s) ≡ String.◌∷◌ c (double_quotes s) = rw plain refl in
      ap (λ t. literal false (quoted t)) once
      ∙ ap (literal false) (cons-append c (double_quotes s) "')")
      ∙ literal-plain c (quoted (double_quotes s)) plain
      ∙ ap (after_first c) (literal-double_quotes s)
]

-- Where the store is a directory with a Parquet file in it, the connection is a view whose SQL is
-- the fixed head, a literal and a parenthesis; the literal denotes the glob of the directory,
-- character by character, whatever quotes stand in the path.
pub connect-literal :
    (is_dir finds : String → Bool) (join : String → String → String) (path : String)
    → is_dir path ≡ true
    → finds (join path "*.parquet") ≡ true
    → (tail : String) × (connect is_dir finds join path ≡ view (str_append view_head tail))
      × (literal false tail ≡ some (join path "*.parquet", ")"))
unfolding connect
connect-literal is_dir finds join path directory found = (
  str_append (double_quotes (join path "*.parquet")) "')",
  rw (directory, found) refl,
  literal-double_quotes (join path "*.parquet"),
)
