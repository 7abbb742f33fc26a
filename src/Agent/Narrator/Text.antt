-- ===== src/Agent/Narrator/Text.antt =====
-- The texts of python/analytics/agent/narrator.py: what its regular expressions match, and the
-- methods of `str` that it calls. Which characters are spaces and digits is Python's, a parameter.
use Prim.Native.Char.{Char, code}
use Prim.Native.String.{String}
use quer_project_q.Common.{
  ℕ, Bool, true, false, not, ◌&&◌, ◌||◌, Option, none, some, List, [], ◌∷◌, ◌==◌, if◌then◌else◌,
  str_append, ◌>>=◌,
}

pub record Chars : Type 0 where
  pub is_space : Char → Bool
  pub is_digit : Char → Bool

abbrev pub one : Char → String
one c = String.◌∷◌ c ""

abbrev pub is_empty : String → Bool
is_empty String.[] = true
is_empty (String.◌∷◌ c s) = false

-- `sep.join(texts)`
unfoldable pub join : String → List String → String
join sep [] = ""
join sep (s ∷ []) = s
join sep (s ∷ t ∷ ts) = str_append s (str_append sep (join sep (t ∷ ts)))

abbrev pub all_texts : (String → Bool) → List String → Bool
all_texts p [] = true
all_texts p (s ∷ ts) = p s && all_texts p ts

-- [t for t in texts if p(t)]
abbrev pub texts_where : (String → Bool) → List String → List String
texts_where p [] = []
texts_where p (s ∷ ts) = let rest = texts_where p ts in if p s then s ∷ rest else rest

-- The characters that end a line for `str.splitlines`.
abbrev is_break : ℕ → Bool
is_break c =
    c == 10
    || c == 13
    || c == 11
    || c == 12
    || c == 28
    || c == 29
    || c == 30
    || c == 133
    || c == 8232
    || c == 8233

-- `line` is the line so far; `after_cr` is whether a \r has just ended one.
unfoldable lines_from : String → Bool → String → List String
lines_from line after_cr String.[] = if is_empty line then [] else line ∷ []
lines_from line after_cr (String.◌∷◌ c s) =
    let skipped = after_cr && code c == 10 in
    let ended = not skipped && is_break (code c) in
    let rest =
      lines_from (if skipped || ended then "" else str_append line (one c)) (ended && code c == 13)
        s in
    if ended then line ∷ rest else rest

-- `text.splitlines()`
unfoldable pub splitlines : String → List String
unfolding lines_from
splitlines s = lines_from "" false s

-- `text.replace(c, "")`, of one character
unfoldable pub without : ℕ → String → String
without c String.[] = ""
without c (String.◌∷◌ d s) =
    let rest = without c s in if code d == c then rest else String.◌∷◌ d rest

-- What follows the first `.`, or nothing.
unfoldable pub after_dot : String → String
after_dot String.[] = ""
after_dot (String.◌∷◌ c s) = let rest = after_dot s in if code c == 46 then s else rest

-- `text.endswith(":")`
unfoldable pub ends_with_colon : String → Bool
ends_with_colon String.[] = false
ends_with_colon (String.◌∷◌ c s) = (is_empty s && code c == 58) || ends_with_colon s

module _ (chars : Chars) where
  open chars use {is_space, is_digit}

  unfoldable pub lstrip : String → String
  lstrip String.[] = ""
  lstrip (String.◌∷◌ c s) = let rest = lstrip s in if is_space c then rest else String.◌∷◌ c s

  unfoldable pub rstrip : String → String
  rstrip String.[] = ""
  rstrip (String.◌∷◌ c s) =
      let rest = rstrip s in if is_space c && is_empty rest then "" else String.◌∷◌ c rest

  -- `text.strip()`
  unfoldable pub strip : String → String
  unfolding lstrip rstrip
  strip s = rstrip (lstrip s)

  -- `\d*`, then `.` or `)`: what follows.
  unfoldable after_digits : String → Option String
  after_digits String.[] = none
  after_digits (String.◌∷◌ c s) =
      let rest = after_digits s in
      if is_digit c then rest else if code c == 46 || code c == 41 then some s else none

  -- `[-*•]|\d+[.)]`: what follows.
  unfoldable after_marker : String → Option String
  unfolding after_digits
  after_marker String.[] = none
  after_marker (String.◌∷◌ c s) =
      if code c == 45 || code c == 42 || code c == 8226
      then some s
      else if is_digit c
      then after_digits s
      else none

  -- `\s+`: what follows.
  unfoldable after_spaces : String → Option String
  unfolding lstrip
  after_spaces String.[] = none
  after_spaces (String.◌∷◌ c s) = if is_space c then some (lstrip s) else none

  -- `\s*(?:[-*•]|\d+[.)])\s+`: what follows.
  unfoldable pub after_bullet : String → Option String
  unfolding after_marker after_spaces
  after_bullet s = after_marker (lstrip s) >>= after_spaces

  -- `_MARKER.sub("", text)`
  unfoldable pub strip_marker : String → String
  unfolding after_bullet
  strip_marker s = elim (after_bullet s) [ none ↦ s | some rest ↦ rest ]

  -- A bullet and something after it, here.
  unfoldable pub bullet_here : String → Bool
  unfolding after_bullet
  bullet_here s = elim (after_bullet s) [ none ↦ false | some rest ↦ not (is_empty rest) ]

  unfoldable pub bullet_below : String → Bool
  unfolding bullet_here
  bullet_below String.[] = false
  bullet_below (String.◌∷◌ c s) = (code c == 10 && bullet_here s) || bullet_below s

  -- `re.search(r"^\s*(?:[-*•]|\d+[.)])\s+\S", text, re.M)`
  unfoldable pub has_bullet : String → Bool
  unfolding bullet_below
  has_bullet s = bullet_here s || bullet_below s

  -- Where `_NUMBER` stands: outside a number, in its whole part, after its dot, in its fraction.
  pub data Scan : Type 0 where
    outside : Scan
    whole_part after_point fraction : String → Scan

  -- A character: where the scan stands now, and the number that has just ended.
  unfoldable scan_char : Scan → Char → Scan × Option String
  scan_char outside c = (if is_digit c then whole_part (one c) else outside, none)
  scan_char (whole_part n) c =
      if is_digit c || code c == 44
      then (whole_part (str_append n (one c)), none)
      else if code c == 46
      then (after_point n, none)
      else (outside, some n)
  scan_char (after_point n) c =
      if is_digit c
      then (fraction (str_append n (str_append "." (one c))), none)
      else (outside, some n)
  scan_char (fraction n) c =
      if is_digit c then (fraction (str_append n (one c)), none) else (outside, some n)

  unfoldable scan : Scan → String → List String
  unfolding scan_char
  scan outside String.[] = []
  scan (whole_part n) String.[] = n ∷ []
  scan (after_point n) String.[] = n ∷ []
  scan (fraction n) String.[] = n ∷ []
  scan st (String.◌∷◌ c s) =
      let next = scan_char st c in
      let rest = scan next.0 s in elim next.1 [ none ↦ rest | some n ↦ n ∷ rest ]

  unfoldable strip_commas : List String → List String
  strip_commas [] = []
  strip_commas (n ∷ ns) = without 44 n ∷ strip_commas ns

  -- `_numbers`
  unfoldable pub numbers : String → List String
  unfolding scan strip_commas without
  numbers s = strip_commas (scan outside s)
