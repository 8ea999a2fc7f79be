-- ===== src/Grep.antt =====
-- grep.c: the matcher and the loop over the lines of a file. Text and patterns are lists of bytes, without
-- the NUL that ends them.
pub mod Star
pub mod Matches
pub mod Lines
pub mod Pieces
mod Tests
use sys_prog_assessment.Prelude.{
  ℕ, zero, suc, Bool, true, false, ◌&&◌, ◌||◌, ◌==◌, if◌then◌else◌, List, [], ◌∷◌, ◌++◌, Option,
  none, some, length,
}

abbrev pub dollar : ℕ
dollar = 36

abbrev pub asterisk : ℕ
asterisk = 42

abbrev pub dot : ℕ
dot = 46

abbrev pub caret : ℕ
caret = 94

abbrev pub newline : ℕ
newline = 10

-- `re[0] == '.' || re[0] == *text`
abbrev pub accepts : ℕ → ℕ → Bool
accepts c t = c == dot || c == t

abbrev pub is_nil : List ℕ → Bool
is_nil [] = true
is_nil (t ∷ text) = false

-- matchstar, where `rest` is `matchhere` of the rest of the pattern.
unfoldable pub matchstar : ℕ → (List ℕ → Bool) → List ℕ → Bool
matchstar c rest [] = rest []
matchstar c rest (t ∷ text) =
    let more = matchstar c rest text in
    if rest (t ∷ text) then true else (t == c || c == dot) && more

-- The last test of `matchhere`, and its recursive call.
abbrev pub match_one : ℕ → (List ℕ → Bool) → List ℕ → Bool
match_one c rest [] = false
match_one c rest (t ∷ text) = if accepts c t then rest text else false

unfoldable pub matchhere : List ℕ → List ℕ → Bool
unfolding matchstar
matchhere [] text = true
matchhere (c ∷ []) text = if c == dollar then is_nil text else match_one c (matchhere []) text
matchhere (c ∷ d ∷ re) text =
    let star = matchstar c (matchhere re) text in
    let one = match_one c (matchhere (d ∷ re)) text in if d == asterisk then star else one

-- The loop of `match`.
unfoldable pub match_from : (List ℕ → Bool) → List ℕ → Bool
match_from here [] = here []
match_from here (t ∷ text) =
    let more = match_from here text in if here (t ∷ text) then true else more

unfoldable pub match : List ℕ → List ℕ → Bool
unfolding matchhere match_from
match [] text = match_from (matchhere []) text
match (c ∷ re) text = if c == caret then matchhere re text else match_from (matchhere (c ∷ re)) text

-- `strchr(p, '\n')` in the text from `p` on: what is before the newline and what is after it.
unfoldable pub line_end : List ℕ → Option (List ℕ × List ℕ)
line_end [] = none
line_end (c ∷ text) =
    let more = line_end text in
    if c == newline
    then some ([], text)
    else (if c == 0 then none else (elim more [ none ↦ none | some r ↦ some (c ∷ r.0, r.1) ]))

-- The inner loop of `grep`, for at most `fuel` lines: what it writes, and the text from `p` on.
unfoldable pub take_lines : ℕ → List ℕ → List ℕ → List ℕ × List ℕ
unfolding match line_end
take_lines zero pattern text = ([], text)
take_lines (suc fuel) pattern text = elim (line_end text) [
  | none ↦ ([], text)
  | some r ↦
      let more = take_lines fuel pattern r.1 in
      (if match pattern r.0 then r.0 ++ newline ∷ more.0 else more.0, more.1)
]

-- What is kept of the buffer after a read: nothing if it had no newline.
abbrev pub kept : List ℕ → List ℕ → List ℕ
kept buf left = if length left == length buf then [] else left

-- `grep` on the pieces of the file that `read` returns, with `left` in the buffer: what it writes. An
-- empty piece is the end of the file.
unfoldable pub grep : List ℕ → List ℕ → List (List ℕ) → List ℕ
unfolding take_lines
grep pattern left [] = []
grep pattern left ([] ∷ pieces) = []
grep pattern left ((c ∷ piece) ∷ pieces) =
    let r = take_lines (length (left ++ c ∷ piece)) pattern (left ++ c ∷ piece) in
    r.0 ++ grep pattern (kept (left ++ c ∷ piece) r.1) pieces
