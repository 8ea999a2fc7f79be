-- ===== src/Grep/Tests.antt =====
-- grep.c: patterns and files by example.
use sys_prog_assessment.Prelude.{ℕ, true, false, List, [], ◌∷◌, ◌≡◌, ◌↔◌, refl, arith}
use sys_prog_assessment.Grep.{
  newline, caret, dot, asterisk, dollar, match, matchhere, matchstar, match_from, line_end,
  take_lines, grep,
}
use sys_prog_assessment.Grep.Matches.{Occurs, match_iff}
use sys_prog_assessment.Grep.Lines.{split_lines, selected, concat}
use sys_prog_assessment.Grep.Pieces.{HaveLines, grep_lem, grep_forgets}

-- `^a.*b$`
abbrev pattern_ab : List ℕ
pattern_ab = caret ∷ 97 ∷ dot ∷ asterisk ∷ 98 ∷ dollar ∷ []

matches : match pattern_ab (97 ∷ 99 ∷ 98 ∷ 98 ∷ []) ≡ true
unfolding match matchhere matchstar
matches = refl

longer_text : match pattern_ab (97 ∷ 98 ∷ 99 ∷ []) ≡ false
unfolding match matchhere matchstar
longer_text = refl

plain_dollar : match (dollar ∷ 97 ∷ []) (98 ∷ dollar ∷ 97 ∷ []) ≡ true
unfolding match matchhere matchstar match_from
plain_dollar = refl

match_iff_example :
    (match pattern_ab (97 ∷ 99 ∷ 98 ∷ []) ≡ true) ↔ Occurs pattern_ab (97 ∷ 99 ∷ 98 ∷ [])
match_iff_example = match_iff pattern_ab (97 ∷ 99 ∷ 98 ∷ [])

-- Two lines in two pieces, of which the second begins within the second line.
abbrev two_pieces : List (List ℕ)
two_pieces = (97 ∷ 98 ∷ newline ∷ 97 ∷ []) ∷ (98 ∷ 98 ∷ newline ∷ []) ∷ []

two_pieces-HaveLines : HaveLines two_pieces
two_pieces-HaveLines = (
  ((λ e. omega arith, (λ e. omega arith, (λ e. omega arith, (λ e. omega arith, tt)))), refl),
  (((λ e. omega arith, (λ e. omega arith, (λ e. omega arith, tt))), refl), tt),
)

both_lines : grep pattern_ab [] two_pieces ≡ 97 ∷ 98 ∷ newline ∷ 97 ∷ 98 ∷ 98 ∷ newline ∷ []
unfolding grep take_lines line_end match matchhere matchstar
both_lines = refl

grep_lem_example :
    grep pattern_ab [] two_pieces ≡ selected pattern_ab (split_lines (concat two_pieces)).0
grep_lem_example = grep_lem pattern_ab two_pieces two_pieces-HaveLines

grep_forgets_example :
    grep pattern_ab [] ((97 ∷ []) ∷ (98 ∷ newline ∷ []) ∷ [])
    ≡ grep pattern_ab [] ((98 ∷ newline ∷ []) ∷ [])
grep_forgets_example =
    grep_forgets pattern_ab [] 97 [] ((98 ∷ newline ∷ []) ∷ []) tt (λ e. omega arith, tt) refl
