-- ===== src/Grep/Lines.antt =====
-- grep.c: the lines of a file that is read in pieces.
use sys_prog_assessment.Prelude.{
  ℕ, zero, suc, ◌<◌, ◌≤◌, false, ◌==◌, if◌then◌else◌, List, [], ◌∷◌, ◌++◌, ◌≡◌, ◌≢◌, refl, sym, ap,
  ◌∙◌, arith, ◌⊎◌, inl, inr, ℕ_discrete, length, length-append, none, some, All, subst,
}
use sys_prog_assessment.Grep.{newline, match, line_end, take_lines}

-- The byte before a text that is split into lines.
unfoldable pub add_byte : ℕ → List (List ℕ) × List ℕ → List (List ℕ) × List ℕ
add_byte c ([], left) = if c == newline then ([] ∷ [], left) else ([], c ∷ left)
add_byte c (l ∷ ls, left) = if c == newline then ([] ∷ l ∷ ls, left) else ((c ∷ l) ∷ ls, left)

-- The lines of a text, and what is after its last newline.
unfoldable pub split_lines : List ℕ → List (List ℕ) × List ℕ
unfolding add_byte
split_lines [] = ([], [])
split_lines (c ∷ text) = add_byte c (split_lines text)

-- The lines that match, each with its newline.
unfoldable pub selected : List ℕ → List (List ℕ) → List ℕ
selected pattern [] = []
selected pattern (l ∷ ls) =
    let rest = selected pattern ls in if match pattern l then l ++ newline ∷ rest else rest

-- The text has no NUL.
abbrev pub IsText : List ℕ → Type 0
IsText text = All (λ c. c ≢ 0) text

abbrev pub concat : List (List ℕ) → List ℕ
concat [] = []
concat (piece ∷ pieces) = piece ++ concat pieces

line_end-skip :
    (c : ℕ) (text : List ℕ)
    → c ≢ newline
    → c ≢ 0
    → line_end text ≡ none
    → line_end (c ∷ text) ≡ none
unfolding line_end
line_end-skip c text n z h = ground (arith, h)

line_end-longer :
    (c : ℕ) (text l rest : List ℕ)
    → c ≢ newline
    → c ≢ 0
    → line_end text ≡ some (l, rest)
    → line_end (c ∷ text) ≡ some (c ∷ l, rest)
unfolding line_end
line_end-longer c text l rest n z h =
    let a : (c == newline) ≡ false = ground arith in
    let b : (c == 0) ≡ false = ground arith in rw (line_end, a, b, h)

line_end-newline : (text : List ℕ) → line_end (newline ∷ text) ≡ some ([], text)
unfolding line_end
line_end-newline text = refl

add_newline : (r : List (List ℕ) × List ℕ) → add_byte newline r ≡ ([] ∷ r.0, r.1)
unfolding add_byte
add_newline ([], left) = refl
add_newline (l ∷ ls, left) = refl

split_newline :
    (text : List ℕ)
    → split_lines (newline ∷ text) ≡ ([] ∷ (split_lines text).0, (split_lines text).1)
unfolding split_lines
split_newline text = add_newline (split_lines text)

split_whole :
    (c : ℕ) (text left : List ℕ)
    → c ≢ newline
    → split_lines text ≡ ([], left)
    → split_lines (c ∷ text) ≡ ([], c ∷ left)
unfolding split_lines add_byte
split_whole c text left n h =
    let a : (c == newline) ≡ false = ground arith in ap (add_byte c) h ∙ rw a

split_longer :
    (c : ℕ) (text l : List ℕ) (ls : List (List ℕ)) (left : List ℕ)
    → c ≢ newline
    → split_lines text ≡ (l ∷ ls, left)
    → split_lines (c ∷ text) ≡ ((c ∷ l) ∷ ls, left)
unfolding split_lines add_byte
split_longer c text l ls left n h =
    let a : (c == newline) ≡ false = ground arith in ap (add_byte c) h ∙ rw a

-- A text splits at its first newline, or it has none.
abbrev Ends : List ℕ → Type 0
Ends text =
    ((line_end text ≡ none) × (split_lines text ≡ ([], text)))
    ⊎ ((l : List ℕ) × (rest : List ℕ) × (line_end text ≡ some (l, rest))
        × (text ≡ l ++ newline ∷ rest)
        × IsText rest
        × (split_lines text ≡ (l ∷ (split_lines rest).0, (split_lines rest).1)))

nil-Ends : Ends []
unfolding line_end split_lines
nil-Ends = inl (refl, refl)

text-Ends : (text : List ℕ) → IsText text → Ends text
text-Ends [] h = nil-Ends
text-Ends (c ∷ text) h = elim (ℕ_discrete c newline) [
  | yes p ↦
      subst (λ x. Ends (x ∷ text)) (sym p)
        (inr ([], text, line_end-newline text, refl, h.1, split_newline text))
  | no n ↦ elim (text-Ends text h.1) [
    | inl (e, s) ↦ inl (line_end-skip c text n h.0 e, split_whole c text text n s)
    | inr (l, rest, e, p, t, s) ↦ inr (
      c ∷ l,
      rest,
      line_end-longer c text l rest n h.0 e,
      ap (λ x. c ∷ x) p,
      t,
      split_longer c text l (split_lines rest).0 (split_lines rest).1 n s,
    )
  ]
]

-- The loop over the lines with rounds enough.
take_lines-none :
    (fuel : ℕ) (pattern text : List ℕ)
    → line_end text ≡ none
    → take_lines fuel pattern text ≡ ([], text)
unfolding take_lines
take_lines-none zero pattern text h = refl
take_lines-none (suc fuel) pattern text h = rw (take_lines, h)

take_lines-some :
    (fuel : ℕ) (pattern text l rest : List ℕ)
    → line_end text ≡ some (l, rest)
    → take_lines (suc fuel) pattern text ≡ (
      (if match pattern l
          then l ++ newline ∷ (take_lines fuel pattern rest).0
          else (take_lines fuel pattern rest).0),
      (take_lines fuel pattern rest).1,
    )
unfolding take_lines
take_lines-some fuel pattern text l rest h = rw (take_lines, h)

abbrev pub Selects : List ℕ → List ℕ → List ℕ × List ℕ → Type 0
Selects pattern text r = r ≡ (selected pattern (split_lines text).0, (split_lines text).1)

Selects-whole :
    (pattern text : List ℕ) → split_lines text ≡ ([], text) → Selects pattern text ([], text)
unfolding selected
Selects-whole pattern text h = rw h

Selects-line :
    (pattern text l rest : List ℕ) (r : List ℕ × List ℕ)
    → split_lines text ≡ (l ∷ (split_lines rest).0, (split_lines rest).1)
    → Selects pattern rest r
    → Selects pattern text ((if match pattern l then l ++ newline ∷ r.0 else r.0), r.1)
unfolding selected
Selects-line pattern text l rest r h k = rw (h, k)

too_short : (text l rest : List ℕ) → text ≡ l ++ newline ∷ rest → length rest < length text
too_short text l rest h =
    subst (λ x. length rest < length x) (sym h) (omega (arith, length-append l (newline ∷ rest)))

pub take_lines-Selects :
    (fuel : ℕ) (pattern text : List ℕ)
    → IsText text
    → length text ≤ fuel
    → Selects pattern text (take_lines fuel pattern text)
take_lines-Selects zero pattern text h k = elim (text-Ends text h) [
  | inl (e, s) ↦
      subst (Selects pattern text) (sym (take_lines-none zero pattern text e))
        (Selects-whole pattern text s)
  | inr (l, rest, e, p, t, s) ↦ absurd (omega (arith, too_short text l rest p))
]
take_lines-Selects (suc fuel) pattern text h k = elim (text-Ends text h) [
  | inl (e, s) ↦
      subst (Selects pattern text) (sym (take_lines-none (suc fuel) pattern text e))
        (Selects-whole pattern text s)
  | inr (l, rest, e, p, t, s) ↦
      subst (Selects pattern text) (sym (take_lines-some fuel pattern text l rest e)) (
        Selects-line pattern text l rest (take_lines fuel pattern rest) s
          (take_lines-Selects fuel pattern rest t (omega (arith, too_short text l rest p))))
]
