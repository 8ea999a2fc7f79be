-- ===== src/Grep/Pieces.antt =====
-- grep.c: reading a file in pieces gives the lines of the whole file.
use sys_prog_assessment.Prelude.{
  ℕ, suc, ◌<◌, ◌≤◌, true, false, ◌==◌, List, [], ◌∷◌, ◌++◌, append-nil, append_assoc, ◌≡◌, refl,
  sym, ap, ◌∙◌, arith, inl, inr, Bool-cases, length, All, subst, contains,
}
use sys_prog_assessment.Grep.{newline, match, grep}
use sys_prog_assessment.Grep.Lines.{
  add_byte, split_lines, selected, IsText, concat, take_lines-Selects,
}

abbrev Parts : Type 0
Parts = List (List ℕ) × List ℕ

-- The parts of a text that goes on after the parts `r`.
abbrev joined : Parts → List ℕ → Parts
joined r t = (r.0 ++ (split_lines (r.1 ++ t)).0, (split_lines (r.1 ++ t)).1)

add_true : (c : ℕ) (r : Parts) → (c == newline) ≡ true → add_byte c r ≡ ([] ∷ r.0, r.1)
unfolding add_byte
add_true c ([], left) e = rw e
add_true c (l ∷ ls, left) e = rw e

add_false :
    (c : ℕ) (left : List ℕ) → (c == newline) ≡ false → add_byte c ([], left) ≡ ([], c ∷ left)
unfolding add_byte
add_false c left e = rw e

add_false_line :
    (c : ℕ) (l : List ℕ) (ls : List (List ℕ)) (left : List ℕ)
    → (c == newline) ≡ false
    → add_byte c (l ∷ ls, left) ≡ ((c ∷ l) ∷ ls, left)
unfolding add_byte
add_false_line c l ls left e = rw e

joined-cons : (c : ℕ) (left t : List ℕ) → joined ([], c ∷ left) t ≡ add_byte c (joined ([], left) t)
unfolding split_lines
joined-cons c left t = refl

joined-add_byte :
    (c : ℕ) (r : Parts) (t : List ℕ) → add_byte c (joined r t) ≡ joined (add_byte c r) t
joined-add_byte c (ls, left) t = elim (Bool-cases (c == newline)) [
  | inl e ↦
      add_true c (joined (ls, left) t) e ∙ ap (λ r. joined r t) (sym (add_true c (ls, left) e))
  | inr e ↦ inner ls e
]
  where
    inner :
        (ks : List (List ℕ))
        → (c == newline) ≡ false
        → add_byte c (joined (ks, left) t) ≡ joined (add_byte c (ks, left)) t
    inner [] e = sym (joined-cons c left t) ∙ ap (λ r. joined r t) (sym (add_false c left e))
    inner (l ∷ ks) e =
        add_false_line c l (ks ++ (split_lines (left ++ t)).0) (split_lines (left ++ t)).1 e
        ∙ ap (λ r. joined r t) (sym (add_false_line c l ks left e))

split-append : (s t : List ℕ) → split_lines (s ++ t) ≡ joined (split_lines s) t
unfolding split_lines
split-append [] t = refl
split-append (c ∷ s) t = ap (add_byte c) (split-append s t) ∙ joined-add_byte c (split_lines s) t

selected-append :
    (pattern : List ℕ) (a b : List (List ℕ))
    → selected pattern (a ++ b) ≡ selected pattern a ++ selected pattern b
unfolding selected
selected-append pattern [] b = refl
selected-append pattern (l ∷ a) b = elim (Bool-cases (match pattern l)) [
  | inl e ↦
      rw (e, selected-append pattern a b)
        (sym (append_assoc l (newline ∷ selected pattern a) (selected pattern b)))
  | inr e ↦ rw (e, selected-append pattern a b)
]

-- What is after the last newline of a text.
abbrev rest_of : List ℕ → List ℕ
rest_of s = (split_lines s).1

module _ (c : ℕ) (P : Parts → Type 0) (s : List ℕ)
    (at_newline : (c == newline) ≡ true → P ([] ∷ (split_lines s).0, (split_lines s).1))
    (no_line : (c == newline) ≡ false
      → (left : List ℕ) → split_lines s ≡ ([], left)
      → P ([], c ∷ left))
    (in_line : (c == newline) ≡ false
      → (l : List ℕ) (ls : List (List ℕ)) (left : List ℕ) → split_lines s ≡ (l ∷ ls, left)
      → P ((c ∷ l) ∷ ls, left)) where
  add_byte-cases : P (add_byte c (split_lines s))
  add_byte-cases = elim (Bool-cases (c == newline)) [
    | inl e ↦ subst P (sym (add_true c (split_lines s) e)) (at_newline e)
    | inr e ↦ inner (split_lines s) refl e
  ]
    where
      inner : (r : Parts) → split_lines s ≡ r → (c == newline) ≡ false → P (add_byte c r)
      inner ([], left) h e = subst P (sym (add_false c left e)) (no_line e left h)
      inner (l ∷ ls, left) h e =
          subst P (sym (add_false_line c l ls left e)) (in_line e l ls left h)

rest_of-idempotent : (s : List ℕ) → split_lines (rest_of s) ≡ ([], rest_of s)
unfolding split_lines
rest_of-idempotent [] = refl
rest_of-idempotent (c ∷ s) =
    let ih = rest_of-idempotent s in
    add_byte-cases c (λ r. split_lines r.1 ≡ ([], r.1)) s (λ e. ih)
      (λ e left h.
        ap (add_byte c) (subst (λ x. split_lines x ≡ ([], x)) (ap (λ (r : Parts). r.1) h) ih)
        ∙ add_false c left e)
      (λ e l ls left h. subst (λ x. split_lines x ≡ ([], x)) (ap (λ (r : Parts). r.1) h) ih)

rest_of-IsText : (s : List ℕ) → IsText s → IsText (rest_of s)
unfolding split_lines
rest_of-IsText [] h = tt
rest_of-IsText (c ∷ s) h =
    let ih = rest_of-IsText s h.1 in
    add_byte-cases c (λ r. IsText r.1) s (λ e. ih)
      (λ e left k. (h.0, subst IsText (ap (λ (r : Parts). r.1) k) ih))
      (λ e l ls left k. subst IsText (ap (λ (r : Parts). r.1) k) ih)

length-rest_of : (s : List ℕ) → length (rest_of s) ≤ length s
unfolding split_lines
length-rest_of [] = omega arith
length-rest_of (c ∷ s) =
    let ih = length-rest_of s in
    add_byte-cases c (λ r. length r.1 ≤ suc (length s)) s (λ e. omega (arith, ih))
      (λ e left k. omega (arith, ih, ap (λ (r : Parts). length r.1) k))
      (λ e l ls left k. omega (arith, ih, ap (λ (r : Parts). length r.1) k))

shorter-rest_of : (s : List ℕ) → contains newline s ≡ true → length (rest_of s) < length s
unfolding split_lines
shorter-rest_of [] h = cc
shorter-rest_of (c ∷ s) h =
    add_byte-cases c (λ r. length r.1 < suc (length s)) s (λ e. omega (arith, length-rest_of s))
      (λ e left k. omega (arith, shorter-rest_of s (rw e at h), ap (λ (r : Parts). length r.1) k))
      (λ e l ls left k. omega (arith, length-rest_of s, ap (λ (r : Parts). length r.1) k))

contains-append : (s t : List ℕ) → contains newline t ≡ true → contains newline (s ++ t) ≡ true
contains-append [] t h = h
contains-append (c ∷ s) t h = elim (Bool-cases (c == newline)) [
  | inl e ↦ rw e
  | inr e ↦ rw (e, contains-append s t h)
]

append-IsText : (s t : List ℕ) → IsText s → IsText t → IsText (s ++ t)
append-IsText [] t h k = k
append-IsText (c ∷ s) t h k = (h.0, append-IsText s t h.1 k)

-- Every piece has a newline and no NUL.
abbrev pub HaveLines : List (List ℕ) → Type 0
HaveLines pieces = All (λ p. IsText p × (contains newline p ≡ true)) pieces

grep_round :
    (pattern left piece : List ℕ) (pieces : List (List ℕ))
    → IsText left
    → IsText piece
    → contains newline piece ≡ true
    → grep pattern left (piece ∷ pieces)
      ≡ selected pattern (split_lines (left ++ piece)).0
        ++ grep pattern (rest_of (left ++ piece)) pieces
unfolding grep
grep_round pattern left [] pieces h k n = cc
grep_round pattern left (c ∷ piece) pieces h k n =
    let buf = left ++ c ∷ piece in
    let e =
      take_lines-Selects (length buf) pattern buf (append-IsText left (c ∷ piece) h k)
        (omega arith) in
    let s = shorter-rest_of buf (contains-append left (c ∷ piece) n) in
    let t : (length (rest_of buf) == length buf) ≡ false = ground (arith, s) in rw (grep, e, t)

greps :
    (pattern left : List ℕ) (pieces : List (List ℕ))
    → IsText left
    → split_lines left ≡ ([], left)
    → HaveLines pieces
    → grep pattern left pieces ≡ selected pattern (split_lines (left ++ concat pieces)).0
unfolding grep selected
greps pattern left [] h e k = sym (
    ap (λ x. selected pattern (split_lines x).0) (append-nil left)
    ∙ ap (λ (r : Parts). selected pattern r.0) e)
greps pattern left (piece ∷ pieces) h e k =
    let buf = left ++ piece in
    let text = append-IsText left piece h k.0.0 in
    let ih =
      greps pattern (rest_of buf) pieces (rest_of-IsText buf text) (rest_of-idempotent buf) k.1 in
    let whole : split_lines (left ++ (piece ++ concat pieces))
        ≡ joined (split_lines buf) (concat pieces) =
      ap split_lines (sym (append_assoc left piece (concat pieces)))
      ∙ split-append buf (concat pieces) in
    grep_round pattern left piece pieces h k.0.0 k.0.1
    ∙ ap (λ x. selected pattern (split_lines buf).0 ++ x) ih
    ∙ sym
        (selected-append pattern (split_lines buf).0 (split_lines (rest_of buf ++ concat pieces)).0)
    ∙ ap (λ (r : Parts). selected pattern r.0) (sym whole)

-- grep on a text without a NUL, in pieces that each have a newline, writes exactly the lines of the
-- whole text that match, in their order and each with its newline, wherever the pieces end.
pub grep_lem :
    (pattern : List ℕ) (pieces : List (List ℕ))
    → HaveLines pieces
    → grep pattern [] pieces ≡ selected pattern (split_lines (concat pieces)).0
unfolding split_lines
grep_lem pattern pieces h = greps pattern [] pieces tt refl h

no_lines : (s : List ℕ) → contains newline s ≡ false → split_lines s ≡ ([], s)
unfolding split_lines
no_lines [] h = refl
no_lines (c ∷ s) h = elim (Bool-cases (c == newline)) [
  | inl e ↦ cc (rw e at h)
  | inr e ↦ ap (add_byte c) (no_lines s (rw e at h)) ∙ add_false c s e
]

-- grep forgets what a read has brought, with the beginning of the line that was in the buffer, if
-- there is no newline among it: the line goes on as if it began with the next read. The read has brought
-- a byte at least, and the text has no NUL.
pub grep_forgets :
    (pattern left : List ℕ) (c : ℕ) (piece : List ℕ) (pieces : List (List ℕ))
    → IsText left
    → IsText (c ∷ piece)
    → contains newline (left ++ c ∷ piece) ≡ false
    → grep pattern left ((c ∷ piece) ∷ pieces) ≡ grep pattern [] pieces
unfolding grep selected
grep_forgets pattern left c piece pieces h k n =
    let buf = left ++ c ∷ piece in
    let e =
      take_lines-Selects (length buf) pattern buf (append-IsText left (c ∷ piece) h k)
        (omega arith) in
    let s = no_lines buf n in
    let t : (length buf == length buf) ≡ true = ground arith in rw (grep, e, s, t)
