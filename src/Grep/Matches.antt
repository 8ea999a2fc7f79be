-- ===== src/Grep/Matches.antt =====
-- grep.c: the matcher finds what the pattern means.
use sys_prog_assessment.Prelude.{
  ℕ, Bool, true, false, ◌==◌, if◌then◌else◌, List, [], ◌∷◌, ◌++◌, ◌≡◌, refl, sym, ap, ◌∙◌, ◌⊎◌, inl,
  inr, ◌↔◌, Bool-cases, fun_ext,
}
use sys_prog_assessment.Grep.{
  dollar, asterisk, caret, accepts, is_nil, matchstar, match_one, matchhere, match_from, match,
}
use sys_prog_assessment.Grep.Star.{
  Item, one, many, parse, Spells, nothing, one_of, Begins, star_sound, star_complete,
}

-- The matcher on the items of a pattern.
unfoldable pub run : List Item → Bool → List ℕ → Bool
run [] e s = if e then is_nil s else true
run (one c ∷ is) e s = match_one c (run is e) s
run (many c ∷ is) e s = matchstar c (run is e) s

matchhere-run : (re s : List ℕ) → matchhere re s ≡ run (parse re).0 (parse re).1 s
unfolding matchhere run parse
matchhere-run [] s = refl
matchhere-run (c ∷ []) s = elim (Bool-cases (c == dollar)) [
  | inl e ↦ rw e
  | inr e ↦ rw e (ap (λ f. match_one c f s) (fun_ext (λ x. matchhere-run [] x)))
]
matchhere-run (c ∷ d ∷ re) s = elim (Bool-cases (d == asterisk)) [
  | inl e ↦ rw e (ap (λ f. matchstar c f s) (fun_ext (λ x. matchhere-run re x)))
  | inr e ↦ rw e (ap (λ f. match_one c f s) (fun_ext (λ x. matchhere-run (d ∷ re) x)))
]

pub run_sound : (is : List Item) (e : Bool) (s : List ℕ) → run is e s ≡ true → Begins is e s
unfolding run
run_sound [] true [] h = ([], [], refl, nothing, inr refl)
run_sound [] true (t ∷ s) h = cc
run_sound [] false s h = ([], s, refl, nothing, inl refl)
run_sound (one c ∷ is) e [] h = cc
run_sound (one c ∷ is) e (t ∷ s) h = elim (Bool-cases (accepts c t)) [
  | inl a ↦
      let (mid, post, p, w, q) = run_sound is e s (rw a at h) in
      (t ∷ mid, post, ap (λ x. t ∷ x) p, one_of a w, q)
  | inr a ↦ cc (rw a at h)
]
run_sound (many c ∷ is) e s h = star_sound c is e (run is e) (λ x k. run_sound is e x k) s h

pub run_complete :
    (is : List Item) (e : Bool) (mid post : List ℕ)
    → Spells is mid
    → (e ≡ false) ⊎ (post ≡ [])
    → run is e (mid ++ post) ≡ true
unfolding run
run_complete [] true [] post nothing (inl k) = cc
run_complete [] true [] post nothing (inr k) = rw k
run_complete [] false [] post nothing q = refl
run_complete [] false (t ∷ mid) post w q = elim w [ ]
run_complete [] true (t ∷ mid) post w q = elim w [ ]
run_complete (one c ∷ is) e [] post w q = elim w [ ]
run_complete (one c ∷ is) e (t ∷ mid) post (one_of a w) q = rw a (run_complete is e mid post w q)
run_complete (many c ∷ is) e mid post w q =
    star_complete e (run is e) (λ x y v k. run_complete is e x y v k) mid post w q

pub from_sound :
    (here : List ℕ → Bool) (s : List ℕ)
    → match_from here s ≡ true
    → (pre : List ℕ) × (rest : List ℕ) × (s ≡ pre ++ rest) × (here rest ≡ true)
unfolding match_from
from_sound here [] h = ([], [], refl, h)
from_sound here (t ∷ s) h = elim (Bool-cases (here (t ∷ s))) [
  | inl e ↦ ([], t ∷ s, refl, e)
  | inr e ↦
      let (pre, rest, p, k) = from_sound here s (rw e at h) in (t ∷ pre, rest, ap (λ x. t ∷ x) p, k)
]

pub from_complete :
    (here : List ℕ → Bool) (pre rest : List ℕ)
    → here rest ≡ true
    → match_from here (pre ++ rest) ≡ true
unfolding match_from
from_complete here [] [] h = h
from_complete here [] (t ∷ rest) h = rw h
from_complete here (t ∷ pre) rest h = elim (Bool-cases (here (t ∷ (pre ++ rest)))) [
  | inl e ↦ rw e
  | inr e ↦ rw (e, from_complete here pre rest h)
]

-- Whether `^` begins a pattern, and the pattern without it.
abbrev pub anchored : List ℕ → Bool
anchored [] = false
anchored (c ∷ re) = c == caret

abbrev pub body : List ℕ → List ℕ
body [] = []
body (c ∷ re) = if c == caret then re else c ∷ re

-- A text has a part that the items of the pattern spell: its beginning if the pattern begins with
-- `^`, and its end if the pattern ends with `$`.
abbrev pub Occurs : List ℕ → List ℕ → Type 0
Occurs re text =
    (pre : List ℕ) × (rest : List ℕ) × (text ≡ pre ++ rest)
    × ((anchored re ≡ false) ⊎ (pre ≡ []))
    × Begins (parse (body re)).0 (parse (body re)).1 rest

match-anchored : (re s : List ℕ) → anchored re ≡ true → match re s ≡ matchhere (body re) s
unfolding match
match-anchored [] s h = cc
match-anchored (c ∷ re) s h = rw h

match_searching :
    (re s : List ℕ) → anchored re ≡ false → match re s ≡ match_from (matchhere (body re)) s
unfolding match
match_searching [] s h = refl
match_searching (c ∷ re) s h = rw h

here_iff : (re s : List ℕ) → (matchhere re s ≡ true) ↔ Begins (parse re).0 (parse re).1 s
here_iff re s = (
  λ h. run_sound (parse re).0 (parse re).1 s (sym (matchhere-run re s) ∙ h),
  λ (mid, post, p, w, q).
      matchhere-run re s
      ∙ ap (run (parse re).0 (parse re).1) p
      ∙ run_complete (parse re).0 (parse re).1 mid post w q,
)

-- match returns 1 exactly where the pattern occurs in the text.
pub match_iff : (re text : List ℕ) → (match re text ≡ true) ↔ Occurs re text
match_iff re text = elim (Bool-cases (anchored re)) [
  | inl a ↦ (
    λ h. (
      [],
      text,
      refl,
      inr refl,
      (here_iff (body re) text).0 (sym (match-anchored re text a) ∙ h),
    ),
    λ (pre, rest, p, q, b).
        match-anchored re text a
        ∙ ap (matchhere (body re)) (p ∙ bare pre rest a q)
        ∙ (here_iff (body re) rest).1 b,
  )
  | inr a ↦ (
    λ h.
        let (pre, rest, p, k) =
          from_sound (matchhere (body re)) text (sym (match_searching re text a) ∙ h) in
        (pre, rest, p, inl a, (here_iff (body re) rest).0 k),
    λ (pre, rest, p, q, b).
        match_searching re text a
        ∙ ap (match_from (matchhere (body re))) p
        ∙ from_complete (matchhere (body re)) pre rest ((here_iff (body re) rest).1 b),
  )
]
  where
    bare :
        (pre rest : List ℕ)
        → anchored re ≡ true
        → (anchored re ≡ false) ⊎ (pre ≡ [])
        → pre ++ rest ≡ rest
    bare pre rest a (inl e) = cc
    bare pre rest a (inr e) = rw e
