-- ===== src/Grep/Star.antt =====
-- grep.c: what a pattern means, apart from the matcher, and matchstar.
use sys_prog_assessment.Prelude.{
  ℕ, Bool, true, false, ◌&&◌, ◌||◌, ◌==◌, if◌then◌else◌, List, [], ◌∷◌, ◌++◌, ◌≡◌, ap, arith, ◌⊎◌,
  inl, inr, Bool-cases,
}
use sys_prog_assessment.Grep.{dollar, asterisk, dot, accepts, matchstar}

-- A pattern without its anchors: single characters and repeated ones.
pub data Item : Type 0 where
  one : ℕ → Item
  many : ℕ → Item

-- The items of a pattern, and whether a `$` ends it.
unfoldable pub parse : List ℕ → List Item × Bool
parse [] = ([], false)
parse (c ∷ []) = if c == dollar then ([], true) else (one c ∷ [], false)
parse (c ∷ d ∷ re) =
    let after = parse re in
    let next = parse (d ∷ re) in
    if d == asterisk then (many c ∷ after.0, after.1) else (one c ∷ next.0, next.1)

-- The texts that a list of items spells.
pub data Spells : List Item → List ℕ → Type 0 where
  nothing : Spells [] []
  one_of :
      {c t : ℕ} {is : List Item} {s : List ℕ}
      → accepts c t ≡ true
      → Spells is s
      → Spells (one c ∷ is) (t ∷ s)
  no_more : {c : ℕ} {is : List Item} {s : List ℕ} → Spells is s → Spells (many c ∷ is) s
  one_more :
      {c t : ℕ} {is : List Item} {s : List ℕ}
      → accepts c t ≡ true
      → Spells (many c ∷ is) s
      → Spells (many c ∷ is) (t ∷ s)

-- A text begins with one that the items spell, which is all of it where `e` asks for the end.
abbrev pub Begins : List Item → Bool → List ℕ → Type 0
Begins is e s =
    (mid : List ℕ) × (post : List ℕ) × (s ≡ mid ++ post)
    × Spells is mid
    × ((e ≡ false) ⊎ (post ≡ []))

same_test : (c t : ℕ) → (t == c || c == dot) ≡ accepts c t
same_test c t = ground arith

module _ (c : ℕ) (is : List Item) (e : Bool) (rest : List ℕ → Bool) where
  pub star_sound :
      ((s : List ℕ) → rest s ≡ true → Begins is e s)
      → (s : List ℕ) → matchstar c rest s ≡ true
      → Begins (many c ∷ is) e s
  unfolding matchstar
  star_sound h [] k = let (mid, post, p, w, q) = h [] k in (mid, post, p, no_more w, q)
  star_sound h (t ∷ s) k = elim (Bool-cases (rest (t ∷ s))) [
    | inl r ↦ let (mid, post, p, w, q) = h (t ∷ s) r in (mid, post, p, no_more w, q)
    | inr r ↦
        let both : ((t == c || c == dot) && matchstar c rest s) ≡ true = cc (rw r at k) in
        let a : accepts c t ≡ true = ground (arith, both) in
        let m : matchstar c rest s ≡ true = ground (arith, both) in
        let (mid, post, p, w, q) = star_sound h s m in
        (t ∷ mid, post, ap (λ x. t ∷ x) p, one_more a w, q)
  ]

matchstar-rest :
    (c : ℕ) (rest : List ℕ → Bool) (s : List ℕ) → rest s ≡ true → matchstar c rest s ≡ true
unfolding matchstar
matchstar-rest c rest [] h = h
matchstar-rest c rest (t ∷ s) h = rw h

matchstar-more :
    (c : ℕ) (rest : List ℕ → Bool) (t : ℕ) (s : List ℕ)
    → accepts c t ≡ true
    → matchstar c rest s ≡ true
    → matchstar c rest (t ∷ s) ≡ true
unfolding matchstar
matchstar-more c rest t s a h = elim (Bool-cases (rest (t ∷ s))) [
  | inl r ↦ rw r
  | inr r ↦ rw (r, same_test c t, a, h)
]

pub star_complete :
    {c : ℕ} {is : List Item} (e : Bool) (rest : List ℕ → Bool)
    → ((mid post : List ℕ) → Spells is mid → (e ≡ false) ⊎ (post ≡ []) → rest (mid ++ post) ≡ true)
    → (mid post : List ℕ) → Spells (many c ∷ is) mid
    → (e ≡ false) ⊎ (post ≡ [])
    → matchstar c rest (mid ++ post) ≡ true
star_complete {c = c} e rest h mid post (no_more w) q = matchstar-rest c rest _ (h mid post w q)
star_complete {c = c} e rest h (t ∷ mid) post (one_more a w) q =
    matchstar-more c rest t (mid ++ post) a (star_complete e rest h mid post w q)
