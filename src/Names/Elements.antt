-- ===== src/Names/Elements.antt =====
-- fs.c: the elements of a path, and skipelem.
use sys_prog_assessment.Prelude.{
  ℕ, ◌<◌, ◌≤◌, ◌≡◌, refl, sym, ap, ◌∙◌, arith, true, false, ◌==◌, if◌then◌else◌, Bool-cases, inl,
  inr, List, [], ◌∷◌, none, some, take, length, ◌⊎◌,
}
use sys_prog_assessment.Names.{slash, dirsiz, skip_slashes, span, skipelem}

abbrev add_to_first : ℕ → List (List ℕ) → List (List ℕ)
add_to_first c [] = (c ∷ []) ∷ []
add_to_first c (s ∷ ss) = (c ∷ s) ∷ ss

-- What stands between the slashes of a path.
unfoldable pub segments : List ℕ → List (List ℕ)
segments [] = [] ∷ []
segments (c ∷ path) = let ss = segments path in if c == slash then [] ∷ ss else add_to_first c ss

-- The segments that are not empty, cut to DIRSIZ bytes.
unfoldable pub names : List (List ℕ) → List (List ℕ)
names [] = []
names ([] ∷ ss) = names ss
names ((c ∷ s) ∷ ss) = take dirsiz (c ∷ s) ∷ names ss

abbrev pub elements : List ℕ → List (List ℕ)
elements path = names (segments path)

module _ (c : ℕ) (path : List ℕ) where
  elements-slash : (c == slash) ≡ true → elements (c ∷ path) ≡ elements path
  unfolding segments names
  elements-slash e = rw e

  segments-longer : (c == slash) ≡ false → segments (c ∷ path) ≡ add_to_first c (segments path)
  unfolding segments
  segments-longer e = rw e

  span-slash : (c == slash) ≡ true → span (c ∷ path) ≡ ([], c ∷ path)
  unfolding span
  span-slash e = rw e

  span-longer : (c == slash) ≡ false → span (c ∷ path) ≡ (c ∷ (span path).0, (span path).1)
  unfolding span
  span-longer e = rw e

  skip-slash : (c == slash) ≡ true → skip_slashes (c ∷ path) ≡ skip_slashes path
  unfolding skip_slashes
  skip-slash e = rw e

  skip-other : (c == slash) ≡ false → skip_slashes (c ∷ path) ≡ c ∷ path
  unfolding skip_slashes
  skip-other e = rw e

elements-skip_slashes : (path : List ℕ) → elements (skip_slashes path) ≡ elements path
unfolding skip_slashes
elements-skip_slashes [] = refl
elements-skip_slashes (c ∷ path) = elim (Bool-cases (c == slash)) [
  | inl e ↦ rw e (elements-skip_slashes path ∙ sym (elements-slash c path e))
  | inr e ↦ rw e
]

length-skip_slashes : (path : List ℕ) → length (skip_slashes path) ≤ length path
unfolding skip_slashes
length-skip_slashes [] = omega arith
length-skip_slashes (c ∷ path) = elim (Bool-cases (c == slash)) [
  | inl e ↦ rw e (omega (arith, length-skip_slashes path))
  | inr e ↦ rw e (omega arith)
]

length-span : (path : List ℕ) → length (span path).1 ≤ length path
unfolding span
length-span [] = omega arith
length-span (c ∷ path) = elim (Bool-cases (c == slash)) [
  | inl e ↦ rw e (omega arith)
  | inr e ↦ rw e (omega (arith, length-span path))
]

-- The first segment is what `span` goes over, and the others are those of the rest.
segments-span :
    (path : List ℕ)
    → (ss : List (List ℕ)) × (segments path ≡ (span path).0 ∷ ss)
      × (names ss ≡ elements (span path).1)
unfolding segments span names
segments-span [] = ([], refl, refl)
segments-span (c ∷ path) = elim (Bool-cases (c == slash)) [
  | inl e ↦ (
    segments path,
    rw e,
    sym (
        ap (λ (r : List ℕ × List ℕ). elements r.1) (span-slash c path e) ∙ elements-slash c path e),
  )
  | inr e ↦
      let (ss, h, k) = segments-span path in
      (
        ss,
        segments-longer c path e
            ∙ ap (add_to_first c) h
            ∙ ap (λ (r : List ℕ × List ℕ). r.0 ∷ ss) (sym (span-longer c path e)),
        k ∙ ap (λ (r : List ℕ × List ℕ). elements r.1) (sym (span-longer c path e)),
      )
]

-- A path from its first element on.
elements-cons :
    (c : ℕ) (path : List ℕ)
    → (c == slash) ≡ false
    → elements (c ∷ path) ≡ take dirsiz (span (c ∷ path)).0 ∷ elements (span (c ∷ path)).1
unfolding names
elements-cons c path e =
    let (ss, h, k) = segments-span path in
    ap names (segments-longer c path e ∙ ap (add_to_first c) h)
    ∙ ap (λ x. take dirsiz (c ∷ (span path).0) ∷ x) k
    ∙ ap (λ (r : List ℕ × List ℕ). take dirsiz r.0 ∷ elements r.1) (sym (span-longer c path e))

skip-nil : skip_slashes [] ≡ []
unfolding skip_slashes
skip-nil = refl

elements-nil : elements [] ≡ []
unfolding segments names
elements-nil = refl

-- A path has no element, or one begins after its slashes.
starts :
    (path : List ℕ)
    → (skip_slashes path ≡ [])
      ⊎ ((c : ℕ) × (rest : List ℕ) × (skip_slashes path ≡ c ∷ rest) × ((c == slash) ≡ false))
starts [] = inl skip-nil
starts (c ∷ path) = elim (Bool-cases (c == slash)) [
  | inl e ↦ elim (starts path) [
    | inl h ↦ inl (skip-slash c path e ∙ h)
    | inr (d, rest, h, k) ↦ inr (d, rest, skip-slash c path e ∙ h, k)
  ]
  | inr e ↦ inr (c, path, skip-other c path e, e)
]

skip_twice : (x : List ℕ) → skip_slashes (skip_slashes x) ≡ skip_slashes x
skip_twice x = elim (starts x) [
  | inl h ↦ ap skip_slashes h ∙ skip-nil ∙ sym h
  | inr (c, rest, h, k) ↦ ap skip_slashes h ∙ skip-other c rest k ∙ sym h
]

skipelem-none : (path : List ℕ) → skip_slashes path ≡ [] → skipelem path ≡ none
unfolding skipelem
skipelem-none path h = rw (skipelem, h)

skipelem-some :
    (path : List ℕ) (c : ℕ) (rest : List ℕ)
    → skip_slashes path ≡ c ∷ rest
    → skipelem path ≡ some (take dirsiz (span (c ∷ rest)).0, skip_slashes (span (c ∷ rest)).1)
unfolding skipelem
skipelem-some path c rest h = rw (skipelem, h)

-- skipelem takes the first element off, or there is none.
pub skipelem-elements :
    (path : List ℕ)
    → ((skipelem path ≡ none) × (elements path ≡ []))
      ⊎ ((name : List ℕ) × (rest : List ℕ) × (skipelem path ≡ some (name, rest))
          × (elements path ≡ name ∷ elements rest)
          × (length rest < length path)
          × (skip_slashes rest ≡ rest))
skipelem-elements path = elim (starts path) [
  | inl h ↦
      inl (skipelem-none path h, sym (elements-skip_slashes path) ∙ ap elements h ∙ elements-nil)
  | inr (c, p, h, k) ↦
      let r = span (c ∷ p) in
      inr (
        take dirsiz r.0,
        skip_slashes r.1,
        skipelem-some path c p h,
        sym (elements-skip_slashes path)
            ∙ ap elements h
            ∙ elements-cons c p k
            ∙ ap (λ x. take dirsiz r.0 ∷ x) (sym (elements-skip_slashes r.1)),
        omega (
          arith,
          length-skip_slashes r.1,
          length-span p,
          length-skip_slashes path,
          ap (λ (x : List ℕ × List ℕ). length x.1) (span-longer c p k),
          ap length h,
        ),
        skip_twice r.1,
      )
]

-- A rest without slashes before it and without elements is empty.
pub rest_end : (rest : List ℕ) → skip_slashes rest ≡ rest → elements rest ≡ [] → rest ≡ []
rest_end rest h e = elim (starts rest) [
  | inl k ↦ sym h ∙ k
  | inr (c, p, k, other) ↦
      cc (sym (elements-skip_slashes rest ∙ e) ∙ ap elements k ∙ elements-cons c p other)
]

pub elements_end : (rest : List ℕ) → rest ≡ [] → elements rest ≡ []
elements_end rest h = ap elements h ∙ elements-nil
