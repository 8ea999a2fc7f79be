-- ===== src/Kalloc/Steps.antt =====
-- kalloc.c: any sequence of kalloc, kfree and stores into pages in use.
use sys_prog_assessment.Prelude.{
  ℕ, ◌⊎◌, Bool-cases, subst, ◌+◌, ◌%◌, ◌≤◌, ◌<◌, ◌≡◌, refl, arith, true, false, update, ◌==◌,
  if◌then◌else◌, List, [], ◌∷◌, All, contains, ok, inl, inr,
}
use sys_prog_assessment.Kalloc.{Kmem, pgsize, refused, kfree, kalloc}
use sys_prog_assessment.Kalloc.Pages.{
  Linked, Owns, Linked-update, kfree-Owns, kalloc-Owns, kalloc_none, Distinct,
}

abbrev pub remove : ℕ → List ℕ → List ℕ
remove v [] = []
remove v (w ∷ ws) = if w == v then ws else w ∷ remove v ws

-- The states of the allocator, with the pages that it has and the pages in use. A page that is freed
-- is in use, or is new to the allocator as in `freerange`.
pub data Reach (end_kernel : ℕ) : Kmem → List ℕ → List ℕ → Type 0 where
  boot : (m : ℕ → ℕ) → Reach end_kernel (record { freelist = 0; memory = m }) [] []
  added :
      {k k' : Kmem} {free used : List ℕ} (v : ℕ)
      → Reach end_kernel k free used
      → contains v free ≡ false
      → contains v used ≡ false
      → kfree end_kernel v k ≡ ok k'
      → Reach end_kernel k' (v ∷ free) used
  given :
      {k : Kmem} {free used : List ℕ} (v : ℕ)
      → Reach end_kernel k (v ∷ free) used
      → Reach end_kernel (kalloc k).1 free (v ∷ used)
  freed :
      {k k' : Kmem} {free used : List ℕ} (v : ℕ)
      → Reach end_kernel k free used
      → contains v used ≡ true
      → kfree end_kernel v k ≡ ok k'
      → Reach end_kernel k' (v ∷ free) (remove v used)
  stored :
      {k : Kmem} {free used : List ℕ} (p a x : ℕ)
      → Reach end_kernel k free used
      → contains p used ≡ true
      → p ≤ a
      → a < p + pgsize
      → Reach end_kernel (record k { memory = update k.memory a x }) free used

-- The pages in use are page borders, no page is in use twice, and none is free.
abbrev pub IsApart : Kmem → List ℕ → List ℕ → Type 0
IsApart k free used = Owns k free used × Distinct used × All (λ v. v % pgsize ≡ 0) used

All-contains : (P : ℕ → Type 0) (v : ℕ) (ws : List ℕ) → All P ws → contains v ws ≡ true → P v
All-contains P v [] h c = cc
All-contains P v (w ∷ ws) (h, hs) c = elim (Bool-cases (w == v)) [
  | inl e ↦ let same : w ≡ v = ground arith in subst P same h
  | inr e ↦ All-contains P v ws hs (ground arith)
]

All-remove : (P : ℕ → Type 0) (v : ℕ) (ws : List ℕ) → All P ws → All P (remove v ws)
All-remove P v [] h = tt
All-remove P v (w ∷ ws) (h, hs) = elim (Bool-cases (w == v)) [
  | inl e ↦ rw e hs
  | inr e ↦ rw e (h, All-remove P v ws hs)
]

contains-remove : (v w : ℕ) (ws : List ℕ) → contains w ws ≡ false → contains w (remove v ws) ≡ false
contains-remove v w [] h = refl
contains-remove v w (u ∷ ws) h =
    let rest = contains-remove v w ws (ground arith) in ground (arith, rest)

remove-Distinct :
    (v : ℕ) (ws : List ℕ)
    → Distinct ws
    → Distinct (remove v ws) × (contains v (remove v ws) ≡ false)
remove-Distinct v [] h = (tt, refl)
remove-Distinct v (w ∷ ws) (h, hs) =
    let (a, b) = remove-Distinct v ws hs in
    elim (Bool-cases (w == v)) [
      | inl e ↦ let same : w ≡ v = ground arith in rw e (hs, ground arith)
      | inr e ↦ rw e ((contains-remove v w ws h, a), rw e b)
    ]

kfree-eq-ok :
    (end_kernel v : ℕ) (k : Kmem) {k' : Kmem}
    → kfree end_kernel v k ≡ ok k'
    → refused end_kernel v ≡ false
unfolding kfree
kfree-eq-ok end_kernel v k h = ground arith

kfree-IsApart :
    (end_kernel v : ℕ) (k : Kmem) {k' : Kmem} (free used : List ℕ)
    → kfree end_kernel v k ≡ ok k'
    → contains v free ≡ false
    → contains v used ≡ false
    → IsApart k free used
    → IsApart k' (v ∷ free) used
kfree-IsApart end_kernel v k {k' = k'} free used h n o (owns, d, a) =
    let (x, e, owns') =
      kfree-Owns end_kernel v k free used (kfree-eq-ok end_kernel v k h) n o owns in
    let same : x ≡ k' = ground (arith, e, h) in
    (subst (λ y. Owns y (v ∷ free) used) same owns', d, a)

Linked-Border : (m : ℕ → ℕ) (x v : ℕ) (ws : List ℕ) → Linked m x (v ∷ ws) → v % pgsize ≡ 0
unfolding Linked
Linked-Border m x v ws h = h.2

Reach-IsApart :
    (end_kernel : ℕ) {k : Kmem} {free used : List ℕ}
    → Reach end_kernel k free used
    → IsApart k free used
Reach-IsApart end_kernel (boot m) = ((unfold Linked in refl, tt), tt, tt)
Reach-IsApart end_kernel (added {k = k} {free = free} {used = used} v r n o h) =
    kfree-IsApart end_kernel v k free used h n o (Reach-IsApart end_kernel r)
Reach-IsApart end_kernel (given {k = k} {free = free} {used = used} v r) =
    let (owns, d, a) = Reach-IsApart end_kernel r in
    let (e, owns', n, b) = kalloc-Owns k v free used owns in
    (owns', (n, d), (Linked-Border k.memory k.freelist v free owns.0, a))
Reach-IsApart end_kernel (freed {k = k} {free = free} {used = used} v r c h) =
    let ((linked, apart), d, a) = Reach-IsApart end_kernel r in
    let n = All-contains (λ w. contains w free ≡ false) v used apart c in
    let (d', o) = remove-Distinct v used d in
    kfree-IsApart end_kernel v k free (remove v used) h n o (
      (linked, All-remove (λ w. contains w free ≡ false) v used apart),
      d',
      All-remove (λ w. w % pgsize ≡ 0) v used a,
    )
Reach-IsApart end_kernel (stored {k = k} {free = free} {used = used} p a x r c l h) =
    let ((linked, apart), d, border) = Reach-IsApart end_kernel r in
    let n = All-contains (λ w. contains w free ≡ false) p used apart c in
    let q = All-contains (λ w. w % pgsize ≡ 0) p used border c in
    ((Linked-update k.memory a x p k.freelist free l h q n linked, apart), d, border)

-- In every state that kalloc, kfree and stores into pages in use lead to, kalloc returns the null
-- pointer or a page that is not in use and starts at a page border.
pub kalloc-Fresh :
    (end_kernel : ℕ) (k : Kmem) (free used : List ℕ)
    → Reach end_kernel k free used
    → ((kalloc k).0 ≡ 0) ⊎ ((contains (kalloc k).0 used ≡ false) × ((kalloc k).0 % pgsize ≡ 0))
kalloc-Fresh end_kernel k [] used r = inl (kalloc_none k used (Reach-IsApart end_kernel r).0)
kalloc-Fresh end_kernel k (v ∷ free) used r =
    let (owns, d, a) = Reach-IsApart end_kernel r in
    let (e, owns', n, b) = kalloc-Owns k v free used owns in
    inr (rw e n, rw e (Linked-Border k.memory k.freelist v free owns.0))
