-- ===== src/Bio/Pinned.antt =====
-- bio.c: a buffer that is in use or dirty stays in the cache.
use sys_prog_assessment.Prelude.{
  ℕ, ◌+◌, Bool, true, false, ◌&&◌, Option, none, some, List, [], ◌∷◌, ◌≡◌, refl, arith, ◌==◌,
  if◌then◌else◌, ok, panic, Option-cases, Bool-cases, inl, inr, ◌⊎◌, ◌∙◌, String, u32, All,
}
use sys_prog_assessment.Bio.{Buf, caches, reusable, find_cached, recycle, bget}

-- The buffer of a block: the first one in the list that caches it.
unfoldable pub lookup : ℕ → ℕ → List Buf → Option Buf
lookup dev blockno [] = none
lookup dev blockno (b ∷ bs) =
    let rest = lookup dev blockno bs in if caches dev blockno b then some b else rest

abbrev pub same_block : ℕ → ℕ → ℕ → ℕ → Bool
same_block d k dev blockno = d == dev && k == blockno

-- `find_cached` finds what `lookup` finds, and counts the new reference to it.
pub find_cached-lookup :
    (dev blockno : ℕ) (bs : List Buf) {b : Buf}
    → lookup dev blockno bs ≡ some b
    → (bs' : List Buf) × (find_cached dev blockno bs
        ≡ some (record b { refcnt = u32 (b.refcnt + 1) }, bs'))
      × (lookup dev blockno bs' ≡ some (record b { refcnt = u32 (b.refcnt + 1) }))
unfolding find_cached lookup
find_cached-lookup dev blockno [] h = cc
find_cached-lookup dev blockno (c ∷ bs) {b = b} h = elim (Bool-cases (caches dev blockno c)) [
  | inl e ↦ (record c { refcnt = u32 (c.refcnt + 1) } ∷ bs, ground (arith, e), ground (arith, e))
  | inr e ↦
      let h' : lookup dev blockno bs ≡ some b = ground (arith, e) in
      let (bs', f, g) = find_cached-lookup dev blockno bs {b = b} h' in
      (c ∷ bs', rw (e, f), rw (e, g))
]

find_cached-none :
    (dev blockno : ℕ) (bs : List Buf)
    → lookup dev blockno bs ≡ none
    → find_cached dev blockno bs ≡ none
unfolding find_cached lookup
find_cached-none dev blockno [] h = refl
find_cached-none dev blockno (c ∷ bs) h = elim (Option-cases (lookup dev blockno bs)) [
  | inl e ↦ let f = find_cached-none dev blockno bs e in ground (arith, e, f)
  | inr (b, e) ↦ ground (arith, e)
]

-- Another block's buffer is found as before.
find_cached-other :
    (d k dev blockno : ℕ) (bs : List Buf) {r : Buf × List Buf}
    → find_cached dev blockno bs ≡ some r
    → same_block d k dev blockno ≡ false
    → lookup d k r.1 ≡ lookup d k bs
unfolding find_cached lookup
find_cached-other d k dev blockno [] h n = cc
find_cached-other d k dev blockno (c ∷ bs) {r = r} h n =
    elim (Option-cases (find_cached dev blockno bs)) [
      | inl e ↦ ground (arith, e)
      | inr (r', e) ↦ ground (arith, e, find_cached-other d k dev blockno bs e n)
    ]

recycle-other :
    (d k dev blockno : ℕ) (bs : List Buf) {r : Buf × List Buf} {b : Buf}
    → recycle dev blockno bs ≡ some r
    → same_block d k dev blockno ≡ false
    → lookup d k bs ≡ some b
    → reusable b ≡ false
    → lookup d k r.1 ≡ some b
unfolding recycle lookup
recycle-other d k dev blockno [] h n l u = cc
recycle-other d k dev blockno (c ∷ bs) {r = r} {b = b} h n l u =
    elim (Option-cases (recycle dev blockno bs)) [
      | inl e ↦ ground (arith, e)
      | inr (r', e) ↦ ground (
        arith,
        e,
        λ (l' : lookup d k bs ≡ some b). recycle-other d k dev blockno bs {b = b} e n l' u,
      )
    ]

-- Where no buffer caches the block, the recycled one does, and it is found first.
recycle-lookup :
    (dev blockno : ℕ) (bs : List Buf) {r : Buf × List Buf}
    → recycle dev blockno bs ≡ some r
    → lookup dev blockno bs ≡ none
    → lookup dev blockno r.1 ≡ some r.0
unfolding recycle lookup
recycle-lookup dev blockno [] h n = cc
recycle-lookup dev blockno (c ∷ bs) {r = r} h n = elim (Option-cases (recycle dev blockno bs)) [
  | inl e ↦ ground (arith, e)
  | inr (r', e) ↦
      ground (arith, e, λ (l' : lookup dev blockno bs ≡ none). recycle-lookup dev blockno bs e l')
]

-- The two ways in which `bget` returns.
pub bget-eq-ok :
    (dev blockno : ℕ) (bs : List Buf) {r : Buf × List Buf}
    → bget dev blockno bs ≡ ok r
    → (find_cached dev blockno bs ≡ some r)
      ⊎ ((find_cached dev blockno bs ≡ none) × (recycle dev blockno bs ≡ some r))
unfolding bget
bget-eq-ok dev blockno bs {r = r} h = elim (Option-cases (find_cached dev blockno bs)) [
  | inr (x, e) ↦ inl (ground (arith, e))
  | inl e ↦ inr (
    e,
    elim (Option-cases (recycle dev blockno bs)) [
      | inl f ↦ ground (arith, e, f)
      | inr (x, f) ↦ ground (arith, e, f)
    ],
  )
]

find_cached-eq-none :
    (dev blockno : ℕ) (bs : List Buf)
    → find_cached dev blockno bs ≡ none
    → lookup dev blockno bs ≡ none
unfolding find_cached lookup
find_cached-eq-none dev blockno [] h = refl
find_cached-eq-none dev blockno (c ∷ bs) h = elim (Option-cases (find_cached dev blockno bs)) [
  | inl e ↦ ground (arith, e, find_cached-eq-none dev blockno bs e)
  | inr (x, e) ↦ ground (arith, e)
]

find_cached-Found :
    (dev blockno : ℕ) (bs : List Buf) {r : Buf × List Buf}
    → find_cached dev blockno bs ≡ some r
    → lookup dev blockno r.1 ≡ some r.0
unfolding find_cached lookup
find_cached-Found dev blockno [] h = cc
find_cached-Found dev blockno (c ∷ bs) {r = r} h =
    elim (Option-cases (find_cached dev blockno bs)) [
      | inl e ↦ ground (arith, e)
      | inr (x, e) ↦ ground (arith, e, find_cached-Found dev blockno bs e)
    ]

recycle-none :
    (dev blockno : ℕ) (bs : List Buf)
    → recycle dev blockno bs ≡ none
    → All (λ b. reusable b ≡ false) bs
unfolding recycle
recycle-none dev blockno [] h = tt
recycle-none dev blockno (c ∷ bs) h = elim (Option-cases (recycle dev blockno bs)) [
  | inl e ↦ (ground (arith, e), recycle-none dev blockno bs e)
  | inr (x, e) ↦ ground (arith, e)
]

-- A block that is in the cache: `bget` counts one more reference to its buffer, which keeps its data
-- and its lock, and changes no other block's buffer.
pub bget_hit :
    (dev blockno : ℕ) (bs : List Buf) {b : Buf}
    → lookup dev blockno bs ≡ some b
    → (bs' : List Buf) × (bget dev blockno bs ≡ ok (record b { refcnt = u32 (b.refcnt + 1) }, bs'))
      × (lookup dev blockno bs' ≡ some (record b { refcnt = u32 (b.refcnt + 1) }))
      × ((d k : ℕ) → (same_block d k dev blockno ≡ true) ⊎ (lookup d k bs' ≡ lookup d k bs))
unfolding bget
bget_hit dev blockno bs {b = b} h =
    let (bs', f, g) = find_cached-lookup dev blockno bs {b = b} h in
    (
      bs',
      rw (bget, f),
      g,
      λ d k. elim (Bool-cases (same_block d k dev blockno)) [
        | inl e ↦ inl e
        | inr e ↦ inr (find_cached-other d k dev blockno bs f e)
      ],
    )

-- A buffer that is in use, or that log_write has made dirty, is still in the cache and unchanged
-- when `bget` has returned the buffer of another block.
pub bget_keeps :
    (d k dev blockno : ℕ) (bs : List Buf) {b : Buf} {r : Buf × List Buf}
    → bget dev blockno bs ≡ ok r
    → same_block d k dev blockno ≡ false
    → lookup d k bs ≡ some b
    → reusable b ≡ false
    → lookup d k r.1 ≡ some b
bget_keeps d k dev blockno bs {b = b} h n l u = elim (bget-eq-ok dev blockno bs h) [
  | inl e ↦ find_cached-other d k dev blockno bs e n ∙ l
  | inr (e, f) ↦ recycle-other d k dev blockno bs {b = b} f n l u
]

-- What `bget` returns is the buffer that the cache has for the block from then on.
pub bget-lookup :
    (dev blockno : ℕ) (bs : List Buf) {r : Buf × List Buf}
    → bget dev blockno bs ≡ ok r
    → lookup dev blockno r.1 ≡ some r.0
bget-lookup dev blockno bs h = elim (bget-eq-ok dev blockno bs h) [
  | inl e ↦ find_cached-Found dev blockno bs e
  | inr (e, f) ↦ recycle-lookup dev blockno bs f (find_cached-eq-none dev blockno bs e)
]

-- `bget` panics only where the block is not in the cache and every buffer is in use or dirty.
pub bget-eq-panic :
    (dev blockno : ℕ) (bs : List Buf) {s : String}
    → bget dev blockno bs ≡ panic s
    → (lookup dev blockno bs ≡ none) × All (λ b. reusable b ≡ false) bs
unfolding bget
bget-eq-panic dev blockno bs h =
    let miss : find_cached dev blockno bs ≡ none = ground arith in
    let full : recycle dev blockno bs ≡ none = ground arith in
    (find_cached-eq-none dev blockno bs miss, recycle-none dev blockno bs full)
