-- ===== src/Bio/Count.antt =====
-- bio.c: how many buffers cache a block.
use sys_prog_assessment.Prelude.{
  ℕ, ◌+◌, ◌≤◌, Bool, true, false, ◌&&◌, Option, none, some, List, [], ◌∷◌, ◌≡◌, refl, arith, ◌==◌,
  if◌then◌else◌, Option-cases, Bool-cases, inl, inr, sub_u32,
}
use sys_prog_assessment.Bio.{Buf, caches, find_cached, recycle, on_buf, unlink, buf_at, drop_ref}

unfoldable pub count : ℕ → ℕ → List Buf → ℕ
count dev blockno [] = 0
count dev blockno (b ∷ bs) = (if caches dev blockno b then 1 else 0) + count dev blockno bs

pub find_cached-count :
    (d k dev blockno : ℕ) (bs : List Buf) {r : Buf × List Buf}
    → find_cached dev blockno bs ≡ some r
    → count d k r.1 ≡ count d k bs
unfolding find_cached count
find_cached-count d k dev blockno [] h = cc
find_cached-count d k dev blockno (b ∷ bs) {r = r} h =
    elim (Option-cases (find_cached dev blockno bs)) [
      | inl e ↦ ground (arith, e)
      | inr (r', e) ↦ ground (arith, e, find_cached-count d k dev blockno bs e)
    ]

pub find_cached-count_zero :
    (dev blockno : ℕ) (bs : List Buf) → find_cached dev blockno bs ≡ none → count dev blockno bs ≡ 0
unfolding find_cached count
find_cached-count_zero dev blockno [] h = refl
find_cached-count_zero dev blockno (b ∷ bs) h = elim (Option-cases (find_cached dev blockno bs)) [
  | inl e ↦ ground (arith, e, find_cached-count_zero dev blockno bs e)
  | inr (r', e) ↦ ground (arith, e)
]

-- A recycled buffer caches the new block in place of an old one.
pub recycle-count :
    (dev blockno : ℕ) (bs : List Buf) {r : Buf × List Buf}
    → recycle dev blockno bs ≡ some r
    → count dev blockno r.1 ≤ 1 + count dev blockno bs
unfolding recycle count
recycle-count dev blockno [] h = cc
recycle-count dev blockno (b ∷ bs) {r = r} h = elim (Option-cases (recycle dev blockno bs)) [
  | inl e ↦ ground (arith, e)
  | inr (r', e) ↦ ground (arith, e, recycle-count dev blockno bs e)
]

pub recycle-count_other :
    (d k dev blockno : ℕ) (bs : List Buf) {r : Buf × List Buf}
    → recycle dev blockno bs ≡ some r
    → (dev == d && blockno == k) ≡ false
    → count d k r.1 ≤ count d k bs
unfolding recycle count
recycle-count_other d k dev blockno [] h n = cc
recycle-count_other d k dev blockno (b ∷ bs) {r = r} h n =
    elim (Option-cases (recycle dev blockno bs)) [
      | inl e ↦ ground (arith, e)
      | inr (r', e) ↦ ground (arith, e, recycle-count_other d k dev blockno bs e n)
    ]

pub unlink-count :
    (d k i : ℕ) (bs : List Buf) {b : Buf}
    → buf_at i bs ≡ some b
    → (if caches d k b then 1 else 0) + count d k (unlink i bs) ≡ count d k bs
unfolding unlink buf_at count
unlink-count d k i [] h = cc
unlink-count d k i (c ∷ bs) {b = b} h = elim (Option-cases (buf_at i bs)) [
  | inl e ↦ ground (arith, e)
  | inr (b', e) ↦ ground (arith, e, unlink-count d k i bs e)
]

-- Where `f` keeps the block of the buffer that it changes.
pub on_buf-count :
    (d k i : ℕ) (f : Buf → Buf) (bs : List Buf) {b : Buf}
    → buf_at i bs ≡ some b
    → caches d k (f b) ≡ caches d k b
    → count d k (on_buf i f bs) ≡ count d k bs
unfolding on_buf buf_at count
on_buf-count d k i f [] h g = cc
on_buf-count d k i f (c ∷ bs) {b = b} h g =
    go (c.index == i) refl (λ h'. on_buf-count d k i f bs {b = b} h' g)
  where
    go :
        (t : Bool)
        → (c.index == i) ≡ t
        → (buf_at i bs ≡ some b → count d k (on_buf i f bs) ≡ count d k bs)
        → count d k (on_buf i f (c ∷ bs)) ≡ count d k (c ∷ bs)
    go true e rec =
        let same : c ≡ b = ground (arith, e) in
        let g' : caches d k (f c) ≡ caches d k c = rw same g in rw (e, g')
    go false e rec = let h' : buf_at i bs ≡ some b = ground (arith, e) in rw (e, rec h')

pub drop_ref-count : (d k i : ℕ) (bs : List Buf) → count d k (drop_ref i bs) ≡ count d k bs
unfolding drop_ref count
drop_ref-count d k i bs = go (buf_at i bs) refl
  where
    go : (o : Option Buf) → buf_at i bs ≡ o → count d k (drop_ref i bs) ≡ count d k bs
    go none e = rw (e, drop_ref)
    go (some b) e = elim (Bool-cases (sub_u32 b.refcnt 1 == 0)) [
      | inl z ↦ rw (e, drop_ref, z) (ground (arith, unlink-count d k i bs e))
      | inr z ↦
          rw (e, drop_ref, z)
            (on_buf-count d k i (λ _. record b { refcnt = sub_u32 b.refcnt 1 }) bs e refl)
    ]
