-- ===== src/Bio/Unique.antt =====
-- bio.c: a block has at most one buffer. The buffers start as block 0 of device 0, which no code asks
-- for: the devices of the kernel are numbered from 1 (param.h).
use sys_prog_assessment.Prelude.{
  ℕ, zero, suc, ◌+◌, ◌≤◌, false, ◌&&◌, none, List, [], ◌∷◌, ◌≡◌, refl, arith, ◌==◌, ok, Bool-cases,
  Option-cases, inl, inr,
}
use sys_prog_assessment.Bio.{
  Buf, binit, blank_buf, link_bufs, caches, bget, on_buf, buf_at, drop_ref,
}
use sys_prog_assessment.Bio.Count.{
  count, find_cached-count, find_cached-count_zero, recycle-count, recycle-count_other,
  on_buf-count, drop_ref-count,
}
use sys_prog_assessment.Bio.Pinned.{bget-eq-ok}

-- A change of a buffer that leaves it with its block, such as a new flag or a change of its lock.
abbrev pub KeepsBlock : (Buf → Buf) → Type 0
KeepsBlock f = (b : Buf) → ((f b).dev ≡ b.dev) × ((f b).blockno ≡ b.blockno)

-- The lists that the kernel can get to.
pub data Reach : List Buf → Type 0 where
  boot : Reach binit
  got :
      {bs : List Buf} (dev blockno : ℕ) {r : Buf × List Buf}
      → Reach bs
      → (dev == 0) ≡ false
      → bget dev blockno bs ≡ ok r
      → Reach r.1
  changed :
      {bs : List Buf} (i : ℕ) (f : Buf → Buf) → Reach bs → KeepsBlock f → Reach (on_buf i f bs)
  dropped : {bs : List Buf} (i : ℕ) → Reach bs → Reach (drop_ref i bs)

abbrev pub Once : List Buf → Type 0
Once bs = (dev blockno : ℕ) → (dev == 0) ≡ false → count dev blockno bs ≤ 1

link_bufs-count :
    (dev blockno n i : ℕ) (bs : List Buf)
    → (dev == 0) ≡ false
    → count dev blockno (link_bufs n i bs) ≡ count dev blockno bs
unfolding link_bufs count
link_bufs-count dev blockno zero i bs h = refl
link_bufs-count dev blockno (suc n) i bs h =
    ground (arith, link_bufs-count dev blockno n (i + 1) (blank_buf i ∷ bs) h)

got-Once :
    (dev blockno : ℕ) (bs : List Buf) {r : Buf × List Buf}
    → bget dev blockno bs ≡ ok r
    → Once bs
    → Once r.1
got-Once dev blockno bs {r = r} h o = elim (bget-eq-ok dev blockno bs h) [
  | inl e ↦ λ d k n. ground (arith, o d k n, find_cached-count d k dev blockno bs e)
  | inr (e, f) ↦ λ d k n. elim (Bool-cases (dev == d && blockno == k)) [
    | inl g ↦
        let p : d ≡ dev = ground (arith, g) in
        let q : k ≡ blockno = ground (arith, g) in
        rw (p, q)
          (ground (arith, recycle-count dev blockno bs f, find_cached-count_zero dev blockno bs e))
    | inr g ↦ ground (arith, o d k n, recycle-count_other d k dev blockno bs f g)
  ]
]

on_buf-none : (i : ℕ) (f : Buf → Buf) (bs : List Buf) → buf_at i bs ≡ none → on_buf i f bs ≡ bs
unfolding on_buf buf_at
on_buf-none i f [] h = refl
on_buf-none i f (b ∷ bs) h = elim (Option-cases (buf_at i bs)) [
  | inl e ↦ let rest = on_buf-none i f bs e in ground (arith, e, rest)
  | inr (c, e) ↦ ground (arith, e)
]

changed-Once :
    (i : ℕ) (f : Buf → Buf) (bs : List Buf) → KeepsBlock f → Once bs → Once (on_buf i f bs)
changed-Once i f bs h o d k n = elim (Option-cases (buf_at i bs)) [
  | inl e ↦ rw (on_buf-none i f bs e) (o d k n)
  | inr (b, e) ↦
      let (p, q) = h b in
      let same : caches d k (f b) ≡ caches d k b = rw (p, q) in
      rw (on_buf-count d k i f bs e same) (o d k n)
]

Reach-Once : (bs : List Buf) → Reach bs → Once bs
unfolding binit count
Reach-Once bs boot = λ d k n. rw (link_bufs-count d k 30 0 [] n) (ground arith)
Reach-Once bs (got {bs = bs'} dev blockno r n h) = got-Once dev blockno bs' h (Reach-Once bs' r)
Reach-Once bs (changed {bs = bs'} i f r h) = changed-Once i f bs' h (Reach-Once bs' r)
Reach-Once bs (dropped {bs = bs'} i r) =
    λ d k n. ground (arith, drop_ref-count d k i bs', Reach-Once bs' r d k n)

-- In every list that the kernel can get to, a block of a device other than 0 has at most one buffer.
pub cached_once :
    (bs : List Buf) → Reach bs → (dev blockno : ℕ) → (dev == 0) ≡ false → count dev blockno bs ≤ 1
cached_once bs r dev blockno h = Reach-Once bs r dev blockno h
