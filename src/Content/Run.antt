-- ===== src/Content/Run.antt =====
-- fs.c: the ways in which bmap returns and panics.
use sys_prog_assessment.Prelude.{
  ℕ, zero, suc, ◌+◌, ◌-◌, ◌<◌, ◌≤◌, ◌≡◌, sym, ◌∙◌, subst, arith, false, ltb, inl, inr, ◌==◌, ok,
  panic, Bool-cases, Outcome-cases, dec_lt, String, lt→ltb, ok_inj,
}
use sys_prog_assessment.Blocks.{Superblock, Volume, balloc, find_free, in_use}
use sys_prog_assessment.Blocks.Words.{word_at}
use sys_prog_assessment.Content.{
  Inode, ndirect, nindirect, maxfile, set_addr, ensure, bmap_word, bmap,
}
use sys_prog_assessment.Content.Mapped.{Ensured, ensure-Ensured, Listed, bmap_word-Listed}

-- The two ways in which `bmap` returns.
pub data Run (sb : Superblock) (bn : ℕ) (ip : Inode) (v : Volume)
    : ℕ → Inode → Volume → Type 0 where
  direct_run :
      {b : ℕ} {v' : Volume}
      → bn < ndirect
      → Ensured sb (ip.addrs bn) v b v'
      → Run sb bn ip v b (set_addr bn b ip) v'
  indirect_run :
      {at b : ℕ} {w v' : Volume}
      → ndirect ≤ bn
      → Ensured sb (ip.addrs ndirect) v at w
      → Listed sb at (bn - ndirect) w b v'
      → Run sb bn ip v b (set_addr ndirect at ip) v'

-- The equations of `bmap` on its branches.
pub bmap_direct :
    (sb : Superblock) (bn : ℕ) (ip : Inode) (v : Volume) {b : ℕ} {w : Volume}
    → bn < ndirect
    → ensure sb (ip.addrs bn) v ≡ ok (b, w)
    → bmap sb bn ip v ≡ ok (b, set_addr bn b ip, w)
unfolding bmap
bmap_direct sb bn ip v l e = rw (bmap, lt→ltb bn ndirect l, e)

bmap_direct_full :
    (sb : Superblock) (bn : ℕ) (ip : Inode) (v : Volume) {s : String}
    → bn < ndirect
    → ensure sb (ip.addrs bn) v ≡ panic s
    → bmap sb bn ip v ≡ panic s
unfolding bmap
bmap_direct_full sb bn ip v l e = rw (bmap, lt→ltb bn ndirect l, e)

module _ (sb : Superblock) (bn : ℕ) (ip : Inode) (v : Volume) (far : ndirect ≤ bn)
    (inside : bn < maxfile) where
  pub bmap_indirect :
      {at b : ℕ} {w w' : Volume}
      → ensure sb (ip.addrs ndirect) v ≡ ok (at, w)
      → bmap_word sb at (bn - ndirect) w ≡ ok (b, w')
      → bmap sb bn ip v ≡ ok (b, set_addr ndirect at ip, w')
  unfolding bmap
  bmap_indirect e f =
      let t : ltb bn ndirect ≡ false = ground arith in
      rw (bmap, t, lt→ltb (bn - ndirect) nindirect (omega arith), e, f)

  bmap_indirect_full :
      {s : String} → ensure sb (ip.addrs ndirect) v ≡ panic s → bmap sb bn ip v ≡ panic s
  unfolding bmap
  bmap_indirect_full e =
      let t : ltb bn ndirect ≡ false = ground arith in
      rw (bmap, t, lt→ltb (bn - ndirect) nindirect (omega arith), e)

  bmap_word_full :
      {at : ℕ} {w : Volume} {s : String}
      → ensure sb (ip.addrs ndirect) v ≡ ok (at, w)
      → bmap_word sb at (bn - ndirect) w ≡ panic s
      → bmap sb bn ip v ≡ panic s
  unfolding bmap
  bmap_word_full e f =
      let t : ltb bn ndirect ≡ false = ground arith in
      rw (bmap, t, lt→ltb (bn - ndirect) nindirect (omega arith), e, f)

  indirect_result : {r : ℕ × Inode × Volume} → bmap sb bn ip v ≡ ok r → Run sb bn ip v r.0 r.1 r.2
  indirect_result {r = r} h = elim (Outcome-cases (ensure sb (ip.addrs ndirect) v)) [
    | inl ((at, w), e) ↦ elim (Outcome-cases (bmap_word sb at (bn - ndirect) w)) [
      | inl ((b, w'), f) ↦
          subst (λ (x : ℕ × Inode × Volume). Run sb bn ip v x.0 x.1 x.2)
            (ok_inj (b, set_addr ndirect at ip, w') r (sym (bmap_indirect e f) ∙ h))
            (indirect_run far (ensure-Ensured sb (ip.addrs ndirect) v e)
              (bmap_word-Listed sb at (bn - ndirect) w f))
      | inr (s, f) ↦ cc (sym (bmap_word_full e f) ∙ h)
    ]
    | inr (s, e) ↦ cc (sym (bmap_indirect_full e) ∙ h)
  ]

pub bmap-Run :
    (sb : Superblock) (bn : ℕ) (ip : Inode) (v : Volume) {r : ℕ × Inode × Volume}
    → bn < maxfile
    → bmap sb bn ip v ≡ ok r
    → Run sb bn ip v r.0 r.1 r.2
bmap-Run sb bn ip v {r = r} m h = elim (dec_lt bn ndirect) [
  | no l ↦ indirect_result sb bn ip v (omega arith) m h
  | yes l ↦ elim (Outcome-cases (ensure sb (ip.addrs bn) v)) [
    | inl ((b, w), e) ↦
        subst (λ (x : ℕ × Inode × Volume). Run sb bn ip v x.0 x.1 x.2)
          (ok_inj (b, set_addr bn b ip, w) r (sym (bmap_direct sb bn ip v l e) ∙ h))
          (direct_run l (ensure-Ensured sb (ip.addrs bn) v e))
    | inr (s, e) ↦ cc (sym (bmap_direct_full sb bn ip v l e) ∙ h)
  ]
]

abbrev pub full_disk : String
full_disk = "balloc: out of blocks"

find_free-full_disk :
    (n b : ℕ) (sb : Superblock) (v : Volume) {s : String}
    → find_free n b sb v ≡ panic s
    → s ≡ full_disk
unfolding find_free
find_free-full_disk zero b sb v h = cc
find_free-full_disk (suc n) b sb v {s = s} h = elim (Bool-cases (in_use sb v b)) [
  | inl e ↦ find_free-full_disk n (b + 1) sb v {s = s} (rw e at h)
  | inr e ↦ cc (rw e at h)
]

balloc-full_disk :
    (sb : Superblock) (v : Volume) {s : String} → balloc sb v ≡ panic s → s ≡ full_disk
unfolding balloc
balloc-full_disk sb v {s = s} h = elim (Outcome-cases (find_free sb.size 0 sb v)) [
  | inl (b, e) ↦ cc (rw (balloc, e) at h)
  | inr (u, e) ↦
      let same : u ≡ s = cc (rw (balloc, e) at h) in sym same ∙ find_free-full_disk sb.size 0 sb v e
]

ensure-full_disk :
    (sb : Superblock) (a : ℕ) (v : Volume) {s : String} → ensure sb a v ≡ panic s → s ≡ full_disk
unfolding ensure
ensure-full_disk sb a v {s = s} h = elim (Bool-cases (a == 0)) [
  | inl e ↦ balloc-full_disk sb v (rw e at h)
  | inr e ↦ cc (rw e at h)
]

bmap_word-full_disk :
    (sb : Superblock) (at i : ℕ) (v : Volume) {s : String}
    → bmap_word sb at i v ≡ panic s
    → s ≡ full_disk
unfolding bmap_word
bmap_word-full_disk sb at i v {s = s} h = elim (Bool-cases (word_at (v.blocks at) i == 0)) [
  | inr e ↦ cc (rw e at h)
  | inl e ↦ elim (Outcome-cases (balloc sb v)) [
    | inl (r, f) ↦ cc (rw (e, f) at h)
    | inr (u, f) ↦ let same : u ≡ s = cc (rw (e, f) at h) in sym same ∙ balloc-full_disk sb v f
  ]
]

-- Within the largest size of a file bmap panics only where there is no block left.
pub bmap-full_disk :
    (sb : Superblock) (bn : ℕ) (ip : Inode) (v : Volume) {s : String}
    → bn < maxfile
    → bmap sb bn ip v ≡ panic s
    → s ≡ full_disk
bmap-full_disk sb bn ip v {s = s} m h = elim (dec_lt bn ndirect) [
  | yes l ↦ elim (Outcome-cases (ensure sb (ip.addrs bn) v)) [
    | inl ((b, w), e) ↦ cc (sym (bmap_direct sb bn ip v l e) ∙ h)
    | inr (u, e) ↦
        let same : u ≡ s = cc (sym (bmap_direct_full sb bn ip v l e) ∙ h) in
        sym same ∙ ensure-full_disk sb (ip.addrs bn) v e
  ]
  | no l ↦ elim (Outcome-cases (ensure sb (ip.addrs ndirect) v)) [
    | inr (u, e) ↦
        let same : u ≡ s = cc (sym (bmap_indirect_full sb bn ip v (omega arith) m e) ∙ h) in
        sym same ∙ ensure-full_disk sb (ip.addrs ndirect) v e
    | inl ((at, w), e) ↦ elim (Outcome-cases (bmap_word sb at (bn - ndirect) w)) [
      | inl ((b, w'), f) ↦ cc (sym (bmap_indirect sb bn ip v (omega arith) m e f) ∙ h)
      | inr (u, f) ↦
          let same : u ≡ s = cc (sym (bmap_word_full sb bn ip v (omega arith) m e f) ∙ h) in
          sym same ∙ bmap_word-full_disk sb at (bn - ndirect) w f
    ]
  ]
]
