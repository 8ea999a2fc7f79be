-- ===== src/Readwrite/Writes.antt =====
-- fs.c: a whole call of writei.
use sys_prog_assessment.Prelude.{
  ℕ, zero, suc, ◌+◌, ◌-◌, ◌/◌, ◌^◌, ◌<◌, ◌≤◌, ◌≡◌, ◌≢◌, sym, ap, ◌∙◌, arith, ◌==◌, ltb, ◌||◌, u32,
  ◌⊎◌, false, dec_lt, ℕ_discrete, ok, panic, Outcome-cases, some, none, String, inl, inr,
}
use sys_prog_assessment.Blocks.{bsize, Superblock, Volume}
use sys_prog_assessment.Content.{Inode, maxfile, bmap}
use sys_prog_assessment.Content.Mapped.{mapped}
use sys_prog_assessment.Content.Bmap.{bmap-present}
use sys_prog_assessment.Content.Run.{full_disk, bmap-full_disk}
use sys_prog_assessment.Content.File.{IsFile, bmap-Found}
use sys_prog_assessment.Readwrite.{chunk, write_loop, finish_write, writei, Device, t_dev}
use sys_prog_assessment.Readwrite.Write.{most, step-Wrote}
use sys_prog_assessment.Readwrite.Writei.{
  write_loop-done, write_loop-step, write_loop-panic, all-Wrote, Written, finish-Written,
}

-- A byte of a range of the file whose block the file does not have.
abbrev pub Missing : ℕ → ℕ → Inode → Volume → Type 0
Missing off m ip v = (o : ℕ) × (off ≤ o) × (o < off + m) × (mapped v ip (o / bsize) ≡ 0)

-- The loop panics only for a block that the file does not have yet and that is not to be had.
write_loop-full_disk :
    (fuel : ℕ) (sb : Superblock) (tot n off : ℕ) (src : ℕ → ℕ) (ip : Inode) (v : Volume)
    {s : String}
    → IsFile sb v ip
    → tot ≤ n
    → off + (n - tot) ≤ most
    → ((j : ℕ) → src j < 256)
    → write_loop fuel sb tot n off src ip v ≡ panic s
    → (s ≡ full_disk) × Missing off (n - tot) ip v
unfolding write_loop
write_loop-full_disk zero sb tot n off src ip v f h l small e = cc
write_loop-full_disk (suc fuel) sb tot n off src ip v {s = s} f h l small e = elim (dec_lt tot n) [
  | no q ↦ cc (sym (write_loop-done (suc fuel) sb tot n off src ip v (omega arith)) ∙ e)
  | yes p ↦ elim (Outcome-cases (bmap sb (off / bsize) ip v)) [
    | inr (u, z) ↦
        let same : u ≡ s = cc (sym (write_loop-panic fuel sb tot n off src ip v p z) ∙ e) in
        (
          sym same ∙ bmap-full_disk sb (off / bsize) ip v (omega arith) z,
          (off, omega arith, omega arith, first_missing u p z),
        )
    | inl ((a, ip₁, v₁), z) ↦
        let m = chunk (n - tot) off in
        let g = bmap-Found sb (off / bsize) ip v f (omega arith) z in
        let one =
          step-Wrote sb off m (λ i. src (tot + i)) ip v a ip₁ v₁ (omega arith) (omega arith)
            (λ i. small (tot + i)) g in
        let (full, (o, x, y, w)) =
          write_loop-full_disk fuel sb (tot + m) n (off + m) src ip₁ _ one.file (omega arith)
            (omega arith) small (sym (write_loop-step fuel sb tot n off src ip v p z) ∙ e) in
        (
          full,
          (
            o,
            omega arith,
            omega arith,
            elim (ℕ_discrete (mapped v ip (o / bsize)) 0) [
              | yes k ↦ k
              | no k ↦ absurd (one.stays (o / bsize) k w)
            ],
          ),
        )
  ]
]
  where
    first_missing :
        (u : String)
        → tot < n
        → bmap sb (off / bsize) ip v ≡ panic u
        → mapped v ip (off / bsize) ≡ 0
    first_missing u p z = elim (ℕ_discrete (mapped v ip (off / bsize)) 0) [
      | yes k ↦ k
      | no k ↦
          let inside : off / bsize < maxfile = omega arith in
          cc (sym (bmap-present sb (off / bsize) ip v inside k) ∙ z)
    ]

module _ {S : Type 0} (devsw : ℕ → Device S) (sb : Superblock) (ip : Inode) (src : ℕ → ℕ)
    (off n : ℕ) (v : Volume) (s : S) (plain : ip.kind ≢ t_dev) (place : off ≤ ip.size)
    (room : off + n ≤ most) where
  writei_runs :
      {off' : ℕ} {ip' : Inode} {v' : Volume}
      → write_loop n sb 0 n off src ip v ≡ ok (off', ip', v')
      → writei devsw sb ip src off n v s ≡ ok (finish_write sb n off' ip' v' s)
  unfolding writei
  writei_runs e =
      let t : (ip.kind == t_dev) ≡ false = ground arith in
      let u : (ltb ip.size off || ltb (u32 (off + n)) off) ≡ false = ground arith in
      let w : ltb most (u32 (off + n)) ≡ false = ground arith in rw (t, u, w, e)

  writei_panics :
      {e : String}
      → write_loop n sb 0 n off src ip v ≡ panic e
      → writei devsw sb ip src off n v s ≡ panic e
  unfolding writei
  writei_panics e =
      let t : (ip.kind == t_dev) ≡ false = ground arith in
      let u : (ltb ip.size off || ltb (u32 (off + n)) off) ≡ false = ground arith in
      let w : ltb most (u32 (off + n)) ≡ false = ground arith in rw (t, u, w, e)

-- writei of `n` bytes at an offset that is not behind the end of a plain file in order, up to the
-- largest size of a file, returns `n`, unless it panics because the file does not have a block for
-- some byte of the range and there is no block left on the disk. Where it returns, every byte of the file
-- in the range is the one of the source and every other byte is what it was, the size grows to the
-- end of the range if it was smaller, the range has its blocks, and the file is in order.
pub writei_lem :
    {S : Type 0} (devsw : ℕ → Device S) (sb : Superblock) (ip : Inode) (src : ℕ → ℕ) (off n : ℕ)
    (v : Volume) (s : S)
    → IsFile sb v ip
    → ip.kind ≢ t_dev
    → off ≤ ip.size
    → off + n ≤ most
    → ((j : ℕ) → src j < 256)
    → ((writei devsw sb ip src off n v s ≡ panic full_disk) × Missing off n ip v)
      ⊎ ((ip' : Inode) × (v' : Volume) × (writei devsw sb ip src off n v s
            ≡ ok (some n, ip', v', s))
          × Written sb src off n ip v ip' v')
writei_lem devsw sb ip src off n v s f plain place room small =
    elim (Outcome-cases (write_loop n sb 0 n off src ip v)) [
      | inr (u, e) ↦
          let (same, (o, x, y, z)) =
            write_loop-full_disk n sb 0 n off src ip v f (omega arith) (omega arith) small e in
          inl (
            writei_panics devsw sb ip src off n v s plain place room e ∙ ap panic same,
            (o, x, omega arith, z),
          )
      | inl ((off', ip', v'), e) ↦
          let (end, w) = all-Wrote sb n off src ip v f room small e in
          let (ip₁, v₁, z, d) = finish-Written sb src off n ip v ip' v' w s place in
          inr (
            ip₁,
            v₁,
            writei_runs devsw sb ip src off n v s plain place room e
                ∙ ap (λ k. ok (finish_write sb n k ip' v' s)) end
                ∙ ap ok z,
            d,
          )
    ]

-- Where the offset is behind the end of a plain file, or the end of the range is behind the largest
-- size of a file, also where the sum of the offset and the length wraps, writei returns -1 and
-- changes nothing.
pub writei_rejects :
    {S : Type 0} (devsw : ℕ → Device S) (sb : Superblock) (ip : Inode) (src : ℕ → ℕ) (off n : ℕ)
    (v : Volume) (s : S)
    → ip.kind ≢ t_dev
    → off < 2 ^ 32
    → n < 2 ^ 32
    → ((ip.size < off) ⊎ (most < off + n))
    → writei devsw sb ip src off n v s ≡ ok (none, ip, v, s)
unfolding writei
writei_rejects devsw sb ip src off n v s plain a b bad =
    let t : (ip.kind == t_dev) ≡ false = ground arith in rw t (ground (arith, bad))
