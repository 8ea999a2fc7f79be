-- ===== src/Readwrite/Read.antt =====
-- fs.c: readi reads the bytes of the file.
use sys_prog_assessment.Prelude.{
  ℕ, zero, suc, ◌+◌, ◌-◌, ◌/◌, ◌%◌, ◌^◌, ◌<◌, ◌≤◌, ◌≡◌, ◌≢◌, refl, sym, ap, ◌∙◌, arith, ◌==◌, ltb,
  leb, ◌&&◌, ◌||◌, if◌then◌else◌, min, u32, ◌⊎◌, true, false, dec_lt, ok, panic, some, lt→ltb, inl,
  inr,
}
use sys_prog_assessment.Blocks.{bsize, Superblock, Volume}
use sys_prog_assessment.Content.{Inode, bmap}
use sys_prog_assessment.Content.Mapped.{mapped}
use sys_prog_assessment.Content.Bmap.{bmap-present}
use sys_prog_assessment.Content.Run.{full_disk}
use sys_prog_assessment.Content.File.{IsFile, content, content-at}
use sys_prog_assessment.Readwrite.{
  overwrite, chunk, read_loop, within_size, readi, writei, Device, t_dev,
}
use sys_prog_assessment.Readwrite.Write.{byte, most}
use sys_prog_assessment.Readwrite.Writei.{Written}
use sys_prog_assessment.Readwrite.Writes.{Missing, writei_lem}

read_loop-done :
    (fuel : ℕ) (sb : Superblock) (tot n off : ℕ) (dst : ℕ → ℕ) (ip : Inode) (v : Volume)
    → n ≤ tot
    → read_loop fuel sb tot n off dst ip v ≡ ok (dst, ip, v)
unfolding read_loop
read_loop-done zero sb tot n off dst ip v h = refl
read_loop-done (suc fuel) sb tot n off dst ip v h = let t : ltb tot n ≡ false = ground arith in rw t

read_loop-step :
    (fuel : ℕ) (sb : Superblock) (tot n off : ℕ) (dst : ℕ → ℕ) (ip : Inode) (v : Volume) (a : ℕ)
    → tot < n
    → bmap sb (off / bsize) ip v ≡ ok (a, ip, v)
    → read_loop (suc fuel) sb tot n off dst ip v
      ≡ read_loop fuel sb
          (tot + chunk (n - tot) off)
          n
          (off + chunk (n - tot) off)
          (overwrite tot (chunk (n - tot) off) (λ i. v.blocks a (off % bsize + i)) dst)
          ip
          v
unfolding read_loop
read_loop-step fuel sb tot n off dst ip v a more e = rw (lt→ltb tot n more, e)

-- What readi leaves in the buffer of the caller.
abbrev pub Fetched : ℕ → ℕ → ℕ → (ℕ → ℕ) → (ℕ → ℕ) → (ℕ → ℕ) → Type 0
Fetched off at n file dst dst' = (i : ℕ) → dst' i ≡ overwrite at n (λ j. file (off + j)) dst i

overlay :
    (off tot m l : ℕ) (file dst mid : ℕ → ℕ) (i : ℕ)
    → mid i ≡ overwrite tot m (λ j. file (off + j)) dst i
    → overwrite (tot + m) l (λ j. file (off + m + j)) mid i
      ≡ overwrite tot (m + l) (λ j. file (off + j)) dst i
overlay off tot m l file dst mid i e = elim (dec_lt i (tot + m)) [
  | yes k ↦ ground (arith, e)
  | no k ↦
      let place : off + m + (i - (tot + m)) ≡ off + (i - tot) = omega arith in
      let far : mid i ≡ dst i = ground (arith, e) in rw (place, far) (ground arith)
]

-- One round of the loop fetches bytes of the file.
chunk-Fetched :
    (tot m off : ℕ) (dst : ℕ → ℕ) (ip : Inode) (v : Volume)
    → mapped v ip (off / bsize) ≢ 0
    → m ≤ bsize - off % bsize
    → Fetched off tot m
        (byte v ip)
        dst
        (overwrite tot m (λ i. v.blocks (mapped v ip (off / bsize)) (off % bsize + i)) dst)
unfolding byte
chunk-Fetched tot m off dst ip v n fits i = elim (dec_lt i tot) [
  | yes k ↦ ground arith
  | no k ↦ elim (dec_lt i (tot + m)) [
    | no j ↦ ground arith
    | yes j ↦
        let at : off / bsize ≡ (off + (i - tot)) / bsize = omega arith in
        let within : off % bsize + (i - tot) ≡ (off + (i - tot)) % bsize = omega arith in
        let t : (leb tot i && ltb i (tot + m)) ≡ true = ground arith in
        rw t (
          ap (v.blocks (mapped v ip (off / bsize))) within
          ∙ ap (λ (x : ℕ → ℕ). x ((off + (i - tot)) % bsize))
              (sym (content-at v ip (off / bsize) refl n))
          ∙ ap (λ k. content v ip k ((off + (i - tot)) % bsize)) at)
  ]
]

pub read_loop-Fetched :
    (fuel : ℕ) (sb : Superblock) (tot n off : ℕ) (dst : ℕ → ℕ) (ip : Inode) (v : Volume)
    → tot ≤ n
    → n ≤ tot + fuel
    → off + (n - tot) ≤ most
    → ((o : ℕ) → off ≤ o → o < off + (n - tot) → mapped v ip (o / bsize) ≢ 0)
    → (dst' : ℕ → ℕ) × (read_loop fuel sb tot n off dst ip v ≡ ok (dst', ip, v))
      × Fetched off tot (n - tot) (byte v ip) dst dst'
read_loop-Fetched zero sb tot n off dst ip v h k l there =
    (dst, read_loop-done zero sb tot n off dst ip v (omega arith), λ i. ground arith)
read_loop-Fetched (suc fuel) sb tot n off dst ip v h k l there = elim (dec_lt tot n) [
  | no q ↦ (dst, read_loop-done (suc fuel) sb tot n off dst ip v (omega arith), λ i. ground arith)
  | yes p ↦
      let m = chunk (n - tot) off in
      let a = mapped v ip (off / bsize) in
      let here = there off (omega arith) (omega arith) in
      let mid = overwrite tot m (λ i. v.blocks a (off % bsize + i)) dst in
      let (dst', e, g) =
        read_loop-Fetched fuel sb (tot + m) n (off + m) mid ip v (omega arith) (omega arith)
          (omega arith) (λ o x y. there o (omega arith) (omega arith)) in
      (
        dst',
        read_loop-step fuel sb tot n off dst ip v a p
              (bmap-present sb (off / bsize) ip v (omega arith) here)
            ∙ e,
        λ i.
            g i
            ∙ overlay off tot m (n - (tot + m)) (byte v ip) dst mid i
                (chunk-Fetched tot m off dst ip v here (omega arith) i)
            ∙ ap (λ k. overwrite tot k (λ j. byte v ip (off + j)) dst i) (omega arith),
      )
]

module _ {S : Type 0} (devsw : ℕ → Device S) (sb : Superblock) (ip : Inode) (dst : ℕ → ℕ)
    (off n : ℕ) (v : Volume) (s : S) where
  readi_runs :
      {k : ℕ} {dst' : ℕ → ℕ}
      → ip.kind ≢ t_dev
      → off ≤ ip.size
      → off + n < 2 ^ 32
      → within_size ip.size off n ≡ k
      → read_loop k sb 0 k off dst ip v ≡ ok (dst', ip, v)
      → readi devsw sb ip dst off n v s ≡ ok (some k, dst', ip, v, s)
  unfolding readi
  readi_runs {k = k} {dst' = dst'} plain place word e r =
      let t : (ip.kind == t_dev) ≡ false = ground arith in
      let u : (ltb ip.size off || ltb (u32 (off + n)) off) ≡ false = ground arith in
      rw (t, u, e, r) (ap (λ j. ok (some j, dst', ip, v, s)) e)

-- readi of a plain file at an offset that is not behind its end returns the number of bytes that
-- there are in the range, up to the end of the file, and puts these bytes of the file, and no others,
-- into the buffer; it allocates nothing. This is where the file has a block for each of these bytes,
-- its size is at most the largest one, and the end of the range does not wrap.
pub readi_lem :
    {S : Type 0} (devsw : ℕ → Device S) (sb : Superblock) (ip : Inode) (dst : ℕ → ℕ) (off n : ℕ)
    (v : Volume) (s : S)
    → ip.kind ≢ t_dev
    → off ≤ ip.size
    → ip.size ≤ most
    → off + n < 2 ^ 32
    → ((o : ℕ) → off ≤ o → o < off + min n (ip.size - off) → mapped v ip (o / bsize) ≢ 0)
    → (dst' : ℕ → ℕ) × (readi devsw sb ip dst off n v s
        ≡ ok (some (min n (ip.size - off)), dst', ip, v, s))
      × ((i : ℕ) → dst' i ≡ overwrite 0 (min n (ip.size - off)) (λ j. byte v ip (off + j)) dst i)
readi_lem devsw sb ip dst off n v s plain place small word there =
    let k = min n (ip.size - off) in
    let e : within_size ip.size off n ≡ k = ground arith in
    let (dst', r, g) =
      read_loop-Fetched k sb 0 k off dst ip v (omega arith) (omega arith) (omega arith)
        (λ o x y. there o x (omega arith)) in
    (
      dst',
      readi_runs devsw sb ip dst off n v s plain place word e r,
      λ i. g i ∙ ap (λ m. overwrite 0 m (λ j. byte v ip (off + j)) dst i) (omega arith),
    )

-- What writei has written to a plain file in order, readi at the same offset returns, and nothing
-- else in the buffer changes, unless writei panicked because the file does not have a block for some
-- byte of the range and there is none left on the disk. The offset is not
-- behind the end of the file, the size of the file and the range are within the largest size.
pub readi-writei :
    {S : Type 0} (devsw : ℕ → Device S) (sb : Superblock) (ip : Inode) (src dst : ℕ → ℕ) (off n : ℕ)
    (v : Volume) (s : S)
    → IsFile sb v ip
    → ip.kind ≢ t_dev
    → off ≤ ip.size
    → ip.size ≤ most
    → off + n ≤ most
    → ((j : ℕ) → src j < 256)
    → ((writei devsw sb ip src off n v s ≡ panic full_disk) × Missing off n ip v)
      ⊎ ((ip' : Inode) × (v' : Volume) × (dst' : ℕ → ℕ) × (writei devsw sb ip src off n v s
            ≡ ok (some n, ip', v', s))
          × (readi devsw sb ip' dst off n v' s ≡ ok (some n, dst', ip', v', s))
          × ((i : ℕ) → dst' i ≡ overwrite 0 n src dst i))
readi-writei devsw sb ip src dst off n v s f plain place small room bytes =
    elim (writei_lem devsw sb ip src off n v s f plain place room bytes) [
      | inl e ↦ inl e
      | inr (ip', v', e, w) ↦
          let size : ip'.size ≡ (if ltb ip.size (off + n) then off + n else ip.size) = w.size in
          let all : min n (ip'.size - off) ≡ n = ground arith in
          let (dst', r, g) =
            readi_lem devsw sb ip' dst off n v' s (λ z. plain (sym w.kind ∙ z)) (ground arith)
              (ground arith) (omega arith) (λ o x y. w.filled o x (omega arith)) in
          inr (
            ip',
            v',
            dst',
            e,
            r ∙ ap (λ k. ok (some k, dst', ip', v', s)) all,
            λ i.
                g i
                ∙ ap (λ k. overwrite 0 k (λ j. byte v' ip' (off + j)) dst i) all
                ∙ read_back i w,
          )
    ]
  where
    read_back :
        {ip' : Inode} {v' : Volume} (i : ℕ)
        → Written sb src off n ip v ip' v'
        → overwrite 0 n (λ j. byte v' ip' (off + j)) dst i ≡ overwrite 0 n src dst i
    read_back {ip' = ip'} {v' = v'} i w = elim (dec_lt i n) [
      | no q ↦ ground arith
      | yes p ↦
          let t : (leb 0 i && ltb i (0 + n)) ≡ true = ground arith in
          let at : off + (i - 0) - off ≡ i - 0 = omega arith in
          let u : (leb off (off + (i - 0)) && ltb (off + (i - 0)) (off + n)) ≡ true =
            ground arith in
          rw t (w.bytes (off + (i - 0)) (omega arith) ∙ rw (u, at))
    ]
