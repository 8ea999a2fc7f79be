-- ===== src/Readwrite.antt =====
-- fs.c: iupdate, the load of an inode in ilock, readi and writei. A buffer of the caller is a function
-- from the offset in it to the byte there.
pub mod Dinode
pub mod Change
pub mod Write
pub mod Writei
pub mod Writes
pub mod Read
mod Tests
use sys_prog_assessment.Prelude.{
  ℕ, zero, suc, ◌+◌, ◌-◌, ◌*◌, ◌/◌, ◌%◌, ◌^◌, min, Bool, true, false, ◌&&◌, ◌||◌, update, u32, ◌==◌,
  ltb, leb, if◌then◌else◌, Outcome, ok, panic, Option, some, none,
}
use sys_prog_assessment.Blocks.{bsize, Superblock, Volume, log_change}
use sys_prog_assessment.Blocks.Words.{word_at, put_word}
use sys_prog_assessment.Content.{Inode, ndirect, maxfile, ipb, iblock, bmap}

abbrev pub t_dev : ℕ
t_dev = 3

abbrev pub ndev : ℕ
ndev = 10

-- The first of the 16 words of the `struct dinode` of an inode in its block.
abbrev pub dinode : ℕ → ℕ
dinode inum = inum % ipb * 16

-- Two shorts in one word.
abbrev pub halves : ℕ → ℕ → ℕ
halves low high = low + 65536 * high

-- `memmove(dip->addrs, ip->addrs, sizeof(ip->addrs))`, for the first `n` words.
unfoldable pub store_addrs : ℕ → ℕ → (ℕ → ℕ) → (ℕ → ℕ) → ℕ → ℕ
store_addrs zero at a x = x
store_addrs (suc n) at a x = put_word (at + n) (a n) (store_addrs n at a x)

unfoldable pub put_dinode : Inode → (ℕ → ℕ) → ℕ → ℕ
put_dinode ip x = store_addrs (ndirect + 1) (dinode ip.inum + 3) ip.addrs (
    put_word (dinode ip.inum + 2) ip.size (
      put_word (dinode ip.inum + 1) (halves ip.minor ip.nlink)
        (put_word (dinode ip.inum) (halves ip.kind ip.major) x)))

unfoldable pub iupdate : Superblock → Inode → Volume → Volume
unfolding put_dinode
iupdate sb ip v = log_change (iblock ip.inum sb) (put_dinode ip (v.blocks (iblock ip.inum sb))) v

-- What `ilock` loads for an inode that is not valid yet.
unfoldable pub get_dinode : ℕ → (ℕ → ℕ) → Inode
unfolding word_at
get_dinode inum x = record {
  inum = inum;
  kind = word_at x (dinode inum) % 65536;
  major = word_at x (dinode inum) / 65536;
  minor = word_at x (dinode inum + 1) % 65536;
  nlink = word_at x (dinode inum + 1) / 65536;
  size = word_at x (dinode inum + 2);
  addrs = λ i. if leb i ndirect then word_at x (dinode inum + 3 + i) else 0;
}

unfoldable pub ilock_load : Superblock → ℕ → Volume → Outcome Inode
unfolding get_dinode
ilock_load sb inum v =
    let ip = get_dinode inum (v.blocks (iblock inum sb)) in
    if ip.kind == 0 then panic "ilock: no type" else ok ip

-- `devsw`: the functions of a device on the state `S` of the devices.
pub record Device (S : Type 0) : Type 0 where
  pub read : Option (Inode → (ℕ → ℕ) → ℕ → S → Option ℕ × (ℕ → ℕ) × S)
  pub write : Option (Inode → (ℕ → ℕ) → ℕ → S → Option ℕ × S)

-- `memmove` of `m` bytes from `src` to the offset `at` of `x`.
abbrev pub overwrite : ℕ → ℕ → (ℕ → ℕ) → (ℕ → ℕ) → ℕ → ℕ
overwrite at m src x i = if leb at i && ltb i (at + m) then src (i - at) else x i

-- `m` in the loops of readi and writei.
abbrev pub chunk : ℕ → ℕ → ℕ
chunk left off = min left (bsize - off % bsize)

-- The loop of writei, for at most `fuel` rounds: `tot` bytes are written, `off` is the offset of the next.
unfoldable pub write_loop :
    ℕ → Superblock → ℕ → ℕ → ℕ → (ℕ → ℕ) → Inode → Volume → Outcome (ℕ × Inode × Volume)
write_loop zero sb tot n off src ip v = ok (off, ip, v)
write_loop (suc fuel) sb tot n off src ip v =
    if ltb tot n
    then (elim (bmap sb (off / bsize) ip v) [
      | panic s ↦ panic s
      | ok r ↦
          let m = chunk (n - tot) off in
          let x = overwrite (off % bsize) m (λ i. src (tot + i)) (r.2.blocks r.0) in
          write_loop fuel sb (tot + m) n (off + m) src r.1 (log_change r.0 x r.2)
    ])
    else ok (off, ip, v)

unfoldable pub finish_write :
    {S : Type 0} → Superblock → ℕ → ℕ → Inode → Volume → S → Option ℕ × Inode × Volume × S
unfolding iupdate
finish_write sb n off ip v s =
    if ltb 0 n && ltb ip.size off
    then (some n, record ip { size = off }, iupdate sb (record ip { size = off }) v, s)
    else (some n, ip, v, s)

unfoldable pub writei :
    {S : Type 0}
    → (ℕ → Device S)
    → Superblock
    → Inode
    → (ℕ → ℕ)
    → ℕ
    → ℕ
    → Volume
    → S
    → Outcome (Option ℕ × Inode × Volume × S)
unfolding write_loop finish_write
writei devsw sb ip src off n v s =
    if ip.kind == t_dev
    then (if leb ndev ip.major then ok (none, ip, v, s) else (elim (devsw ip.major).write [
      | none ↦ ok (none, ip, v, s)
      | some f ↦ let r = f ip src n s in ok (r.0, ip, v, r.1)
    ]))
    else (if ltb ip.size off || ltb (u32 (off + n)) off
        then ok (none, ip, v, s)
        else (if ltb (maxfile * bsize) (u32 (off + n))
            then ok (none, ip, v, s)
            else (elim (write_loop n sb 0 n off src ip v) [
              | panic e ↦ panic e
              | ok r ↦ ok (finish_write sb n r.0 r.1 r.2 s)
            ])))

unfoldable pub read_loop :
    ℕ → Superblock → ℕ → ℕ → ℕ → (ℕ → ℕ) → Inode → Volume → Outcome ((ℕ → ℕ) × Inode × Volume)
read_loop zero sb tot n off dst ip v = ok (dst, ip, v)
read_loop (suc fuel) sb tot n off dst ip v =
    if ltb tot n
    then (elim (bmap sb (off / bsize) ip v) [
      | panic s ↦ panic s
      | ok r ↦
          let m = chunk (n - tot) off in
          let x = overwrite tot m (λ i. r.2.blocks r.0 (off % bsize + i)) dst in
          read_loop fuel sb (tot + m) n (off + m) x r.1 r.2
    ])
    else ok (dst, ip, v)

-- How many bytes readi reads of the `n` that are wanted.
abbrev pub within_size : ℕ → ℕ → ℕ → ℕ
within_size size off n = if ltb size (u32 (off + n)) then size - off else n

unfoldable pub readi :
    {S : Type 0}
    → (ℕ → Device S)
    → Superblock
    → Inode
    → (ℕ → ℕ)
    → ℕ
    → ℕ
    → Volume
    → S
    → Outcome (Option ℕ × (ℕ → ℕ) × Inode × Volume × S)
unfolding read_loop
readi devsw sb ip dst off n v s =
    if ip.kind == t_dev
    then (if leb ndev ip.major then ok (none, dst, ip, v, s) else (elim (devsw ip.major).read [
      | none ↦ ok (none, dst, ip, v, s)
      | some f ↦ let r = f ip dst n s in ok (r.0, r.1, ip, v, r.2)
    ]))
    else (if ltb ip.size off || ltb (u32 (off + n)) off
        then ok (none, dst, ip, v, s)
        else (let k = within_size ip.size off n in
            elim (read_loop k sb 0 k off dst ip v) [
              | panic e ↦ panic e
              | ok r ↦ ok (some k, r.0, r.1, r.2, s)
            ]))
