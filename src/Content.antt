-- ===== src/Content.antt =====
-- fs.c: the contents of an inode, from its block map to readi and writei.
pub mod Mapped
pub mod Run
pub mod Bmap
pub mod Extends
pub mod File
pub mod Sample
mod Tests
use sys_prog_assessment.Prelude.{
  ℕ, zero, suc, ◌+◌, ◌-◌, ◌*◌, ◌/◌, ◌%◌, ◌^◌, min, Bool, true, false, ◌&&◌, ◌||◌, update, u32, ◌==◌,
  ltb, leb, if◌then◌else◌, Outcome, ok, panic, List, [], ◌∷◌, ◌++◌, length, take, drop,
}
pub use sys_prog_assessment.Blocks.{bsize}
use sys_prog_assessment.Blocks.{Superblock, Volume, balloc, bfree, log_change}
use sys_prog_assessment.Blocks.Words.{word_at, put_word}

abbrev pub ndirect : ℕ
ndirect = 12

abbrev pub nindirect : ℕ
nindirect = 128

abbrev pub maxfile : ℕ
maxfile = ndirect + nindirect

abbrev pub ipb : ℕ
ipb = 8

abbrev pub iblock : ℕ → Superblock → ℕ
iblock inum sb = inum / ipb + sb.inodestart

-- `struct inode`: what a locked inode holds. `dev` is the one device that there is.
pub record Inode : Type 0 where
  pub inum : ℕ
  pub kind : ℕ
  pub major : ℕ
  pub minor : ℕ
  pub nlink : ℕ
  pub size : ℕ
  pub addrs : ℕ → ℕ

abbrev pub set_addr : ℕ → ℕ → Inode → Inode
set_addr i a ip = record ip { addrs = update ip.addrs i a }

-- `if ((addr = x) == 0) x = addr = balloc(dev)`
unfoldable pub ensure : Superblock → ℕ → Volume → Outcome (ℕ × Volume)
ensure sb a v = if a == 0 then balloc sb v else ok (a, v)

-- The part of `bmap` for a block number that is listed in the indirect block `at`.
unfoldable pub bmap_word : Superblock → ℕ → ℕ → Volume → Outcome (ℕ × Volume)
unfolding word_at put_word
bmap_word sb at i v =
    if word_at (v.blocks at) i == 0
    then (elim (balloc sb v) [
      | panic s ↦ panic s
      | ok r ↦ ok (r.0, log_change at (put_word i r.0 (r.1.blocks at)) r.1)
    ])
    else ok (word_at (v.blocks at) i, v)

unfoldable pub bmap : Superblock → ℕ → Inode → Volume → Outcome (ℕ × Inode × Volume)
unfolding ensure bmap_word
bmap sb bn ip v =
    if ltb bn ndirect
    then (elim (ensure sb (ip.addrs bn) v) [
      | panic s ↦ panic s
      | ok r ↦ ok (r.0, set_addr bn r.0 ip, r.1)
    ])
    else (if ltb (bn - ndirect) nindirect
        then (elim (ensure sb (ip.addrs ndirect) v) [
          | panic s ↦ panic s
          | ok r ↦ elim (bmap_word sb r.0 (bn - ndirect) r.1) [
            | panic s ↦ panic s
            | ok t ↦ ok (t.0, set_addr ndirect r.0 ip, t.1)
          ]
        ])
        else panic "bmap: out of range")
