-- ===== src/Blocks/Data.antt =====
-- fs.c: what balloc does to the blocks that hold data.
use sys_prog_assessment.Prelude.{
  ℕ, ◌%◌, ◌<◌, ◌≡◌, ◌≢◌, arith, true, update, update_ne, ◌∙◌, sym, ok,
}
use sys_prog_assessment.Blocks.{
  Superblock, Volume, bblock, bpb, set_bit, zero_block, bzero, in_use, take_block, balloc,
  log_change,
}
use sys_prog_assessment.Blocks.Find.{find_free-Found}
use sys_prog_assessment.Blocks.Alloc.{
  IsVolume, bitmap-ne, balloc-eq-ok, balloc_lem, AreBytes-update,
}

-- A block that holds data: it is in use, and no block of the bitmap.
pub record IsData (sb : Superblock) (v : Volume) (a : ℕ) : Type 0 where
  pub within : a < sb.size
  pub used : in_use sb v a ≡ true
  pub apart : (c : ℕ) → c < sb.size → a ≢ bblock c sb

-- balloc leaves the data blocks as they are.
pub balloc-keeps :
    (sb : Superblock) (v v' : Volume) (b a : ℕ)
    → IsVolume sb v
    → balloc sb v ≡ ok (b, v')
    → IsData sb v a
    → (v'.blocks a ≡ v.blocks a) × IsData sb v' a
unfolding take_block bzero
balloc-keeps sb v v' b a i h d =
    let (f, same) = balloc-eq-ok sb v v' b h in
    let (x, y, free) = find_free-Found sb.size 0 sb v f in
    let other : b ≢ a = λ p. cc in
    let (_, _, mark, _, _, _) = balloc_lem sb v v' b a i h d.within in
    let bitmap : bblock b sb ≢ a = λ p. d.apart b (omega arith) (sym p) in
    (
      rw (same, take_block, bzero)
          (rw (
            update_ne (update v.blocks (bblock b sb) (set_bit (b % bpb) (v.blocks (bblock b sb)))) b
                zero_block a other,
            update_ne v.blocks (bblock b sb) (set_bit (b % bpb) (v.blocks (bblock b sb))) a bitmap,
          )),
      record { within = d.within; used = mark ∙ rw d.used (ground arith); apart = d.apart },
    )

pub balloc-IsData :
    (sb : Superblock) (v v' : Volume) (b : ℕ)
    → IsVolume sb v
    → balloc sb v ≡ ok (b, v')
    → IsData sb v' b × (b ≢ 0) × IsVolume sb v'
balloc-IsData sb v v' b i h =
    let (f, same) = balloc-eq-ok sb v v' b h in
    let (x, y, free) = find_free-Found sb.size 0 sb v f in
    let (l, _, mark, _, _, i') = balloc_lem sb v v' b b i h (omega arith) in
    (
      record { within = l; used = mark ∙ ground arith; apart = λ c k. bitmap-ne sb v b c i free k },
      λ p. cc (i.boot_marked),
      i',
    )

-- A change of a data block touches no mark.
pub in_use-change :
    (sb : Superblock) (v : Volume) (a c : ℕ) (x : ℕ → ℕ)
    → IsData sb v a
    → c < sb.size
    → in_use sb (log_change a x v) c ≡ in_use sb v c
in_use-change sb v a c x d h = rw (update_ne v.blocks a x (bblock c sb) (d.apart c h))

pub log_change-IsData :
    (sb : Superblock) (v : Volume) (a c : ℕ) (x : ℕ → ℕ)
    → IsData sb v a
    → IsData sb v c
    → IsData sb (log_change a x v) c
log_change-IsData sb v a c x d e = record {
  within = e.within;
  used = in_use-change sb v a c x d e.within ∙ e.used;
  apart = e.apart;
}

pub log_change-IsVolume :
    (sb : Superblock) (v : Volume) (a : ℕ) (x : ℕ → ℕ)
    → IsVolume sb v
    → IsData sb v a
    → ((j : ℕ) → x j < 256)
    → IsVolume sb (log_change a x v)
log_change-IsVolume sb v a x i d h = record {
  size_word = i.size_word;
  boot_inside = i.boot_inside;
  boot_marked = in_use-change sb v a 0 x d i.boot_inside ∙ i.boot_marked;
  bytes = AreBytes-update v.blocks a x i.bytes h;
  inside = i.inside;
  marked = λ c k. in_use-change sb v a (bblock c sb) x d (i.inside c k) ∙ i.marked c k;
}

-- The new block is none of the data blocks, and it is filled with zeroes.
pub balloc-fresh :
    (sb : Superblock) (v v' : Volume) (b c : ℕ) → balloc sb v ≡ ok (b, v') → IsData sb v c → c ≢ b
balloc-fresh sb v v' b c h d p =
    let (x, y, free) = find_free-Found sb.size 0 sb v (balloc-eq-ok sb v v' b h).0 in cc (d.used)

pub balloc-zeroes :
    (sb : Superblock) (v v' : Volume) (b : ℕ)
    → IsVolume sb v
    → balloc sb v ≡ ok (b, v')
    → v'.blocks b ≡ zero_block
balloc-zeroes sb v v' b i h = (balloc_lem sb v v' b 0 i h i.boot_inside).4
