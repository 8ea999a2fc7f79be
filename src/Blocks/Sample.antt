-- ===== src/Blocks/Sample.antt =====
-- fs.c: a small disk for tests: 64 blocks with the inodes in block 4 and the bitmap in block 5, of which
-- the first seven are in use.
use sys_prog_assessment.Prelude.{ℕ, ◌+◌, ◌/◌, ◌<◌, ◌≡◌, refl, arith, update, [], true}
use sys_prog_assessment.Blocks.{Superblock, Volume, in_use, test_bit}
use sys_prog_assessment.Blocks.Alloc.{IsVolume, AreBytes-update}

abbrev pub small : Superblock
small = record {
  size = 64;
  nblocks = 57;
  ninodes = 8;
  nlog = 2;
  logstart = 2;
  inodestart = 4;
  bmapstart = 5;
}

abbrev pub zeroes : ℕ → ℕ
zeroes i = 0

abbrev pub bitmap : ℕ → ℕ
bitmap = update zeroes 0 127

abbrev pub disk : Volume
disk = record { blocks = update (λ b. zeroes) 5 bitmap; logged = [] }

bitmap_small : (j : ℕ) → bitmap j < 256
bitmap_small j = ground arith

one_bitmap : (c : ℕ) → c < 64 → c / 4096 + 5 ≡ 5
one_bitmap c h = omega arith

bitmap_marked : in_use small disk 5 ≡ true
unfolding test_bit
bitmap_marked = refl

boot_in_use : in_use small disk 0 ≡ true
unfolding test_bit
boot_in_use = refl

pub disk-IsVolume : IsVolume small disk
disk-IsVolume = record {
  size_word = omega arith;
  boot_inside = omega arith;
  boot_marked = boot_in_use;
  bytes = AreBytes-update (λ b. zeroes) 5 bitmap (λ c j. omega arith) bitmap_small;
  inside = λ c h. omega arith;
  marked = λ c h. rw (one_bitmap c h) bitmap_marked;
}
