-- ===== src/Content/Sample.antt =====
-- fs.c: an empty file on the small disk, for tests.
use sys_prog_assessment.Prelude.{ℕ, ◌≡◌, refl, arith, true, dec_lt}
use sys_prog_assessment.Blocks.{in_use, test_bit}
use sys_prog_assessment.Blocks.Sample.{small, disk, disk-IsVolume, zeroes}
use sys_prog_assessment.Content.{Inode, ndirect}
use sys_prog_assessment.Content.Mapped.{mapped, IsInode}
use sys_prog_assessment.Content.Bmap.{mapped-direct, mapped-none}
use sys_prog_assessment.Content.File.{IsFile}

abbrev pub empty_file : Inode
empty_file = record {
  inum = 1;
  kind = 2;
  major = 0;
  minor = 0;
  nlink = 1;
  size = 0;
  addrs = zeroes;
}

nothing_mapped : (k : ℕ) → mapped disk empty_file k ≡ 0
nothing_mapped k = elim (dec_lt k ndirect) [
  | yes l ↦ mapped-direct disk empty_file k l
  | no l ↦ mapped-none disk empty_file k (omega arith) refl
]

inodes_in_use : in_use small disk 4 ≡ true
unfolding test_bit
inodes_in_use = refl

pub empty_file-IsInode : IsInode small disk empty_file
empty_file-IsInode k l n = absurd (n refl)

pub empty_file-IsFile : IsFile small disk empty_file
empty_file-IsFile = record {
  volume = disk-IsVolume;
  inode = empty_file-IsInode;
  blocks = λ k l n. absurd (n (nothing_mapped k));
  distinct = λ j k lj lk n e. absurd (n (nothing_mapped j));
  apart = λ k l n. absurd (n refl);
  home = record { within = omega arith; used = inodes_in_use; apart = λ c h e. omega arith };
  home_nonzero = λ e. omega arith;
  home_apart = λ k l e. let z = nothing_mapped k in omega (arith, z, e);
  home_indirect = λ e. omega arith;
}
