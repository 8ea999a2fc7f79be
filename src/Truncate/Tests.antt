-- ===== src/Truncate/Tests.antt =====
-- fs.c: itrunc of a file with one block on the small disk.
use sys_prog_assessment.Prelude.{
  ℕ, ◌<◌, ◌≡◌, ◌≢◌, refl, sym, ap, ◌∙◌, arith, ◌⊎◌, true, false, update, update_ne, ℕ_discrete,
  dec_lt, ok,
}
use sys_prog_assessment.Blocks.{Volume, in_use, test_bit}
use sys_prog_assessment.Blocks.Data.{IsData}
use sys_prog_assessment.Blocks.Sample.{small, disk, disk-IsVolume, zeroes}
use sys_prog_assessment.Content.{Inode, ndirect, maxfile}
use sys_prog_assessment.Content.Mapped.{mapped}
use sys_prog_assessment.Content.Bmap.{mapped-direct, mapped-none}
use sys_prog_assessment.Content.File.{IsFile}
use sys_prog_assessment.Truncate.{itrunc}
use sys_prog_assessment.Truncate.Whole.{owned, owned-mapped, owned-indirect}
use sys_prog_assessment.Truncate.File.{emptied, itrunc_lem}
use sys_prog_assessment.Readwrite.{ilock_load}
use sys_prog_assessment.Readwrite.Dinode.{Fits}

-- The first block of the file is the block 6 of the disk.
abbrev one_block : Inode
one_block = record {
  inum = 1;
  kind = 2;
  major = 0;
  minor = 0;
  nlink = 1;
  size = 9;
  addrs = update zeroes 0 6;
}

mapped_first : mapped disk one_block 0 ≡ 6
mapped_first = mapped-direct disk one_block 0 (omega arith)

mapped_later : (k : ℕ) → 0 < k → mapped disk one_block k ≡ 0
mapped_later k h = elim (dec_lt k ndirect) [
  | yes l ↦ mapped-direct disk one_block k l ∙ update_ne zeroes 0 6 k (omega arith)
  | no l ↦ mapped-none disk one_block k (omega arith) refl
]

only_first : (k : ℕ) → mapped disk one_block k ≢ 0 → 0 ≡ k
only_first k n = elim (ℕ_discrete 0 k) [
  | yes p ↦ p
  | no p ↦ absurd (n (mapped_later k (omega arith)))
]

in_use_4 : in_use small disk 4 ≡ true
unfolding test_bit
in_use_4 = refl

in_use_6 : in_use small disk 6 ≡ true
unfolding test_bit
in_use_6 = refl

abbrev Used : ℕ → Type 0
Used a = IsData small disk a

six : Used 6
six = record { within = omega arith; used = in_use_6; apart = λ c h e. omega arith }

mapped-ne : (k a : ℕ) → a ≢ 0 → a ≢ 6 → mapped disk one_block k ≢ a
mapped-ne k a z n e = elim (ℕ_discrete 0 k) [
  | yes p ↦ n (sym e ∙ ap (mapped disk one_block) (sym p) ∙ mapped_first)
  | no p ↦ z (sym e ∙ mapped_later k (omega arith))
]

one_block-IsFile : IsFile small disk one_block
one_block-IsFile = record {
  volume = disk-IsVolume;
  inode = λ k l n. elim (ℕ_discrete 0 k) [
    | yes p ↦ rw (← p) six
    | no p ↦ absurd (n (update_ne zeroes 0 6 k p))
  ];
  blocks = λ k l n. rw (← only_first k n, mapped_first) six;
  distinct = λ j k lj lk n e. sym (only_first j n) ∙ only_first k (λ z. n (e ∙ z));
  apart = λ k l n. absurd (n refl);
  home = record { within = omega arith; used = in_use_4; apart = λ c h e. omega arith };
  home_nonzero = λ e. omega arith;
  home_apart = λ k l. mapped-ne k 4 (λ e. omega arith) (λ e. omega arith);
  home_indirect = λ e. omega arith;
}

owned-ne : (k : ℕ) → owned disk one_block k ≢ 5
owned-ne k e = elim (dec_lt k maxfile) [
  | yes l ↦
      mapped-ne k 5 (λ p. omega arith) (λ p. omega arith)
        (sym (owned-mapped disk one_block k l) ∙ e)
  | no l ↦ let z = owned-indirect disk one_block k (omega arith) in omega (arith, z, e)
]

one_block-Fits : Fits one_block
one_block-Fits = record {
  kind = omega arith;
  major = omega arith;
  minor = omega arith;
  nlink = omega arith;
  size = omega arith;
  addrs = λ i. ground arith;
  no_more = λ i h. ground arith;
}

itrunc_lem_example :
    (v : Volume) × (itrunc small one_block disk ≡ ok (emptied one_block, v))
    × (mapped v (emptied one_block) 0 ≡ 0)
    × (ilock_load small 1 v ≡ ok (emptied one_block))
    × ((owned disk one_block 0 ≡ 0) ⊎ (in_use small v (owned disk one_block 0) ≡ false))
    × (in_use small v 5 ≡ in_use small disk 5)
itrunc_lem_example =
    itrunc_lem small one_block disk 0 0 5 one_block-IsFile one_block-Fits (λ e. omega arith)
      (omega arith) (omega arith) (λ i z. owned-ne i)
