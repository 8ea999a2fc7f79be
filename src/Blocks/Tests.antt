-- ===== src/Blocks/Tests.antt =====
-- fs.c: balloc and bfree on a small disk.
use sys_prog_assessment.Prelude.{
  ◌<◌, ◌≤◌, ◌≡◌, refl, arith, true, false, ◌||◌, ◌==◌, ◌⊎◌, ok, panic, [], ◌∷◌,
}
use sys_prog_assessment.Blocks.{
  Volume, balloc, bfree, find_free, take_block, test_bit, bzero, in_use, zero_block,
}
use sys_prog_assessment.Blocks.Sample.{small, disk, disk-IsVolume}
use sys_prog_assessment.Blocks.Alloc.{IsVolume, balloc_lem, bfree-balloc}

abbrev taken : Volume
taken = take_block 7 small disk

first_free : find_free 64 0 small disk ≡ ok 7
unfolding find_free test_bit
first_free = refl

two_logged : taken.logged ≡ 7 ∷ 5 ∷ []
unfolding take_block bzero
two_logged = refl

free_twice : bfree 9 small disk ≡ panic "freeing free block"
unfolding bfree test_bit
free_twice = refl

seventh : balloc small disk ≡ ok (7, taken)
unfolding balloc find_free test_bit
seventh = refl

balloc_lem_example :
    (7 < small.size)
    × (in_use small disk 7 ≡ false)
    × (in_use small taken 8 ≡ (7 == 8 || in_use small disk 8))
    × ((7 ≤ 8) ⊎ (in_use small disk 8 ≡ true))
    × (taken.blocks 7 ≡ zero_block)
    × IsVolume small taken
balloc_lem_example = balloc_lem small disk taken 7 8 disk-IsVolume seventh (omega arith)

bfree-balloc_example :
    (v : Volume) × (bfree 7 small taken ≡ ok v) × (in_use small v 3 ≡ in_use small disk 3)
bfree-balloc_example = bfree-balloc small disk taken 7 3 disk-IsVolume seventh (omega arith)
