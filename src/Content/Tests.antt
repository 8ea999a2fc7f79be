-- ===== src/Content/Tests.antt =====
-- fs.c: bmap of an empty file on the small disk.
use sys_prog_assessment.Prelude.{ℕ, false, ◌≡◌, ◌≢◌, refl, arith, ◌⊎◌, ok, panic}
use sys_prog_assessment.Blocks.{Volume, zero_block, in_use, balloc, find_free, take_block, test_bit}
use sys_prog_assessment.Blocks.Alloc.{IsVolume}
use sys_prog_assessment.Blocks.Data.{IsData}
use sys_prog_assessment.Blocks.Sample.{small, disk, disk-IsVolume}
use sys_prog_assessment.Content.{Inode, ndirect, set_addr, ensure, bmap}
use sys_prog_assessment.Content.Mapped.{mapped, IsInode}
use sys_prog_assessment.Content.Extends.{bmap_lem}
use sys_prog_assessment.Content.Sample.{empty_file, empty_file-IsInode, empty_file-IsFile}

abbrev taken : Volume
taken = take_block 7 small disk

abbrev one_block : Inode
one_block = set_addr 2 7 empty_file

allocates : bmap small 2 empty_file disk ≡ ok (7, one_block, taken)
unfolding bmap ensure balloc find_free test_bit
allocates = refl

too_large : bmap small 140 empty_file disk ≡ panic "bmap: out of range"
unfolding bmap
too_large = refl

abbrev seven : ℕ
seven = 7

inodes_block : IsData small disk 4
inodes_block = empty_file-IsFile.home

bmap_lem_example :
    ((mapped disk empty_file 2 ≡ 7)
      ⊎ (mapped disk empty_file 2 ≡ 0)
        × (in_use small disk 7 ≡ false)
        × (seven ≢ one_block.addrs ndirect)
        × (taken.blocks 7 ≡ zero_block)
        × IsData small taken 7)
    × (seven ≢ 0)
    × (mapped taken one_block 2 ≡ 7)
    × (mapped taken one_block 13 ≡ mapped disk empty_file 13)
    × (taken.blocks 4 ≡ disk.blocks 4)
    × IsVolume small taken
    × IsInode small taken one_block
bmap_lem_example =
    bmap_lem small 2 13 4 7 empty_file one_block disk taken disk-IsVolume empty_file-IsInode
      allocates (λ e. omega arith) inodes_block (λ e. omega arith)
