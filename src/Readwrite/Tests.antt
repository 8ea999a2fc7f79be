-- ===== src/Readwrite/Tests.antt =====
-- fs.c: readi and writei of an empty file on the small disk.
use sys_prog_assessment.Prelude.{
  ℕ, sym, ap, ◌∙◌, ◌/◌, update, ◌+◌, ◌%◌, ◌<◌, ◌≡◌, ◌≢◌, refl, arith, ◌⊎◌, inr, ok, panic, some,
  none,
}
use sys_prog_assessment.Blocks.{bsize, Volume}
use sys_prog_assessment.Blocks.Sample.{small, disk, zeroes}
use sys_prog_assessment.Content.{Inode}
use sys_prog_assessment.Content.Mapped.{mapped}
use sys_prog_assessment.Content.Bmap.{mapped-direct}
use sys_prog_assessment.Content.Run.{full_disk}
use sys_prog_assessment.Content.Sample.{empty_file, empty_file-IsFile}
use sys_prog_assessment.Readwrite.{Device, overwrite, iupdate, ilock_load, writei, readi}
use sys_prog_assessment.Readwrite.Dinode.{Fits, ilock_load-iupdate}
use sys_prog_assessment.Readwrite.Write.{byte}
use sys_prog_assessment.Readwrite.Writei.{Written}
use sys_prog_assessment.Readwrite.Writes.{Missing, writei_lem, writei_rejects}
use sys_prog_assessment.Readwrite.Read.{readi_lem, readi-writei}

abbrev devices : ℕ → Device Unit
devices major = record { read = none; write = none }

abbrev text : ℕ → ℕ
text i = (65 + i) % 256

empty_file-Fits : Fits empty_file
empty_file-Fits = record {
  kind = omega arith;
  major = omega arith;
  minor = omega arith;
  nlink = omega arith;
  size = omega arith;
  addrs = λ i. omega arith;
  no_more = λ i h. refl;
}

ilock_load-iupdate_example :
    (ilock_load small 1 (iupdate small empty_file disk) ≡ ok empty_file)
    × (ilock_load small 2 (iupdate small empty_file disk) ≡ ilock_load small 2 disk)
ilock_load-iupdate_example =
    ilock_load-iupdate small empty_file disk 2 empty_file-Fits (λ e. omega arith) (λ e. omega arith)

writei_lem_example :
    ((writei devices small empty_file text 0 600 disk tt ≡ panic full_disk)
      × Missing 0 600 empty_file disk)
    ⊎ ((ip : Inode) × (v : Volume) × (writei devices small empty_file text 0 600 disk tt
          ≡ ok (some 600, ip, v, tt))
        × Written small text 0 600 empty_file disk ip v)
writei_lem_example =
    writei_lem devices small empty_file text 0 600 disk tt empty_file-IsFile (λ e. omega arith)
      (omega arith) (omega arith) (λ j. omega arith)

writei_rejects_example :
    writei devices small empty_file text 0 4294967295 disk tt ≡ ok (none, empty_file, disk, tt)
writei_rejects_example =
    writei_rejects devices small empty_file text 0 4294967295 disk tt (λ e. omega arith)
      (omega arith) (omega arith) (inr (omega arith))

abbrev short_file : Inode
short_file = record empty_file { size = 9; addrs = update zeroes 0 6 }

abbrev text_disk : Volume
text_disk = record disk { blocks = update disk.blocks 6 text }

text_mapped : (o : ℕ) → o < 9 → mapped text_disk short_file (o / bsize) ≢ 0
text_mapped o h z =
    let first : o / bsize ≡ 0 = omega arith in
    let e = mapped-direct text_disk short_file 0 (omega arith) in
    let w : 0 ≡ 6 = sym (ap (mapped text_disk short_file) (sym first) ∙ z) ∙ e in omega (arith, w)

readi_lem_example :
    (dst : ℕ → ℕ) × (readi devices small short_file zeroes 2 100 text_disk tt
      ≡ ok (some 7, dst, short_file, text_disk, tt))
    × ((i : ℕ) → dst i ≡ overwrite 0 7 (λ j. byte text_disk short_file (2 + j)) zeroes i)
readi_lem_example =
    readi_lem devices small short_file zeroes 2 100 text_disk tt (λ e. omega arith) (omega arith)
      (omega arith) (omega arith) (λ o x y. text_mapped o (omega arith))

readi-writei_example :
    ((writei devices small empty_file text 0 3 disk tt ≡ panic full_disk)
      × Missing 0 3 empty_file disk)
    ⊎ ((ip : Inode) × (v : Volume) × (dst : ℕ → ℕ) × (writei devices small empty_file text 0 3 disk
            tt
          ≡ ok (some 3, ip, v, tt))
        × (readi devices small ip zeroes 0 3 v tt ≡ ok (some 3, dst, ip, v, tt))
        × ((i : ℕ) → dst i ≡ overwrite 0 3 text zeroes i))
readi-writei_example =
    readi-writei devices small empty_file text zeroes 0 3 disk tt empty_file-IsFile
      (λ e. omega arith) (omega arith) (omega arith) (omega arith) (λ j. omega arith)
