-- ===== src/Dirs/Tests.antt =====
-- fs.c: dirlookup in a directory with two entries on the small disk.
use sys_prog_assessment.Prelude.{
  ℕ, ◌+◌, ◌/◌, ◌<◌, ◌≡◌, ◌≢◌, refl, sym, ap, ◌∙◌, arith, update, true, false, ok, panic, Option,
  none,
}
use sys_prog_assessment.Blocks.{bsize, Volume}
use sys_prog_assessment.Blocks.Sample.{small, disk, zeroes}
use sys_prog_assessment.Content.{Inode}
use sys_prog_assessment.Content.Mapped.{mapped}
use sys_prog_assessment.Content.Bmap.{mapped-direct}
use sys_prog_assessment.Readwrite.{Device}
use sys_prog_assessment.Strings.{strncmp}
use sys_prog_assessment.Dirs.{dirlookup, is_entry, same_name}
use sys_prog_assessment.Dirs.Lookup.{Verdict, dirlookup_lem}

abbrev devices : ℕ → Device Unit
devices major = record { read = none; write = none }

abbrev directory : Inode
directory = record {
  inum = 1;
  kind = 1;
  major = 0;
  minor = 0;
  nlink = 1;
  size = 32;
  addrs = update zeroes 0 6;
}

-- The entries `.` for the inode 1 and `a` for the inode 5.
abbrev two_entries : ℕ → ℕ
two_entries = update (update (update (update zeroes 0 1) 2 46) 16 5) 18 97

abbrev dir_disk : Volume
dir_disk = record disk { blocks = update disk.blocks 6 two_entries }

abbrev name_a : ℕ → ℕ
name_a = update zeroes 0 97

dir_mapped : (o : ℕ) → o < 32 → mapped dir_disk directory (o / bsize) ≢ 0
dir_mapped o h z =
    let first : o / bsize ≡ 0 = omega arith in
    let e = mapped-direct dir_disk directory 0 (omega arith) in
    let w : 0 ≡ 6 = sym (ap (mapped dir_disk directory) (sym first) ∙ z) ∙ e in omega (arith, w)

used_name : same_name name_a (λ i. two_entries (16 + i)) ≡ true
unfolding same_name strncmp
used_name = refl

other_name : is_entry name_a two_entries ≡ false
unfolding is_entry same_name strncmp
other_name = refl

no_directory :
    dirlookup devices small (record directory { kind = 2 }) name_a zeroes dir_disk tt
    ≡ panic "dirlookup not DIR"
unfolding dirlookup
no_directory = refl

dirlookup_lem_example :
    (r : Option (ℕ × ℕ)) × (dirlookup devices small directory name_a zeroes dir_disk tt
      ≡ ok (r, directory, dir_disk, tt))
    × Verdict dir_disk directory name_a r 16
dirlookup_lem_example =
    dirlookup_lem devices small directory name_a zeroes dir_disk tt 16 refl (omega arith) refl
      dir_mapped refl
