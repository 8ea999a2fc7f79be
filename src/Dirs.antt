-- ===== src/Dirs.antt =====
-- fs.c: dirlookup, which reads the entries of a directory with readi. It gives the number of the inode,
-- which iget takes, and the offset of the entry.
pub mod Entry
pub mod Lookup
mod Tests
use sys_prog_assessment.Prelude.{
  ℕ, zero, suc, ◌+◌, ◌-◌, ◌*◌, Bool, true, false, not, ◌&&◌, ◌==◌, ltb, if◌then◌else◌, Outcome, ok,
  panic, Option, none, some,
}
use sys_prog_assessment.Blocks.{Superblock, Volume}
use sys_prog_assessment.Content.{Inode}
use sys_prog_assessment.Strings.{strncmp, Difference, plus, minus}
use sys_prog_assessment.Readwrite.{Device, readi}
pub use sys_prog_assessment.Names.{dirsiz}

abbrev pub t_dir : ℕ
t_dir = 1

-- `sizeof(struct dirent)`: two bytes of the number of an inode, and the name.
abbrev pub dirent_size : ℕ
dirent_size = 16

abbrev pub dirent_inum : (ℕ → ℕ) → ℕ
dirent_inum de = de 0 + 256 * de 1

-- The memory with a directory entry and the name that is looked up after it.
abbrev pub entry_and_name : (ℕ → ℕ) → (ℕ → ℕ) → ℕ → ℕ
entry_and_name de name i = if ltb i dirent_size then de i else name (i - dirent_size)

abbrev pub is_zero : Difference → Bool
is_zero (plus n) = n == 0
is_zero (minus n) = n == 0

-- `namecmp(name, de.name) == 0`
unfoldable pub same_name : (ℕ → ℕ) → (ℕ → ℕ) → Bool
unfolding strncmp
same_name name de = is_zero (strncmp dirent_size 2 dirsiz (entry_and_name de name))

-- The entry is in use, and it has the name.
unfoldable pub is_entry : (ℕ → ℕ) → (ℕ → ℕ) → Bool
unfolding same_name
is_entry name de = if dirent_inum de == 0 then false else same_name name de

-- Whether readi has read a whole entry.
abbrev pub whole : Option ℕ → Bool
whole none = false
whole (some n) = n == dirent_size

-- The loop, for at most `fuel` entries from the offset `off` on.
unfoldable pub dirlookup_loop :
    {S : Type 0}
    → ℕ
    → (ℕ → Device S)
    → Superblock
    → Inode
    → (ℕ → ℕ)
    → (ℕ → ℕ)
    → ℕ
    → Volume
    → S
    → Outcome (Option (ℕ × ℕ) × Inode × Volume × S)
unfolding is_entry
dirlookup_loop zero devsw sb dp name de off v s = ok (none, dp, v, s)
dirlookup_loop (suc fuel) devsw sb dp name de off v s = elim (ltb off dp.size) [
  | false ↦ ok (none, dp, v, s)
  | true ↦ elim (readi devsw sb dp de off dirent_size v s) [
    | panic e ↦ panic e
    | ok r ↦ elim (whole r.0) [
      | false ↦ panic "dirlookup read"
      | true ↦ elim (is_entry name r.1) [
        | true ↦ ok (some (dirent_inum r.1, off), r.2, r.3, r.4)
        | false ↦ dirlookup_loop fuel devsw sb r.2 name r.1 (off + dirent_size) r.3 r.4
      ]
    ]
  ]
]

unfoldable pub dirlookup :
    {S : Type 0}
    → (ℕ → Device S)
    → Superblock
    → Inode
    → (ℕ → ℕ)
    → (ℕ → ℕ)
    → Volume
    → S
    → Outcome (Option (ℕ × ℕ) × Inode × Volume × S)
unfolding dirlookup_loop
dirlookup devsw sb dp name de v s =
    if dp.kind == t_dir
    then dirlookup_loop (dp.size + 1) devsw sb dp name de 0 v s
    else panic "dirlookup not DIR"
