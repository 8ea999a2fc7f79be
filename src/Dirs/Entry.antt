-- ===== src/Dirs/Entry.antt =====
-- fs.c: the test of one entry of a directory.
use sys_prog_assessment.Prelude.{
  ℕ, ◌<◌, ◌≡◌, ap, fun_ext, arith, true, false, ◌==◌, ltb, if◌then◌else◌, dec_lt,
}
use sys_prog_assessment.Strings.{strncmp}
use sys_prog_assessment.Dirs.{
  dirent_size, dirent_inum, dirsiz, entry_and_name, is_zero, same_name, is_entry,
}

-- Only the bytes of the entry matter.
entry_and_name-eq :
    (name de de' : ℕ → ℕ)
    → ((i : ℕ) → i < dirent_size → de i ≡ de' i)
    → entry_and_name de name ≡ entry_and_name de' name
entry_and_name-eq name de de' h = fun_ext (λ i. elim (dec_lt i dirent_size) [
  | yes l ↦ let t : ltb i dirent_size ≡ true = ground arith in rw t (h i l)
  | no l ↦ let t : ltb i dirent_size ≡ false = ground arith in rw t
])

pub dirent_inum-eq :
    (de de' : ℕ → ℕ) → ((i : ℕ) → i < dirent_size → de i ≡ de' i) → dirent_inum de ≡ dirent_inum de'
dirent_inum-eq de de' h = rw (h 0 (omega arith), h 1 (omega arith))

pub is_entry-eq :
    (name de de' : ℕ → ℕ)
    → ((i : ℕ) → i < dirent_size → de i ≡ de' i)
    → is_entry name de ≡ is_entry name de'
unfolding is_entry same_name
is_entry-eq name de de' h = rw (dirent_inum-eq de de' h) (
    ap
      (λ (m : ℕ → ℕ).
        if dirent_inum de' == 0 then false else is_zero (strncmp dirent_size 2 dirsiz m))
      (entry_and_name-eq name de de' h))
