-- ===== src/Strings/Tests.antt =====
-- string.c: concrete runs on a memory that holds the bytes 1, 2, 3, ... and a string.
use sys_prog_assessment.Prelude.{update, ◌+◌, [], ◌∷◌, ◌≡◌, refl}
use sys_prog_assessment.Strings.{
  Memory, copy_up, copy_down, memmove, minus, strncmp, copy_str, safestrcpy,
}
use sys_prog_assessment.Strings.Move.{memmove_lem}
use sys_prog_assessment.Strings.Copy.{string_at}
use sys_prog_assessment.Strings.Compare.{bytes_at}

abbrev counting : Memory
counting a = a + 1

-- The string "hi" at 100.
abbrev greeting : Memory
greeting = update (update (update counting 100 104) 101 105) 102 0

memmove_overlap : bytes_at 0 5 (memmove 1 0 4 counting) ≡ 1 ∷ 1 ∷ 2 ∷ 3 ∷ 4 ∷ []
unfolding bytes_at memmove copy_up copy_down
memmove_overlap = refl

memmove_overlap_down : bytes_at 0 5 (memmove 0 1 4 counting) ≡ 2 ∷ 3 ∷ 4 ∷ 5 ∷ 5 ∷ []
unfolding bytes_at memmove copy_up copy_down
memmove_overlap_down = refl

strncmp_less : strncmp 100 101 3 greeting ≡ minus 1
unfolding strncmp
strncmp_less = refl

safestrcpy_cut : string_at 0 9 (safestrcpy 0 100 2 greeting) ≡ 104 ∷ []
unfolding string_at safestrcpy copy_str
safestrcpy_cut = refl

memmove_lem_example : memmove 1 0 4 counting 3 ≡ 3
memmove_lem_example = memmove_lem 1 0 4 counting 3
