-- ===== src/Kalloc/Range.antt =====
-- kalloc.c: freerange gives every whole page of a range to the allocator.
use sys_prog_assessment.Prelude.{
  ℕ, ◌+◌, ◌%◌, ◌≤◌, ◌<◌, ◌≡◌, ◌==◌, ◌&&◌, Bool, false, leb, List, contains,
}
use sys_prog_assessment.Kalloc.{pgsize}

-- A page border with its whole page between `p` and `vend`.
abbrev pub is_whole_page : ℕ → ℕ → ℕ → Bool
is_whole_page p vend b = b % pgsize == 0 && (leb p b && leb (b + pgsize) vend)

-- The allocator has none of the addresses from `p` up to `vend`.
abbrev pub IsNew : ℕ → ℕ → List ℕ → List ℕ → Type 0
IsNew p vend free used =
    (a : ℕ) → p ≤ a → a < vend → (contains a free ≡ false) × (contains a used ≡ false)
