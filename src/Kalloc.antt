-- ===== src/Kalloc.antt =====
-- kalloc.c: the free list of pages, which runs through the first words of the free pages. The
-- address `end` behind the kernel comes from the linker and is an argument.
pub mod Pages
pub mod Steps
pub mod Range
mod Tests
use sys_prog_assessment.Prelude.{
  ℕ, zero, suc, ◌+◌, ◌-◌, ◌*◌, ◌/◌, ◌%◌, ◌^◌, Bool, true, false, not, ◌&&◌, ◌||◌, update, u32,
  sub_u32, ◌==◌, ltb, leb, if◌then◌else◌, Outcome, ok, panic,
}

abbrev pub pgsize : ℕ
pgsize = 4096

abbrev pub kernbase : ℕ
kernbase = 2147483648

abbrev pub phystop : ℕ
phystop = 234881024

abbrev pub v2p : ℕ → ℕ
v2p a = sub_u32 a kernbase

abbrev pub pgroundup : ℕ → ℕ
pgroundup sz = u32 (sz + (pgsize - 1)) / pgsize * pgsize

-- `kmem` and the words of the memory, by their addresses; 0 is the null pointer.
pub record Kmem : Type 0 where
  pub freelist : ℕ
  pub memory : ℕ → ℕ

-- A page of junk: each byte is 1.
unfoldable pub junk : ℕ → (ℕ → ℕ) → ℕ → ℕ
junk v m a = if leb v a && ltb a (v + pgsize) then 16843009 else m a

abbrev pub refused : ℕ → ℕ → Bool
refused end_kernel v = not (v % pgsize == 0) || ltb v end_kernel || leb phystop (v2p v)

unfoldable pub kfree : ℕ → ℕ → Kmem → Outcome Kmem
unfolding junk
kfree end_kernel v k =
    if refused end_kernel v
    then panic "kfree"
    else ok (record { freelist = v; memory = update (junk v k.memory) v k.freelist })

unfoldable pub kalloc : Kmem → ℕ × Kmem
kalloc k = (k.freelist, if k.freelist == 0 then k else record k { freelist = k.memory k.freelist })

-- The loop of `freerange` at `p`, for at most `n` rounds.
unfoldable pub free_pages : ℕ → ℕ → ℕ → ℕ → Kmem → Outcome Kmem
free_pages end_kernel vend zero p k = ok k
free_pages end_kernel vend (suc n) p k =
    if leb (p + pgsize) vend
    then (elim (kfree end_kernel p k) [
      | panic s ↦ panic s
      | ok k' ↦ free_pages end_kernel vend n (p + pgsize) k'
    ])
    else ok k

-- `vend / pgsize` rounds reach the end: each one goes a page on.
unfoldable pub freerange : ℕ → ℕ → ℕ → Kmem → Outcome Kmem
unfolding free_pages
freerange end_kernel vstart vend k = free_pages end_kernel vend (vend / pgsize) (pgroundup vstart) k
