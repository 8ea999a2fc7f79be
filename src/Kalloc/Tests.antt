-- ===== src/Kalloc/Tests.antt =====
-- kalloc.c: concrete runs with a kernel that ends at 1 MB above KERNBASE.
use sys_prog_assessment.Prelude.{
  ℕ, update, ◌+◌, ◌%◌, ◌⊎◌, [], ◌∷◌, false, contains, ◌≡◌, refl, ok, panic,
}
use sys_prog_assessment.Kalloc.{Kmem, pgsize, kernbase, junk, kfree, kalloc}
use sys_prog_assessment.Kalloc.Steps.{boot, added, given, kalloc-Fresh}

abbrev kernel_end : ℕ
kernel_end = kernbase + 1048576

abbrev page : ℕ
page = kernbase + 2097152

abbrev zeroes : ℕ → ℕ
zeroes a = 0

abbrev one_page : Kmem
unfolding junk
one_page = record { freelist = page; memory = update (junk page zeroes) page 0 }

kfree_lem : kfree kernel_end page (record { freelist = 0; memory = zeroes }) ≡ ok one_page
unfolding kfree junk
kfree_lem = refl

kfree_misaligned : kfree kernel_end (page + 4) one_page ≡ panic "kfree"
unfolding kfree
kfree_misaligned = refl

kfree_kernel : kfree kernel_end kernbase one_page ≡ panic "kfree"
unfolding kfree
kfree_kernel = refl

kalloc-Fresh_example :
    ((kalloc (kalloc one_page).1).0 ≡ 0)
    ⊎ ((contains (kalloc (kalloc one_page).1).0 (page ∷ []) ≡ false)
        × ((kalloc (kalloc one_page).1).0 % pgsize ≡ 0))
kalloc-Fresh_example =
    kalloc-Fresh kernel_end (kalloc one_page).1 [] (page ∷ [])
      (given page (added page (boot zeroes) refl refl kfree_lem))
