-- ===== src/Icache/Tests.antt =====
-- fs.c: iget in an empty cache, and iget of an inode that is cached.
use sys_prog_assessment.Prelude.{ℕ, ◌≡◌, refl, arith, true, false, ◌⊎◌, ok, update}
use sys_prog_assessment.Blocks.Sample.{small}
use sys_prog_assessment.Content.Sample.{empty_file}
use sys_prog_assessment.Icache.{Slot, caches_inode, search_from, add_ref, recycled, iget}
use sys_prog_assessment.Icache.Unique.{Reach, boot, got, iget_lem}

abbrev empty_cache : ℕ → Slot
empty_cache i = record { dev = 0; ref = 0; valid = false; content = empty_file }

abbrev one_cached : ℕ → Slot
one_cached = update empty_cache 0 (recycled 1 5 (empty_cache 0))

first_slot : iget 1 5 empty_cache ≡ ok (0, one_cached)
unfolding iget search_from
first_slot = refl

second_slot : iget 1 7 one_cached ≡ ok (1, update one_cached 1 (recycled 1 7 (one_cached 1)))
unfolding iget search_from
second_slot = refl

same_slot : iget 1 5 one_cached ≡ ok (0, update one_cached 0 (add_ref (one_cached 0)))
unfolding iget search_from
same_slot = refl

one_reached : Reach small one_cached
one_reached = got 1 5 0 empty_cache (boot (λ i. refl)) first_slot

iget_lem_example :
    (caches_inode 1 5 (update one_cached 0 (add_ref (one_cached 0)) 0) ≡ true)
    × (((one_cached 0).ref ≡ 0) ⊎ (caches_inode 1 5 (one_cached 0) ≡ true))
    × (caches_inode 1 5 (update one_cached 0 (add_ref (one_cached 0)) 3) ≡ false)
iget_lem_example =
    iget_lem small one_cached (update one_cached 0 (add_ref (one_cached 0))) 1 5 0 3 one_reached
      same_slot (omega arith) (λ e. omega arith)
