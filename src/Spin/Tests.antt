-- ===== src/Spin/Tests.antt =====
-- spinlock.c: concrete runs.
use sys_prog_assessment.Prelude.{ℕ, true, false, ◌≡◌, refl, ok, panic, update}
use sys_prog_assessment.Spin.{
  Cpu, Smp, outside, spinning, pushcli, popcli, holding, acquire_start, xchg, acquire_end,
  release_start,
}
use sys_prog_assessment.Spin.Nesting.{Matched, no_calls, pair, run, Restored, IsCpu, run-Restored}
use sys_prog_assessment.Spin.Exclusion.{boot, next, start, spin, entered, at_boot, owns, one_owner}

abbrev running : Cpu
running = record { ncli = 0; intena = false; interrupts = true }

abbrev two_deep : Matched
two_deep = pair (pair no_calls no_calls) (pair no_calls no_calls)

run-two_deep : run two_deep running ≡ ok (record { ncli = 0; intena = true; interrupts = true })
unfolding run pushcli popcli
run-two_deep = refl

popcli_unmatched : popcli (record { ncli = 0; intena = true; interrupts = false }) ≡ panic "popcli"
unfolding popcli
popcli_unmatched = refl

run-Restored_example : (y : Cpu) × (run two_deep running ≡ ok y) × Restored running y × IsCpu y
run-Restored_example = run-Restored two_deep running refl

abbrev cpus : ℕ → Cpu
cpus c = running

-- CPU 1 starts to acquire the lock 4.
abbrev asking : Smp
asking = record (at_boot cpus) {
  cpus = update cpus 1 (record { ncli = 1; intena = true; interrupts = false });
  phase = update (λ c. outside) 1 (spinning 4);
}

asking_lem : acquire_start 1 4 (at_boot cpus) ≡ ok asking
unfolding acquire_start holding pushcli popcli
asking_lem = refl

release_unheld : release_start 1 4 (at_boot cpus) ≡ panic "release"
unfolding release_start holding pushcli popcli
release_unheld = refl

acquire_twice : acquire_start 1 4 (acquire_end 1 4 (xchg 1 4 asking)) ≡ panic "acquire"
unfolding acquire_start acquire_end xchg holding pushcli popcli
acquire_twice = refl

entered_lem : owns (acquire_end 1 4 (xchg 1 4 asking)) 1 4 ≡ true
unfolding acquire_end xchg
entered_lem = refl

one_owner_example : ◌≡◌ {A = ℕ} 1 1
unfolding acquire_end xchg
one_owner_example =
    one_owner cpus (acquire_end 1 4 (xchg 1 4 asking))
      (next (next (next boot (start 1 4 refl asking_lem)) (spin 1 4 refl)) (entered 1 4 refl)) 1 1 4
      refl refl
