-- ===== src/Proc/Tests.antt =====
-- The theorems on processes at concrete tables, and runs of the code.
use sys_prog_assessment.Prelude.{
  ◌≡◌, ◌≢◌, refl, true, false, none, some, update, arith, ok, panic, ◌==◌,
}
use sys_prog_assessment.Proc.{
  Proc, unused, sleeping, runnable, running, zombie, Ptable, nproc, is_unused, nowhere, slot, find,
  fork, exit, Waited, wait, scan_children, kill, schedule, sched,
}
use sys_prog_assessment.Proc.Table.{find-Found}
use sys_prog_assessment.Proc.Wait.{Waits, wait-Waits}
use sys_prog_assessment.Proc.Exit.{Exited, exit-Exited}
use sys_prog_assessment.Proc.Kill.{born_killed}
use sys_prog_assessment.Proc.Invariant.{IsValid}
use sys_prog_assessment.Proc.Step.{booted, start, later, is_picked, Reach-IsValid}

abbrev blank : Proc
blank = record {
  sz = 0;
  pgdir = 0;
  kstack = 0;
  state = unused;
  pid = 0;
  parent = none;
  chan = nowhere;
  killed = false;
}

-- Init, which sleeps in `wait`, and its child in slot 1, which runs and has a child in slot 2.
abbrev family : Ptable
family = record {
  proc =
      update
        (update (update (λ _. blank) 0 (record blank { state = sleeping; pid = 1; chan = slot 0 }))
          1 (record blank { state = running; pid = 2; parent = some 0 }))
        2 (record blank { state = zombie; pid = 3; parent = some 1 });
  nextpid = 4;
  initproc = 0;
}

child_is_reaped : (wait 1 family).0 ≡ Waited.reaped 3
unfolding wait scan_children
child_is_reaped = refl

init_cannot_exit : exit 0 family ≡ panic "init exiting"
unfolding exit
init_cannot_exit = refl

sched_wants_one_lock : sched true 2 false blank ≡ panic "sched locks"
unfolding sched
sched_wants_one_lock = refl

wait-Waits_example : Waits 1 family (wait 1 family)
wait-Waits_example = wait-Waits 1 family

exit-Exited_example : (t : Ptable) × (exit 1 family ≡ ok t) × Exited 1 family t
exit-Exited_example = exit-Exited 1 family (omega arith) (omega arith)

-- `kill` of pid 0 hits the first free slot.
kill_zero_hits : find nproc 0 (λ p. p.pid == 0) family ≡ some 3
unfolding find
kill_zero_hits = refl

first_free : find nproc 0 (λ p. is_unused p.state) family ≡ some 3
unfolding find
first_free = refl

born_killed_example :
    let (success, t') = kill 0 family in
    let (child, t'') = fork 1 (some 4096) (some 8192) t' in
    (success ≡ true)
    × (child ≢ none)
    × ((t''.proc 3).killed ≡ true)
    × ((t''.proc 3).state ≡ runnable)
born_killed_example =
    born_killed 0 1 4096 8192 3 family (find-Found nproc 0 (λ p. p.pid == 0) family kill_zero_hits)
      (find-Found nproc 0 (λ p. is_unused p.state) family first_free)

Reach-IsValid_example : IsValid (schedule 0 (booted 4096 8192))
Reach-IsValid_example = Reach-IsValid (later start (is_picked 0))
