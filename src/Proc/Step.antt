-- ===== src/Proc/Step.antt =====
-- The process table as a transition system: one step for each stretch under `ptable.lock`, taken by
-- any process at any time, and the invariant of all that it reaches.
use sys_prog_assessment.Prelude.{
  ℕ, ◌+◌, ◌^◌, ◌<◌, ◌≡◌, refl, sym, ◌∙◌, true, false, Option, none, arith, update, ok,
}
use sys_prog_assessment.Proc.{
  Proc, unused, embryo, runnable, running, Ptable, nproc, Chan, nowhere, wakeup1, allocproc,
  fork_child, exit, sleep, tidy, wait, kill, schedule, yield,
}
use sys_prog_assessment.Proc.Preserve.{
  wakeup1-IsValid, sleep-IsValid, tidy-IsValid, yield-IsValid, schedule-IsValid, kill-IsValid,
}
use sys_prog_assessment.Proc.Lifecycle.{
  allocproc-IsValid, fork_child-IsValid, wait-IsValid, exit-IsValid,
}
use sys_prog_assessment.Proc.Invariant.{IsValid, live}

-- `cur` is the process that makes the call. `fork` makes two steps, with its child an EMBRYO in
-- between. Pids do not run out: `nextpid` stays an `int`.
pub data Step (t : Ptable) : Ptable → Type 0 where
  allocates : (stack : Option ℕ) → t.nextpid + 1 < 2 ^ 31 → Step t (allocproc stack t).1
  forks :
      (cur np : ℕ) (dir : Option ℕ)
      → cur < nproc
      → np < nproc
      → (t.proc cur).state ≡ running
      → (t.proc np).state ≡ embryo
      → Step t (fork_child cur np dir t).1
  exits :
      (cur : ℕ) {t' : Ptable}
      → cur < nproc
      → (t.proc cur).state ≡ running
      → exit cur t ≡ ok t'
      → Step t t'
  waits : (cur : ℕ) → (t.proc cur).state ≡ running → Step t (wait cur t).1
  goes_to_sleep : (c : Chan) (cur : ℕ) → (t.proc cur).state ≡ running → Step t (sleep c cur t)
  wakes_up : (cur : ℕ) → (t.proc cur).state ≡ running → Step t (tidy cur t)
  wakes : (c : Chan) → Step t (wakeup1 c t)
  kills : (pid : ℕ) → Step t (kill pid t).1
  is_picked : (i : ℕ) → Step t (schedule i t)
  yields : (cur : ℕ) → (t.proc cur).state ≡ running → Step t (yield cur t)

abbrev blank : Proc
blank = record {
  sz = 0;
  pgdir = 0;
  kstack = 0;
  state = unused;
  pid = 0;
  parent = none;
  chan = nowhere;
  killed = false;
}

-- The table after `userinit`: init in slot 0, with pid 1 and an address space of one page.
abbrev pub booted : ℕ → ℕ → Ptable
booted stack dir = record {
  proc =
      update (λ _. blank) 0
        (record blank { sz = 4096; pgdir = dir; kstack = stack; state = runnable; pid = 1 });
  nextpid = 2;
  initproc = 0;
}

pub data Reach (stack dir : ℕ) : Ptable → Type 0 where
  start : Reach stack dir (booted stack dir)
  later : {t t' : Ptable} → Reach stack dir t → Step t t' → Reach stack dir t'

Step-IsValid : {t t' : Ptable} → Step t t' → IsValid t → IsValid t'
Step-IsValid {t} (allocates stack room) v = allocproc-IsValid stack t room v
Step-IsValid {t} (forks cur np dir hc hn runs unborn) v =
    fork_child-IsValid cur np dir t hc hn runs unborn v
Step-IsValid {t} (exits cur hc runs e) v = exit-IsValid cur t hc runs e v
Step-IsValid {t} (waits cur runs) v = wait-IsValid cur t runs v
Step-IsValid {t} (goes_to_sleep c cur runs) v = sleep-IsValid c cur t runs v
Step-IsValid {t} (wakes_up cur runs) v = tidy-IsValid cur t v
Step-IsValid {t} (wakes c) v = wakeup1-IsValid c t v
Step-IsValid {t} (kills pid) v = kill-IsValid pid t v
Step-IsValid {t} (is_picked i) v = schedule-IsValid i t v
Step-IsValid {t} (yields cur runs) v = yield-IsValid cur t runs v

booted-live : (stack dir i : ℕ) → live ((booted stack dir).proc i).state ≡ true → i ≡ 0
booted-live stack dir i h = ground arith

booted-IsValid : (stack dir : ℕ) → IsValid (booted stack dir)
booted-IsValid stack dir = record {
  unique = λ i j hi hj li lj p. booted-live stack dir i li ∙ sym (booted-live stack dir j lj);
  numbered = λ i hi li. ground (arith, booted-live stack dir i);
  cared_for = λ i k hi p. ground arith;
  init_alive = (omega arith, refl);
  counter = (omega arith, omega arith);
}

-- In every table that the kernel reaches from `userinit`: no two slots with a process have the same
-- pid; each of these pids is positive and below `nextpid`; whoever a slot names as its parent is
-- a process that has not exited; and so is init.
pub Reach-IsValid : {stack dir : ℕ} {t : Ptable} → Reach stack dir t → IsValid t
Reach-IsValid {stack} {dir} start = booted-IsValid stack dir
Reach-IsValid (later r s) = Step-IsValid s (Reach-IsValid r)
