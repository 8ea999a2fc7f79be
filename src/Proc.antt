-- ===== src/Proc.antt =====
-- proc.c: the process table. Each function here is one stretch under `ptable.lock`. A process is its
-- slot in the table; its files, its directory, its name and its saved registers are not in the model.
pub mod Table
pub mod Wait
mod Orphans
pub mod Exit
pub mod Kill
pub mod Invariant
mod Preserve
mod Lifecycle
pub mod Step
mod Tests
use sys_prog_assessment.Prelude.{
  ℕ, zero, suc, ◌+◌, ◌-◌, Bool, true, false, not, ◌&&◌, ◌||◌, Option, none, some, update, u32, ◌==◌,
  ltb, if◌then◌else◌, Outcome, ok, panic,
}

abbrev pub nproc : ℕ
nproc = 64

-- `enum procstate`
pub data ProcState : Type 0 where
  unused embryo sleeping runnable running zombie : ProcState

-- What `chan` points at: nothing, a slot of the table (`wait` sleeps on one), another object.
pub data Chan : Type 0 where
  nowhere : Chan
  slot : ℕ → Chan
  object : ℕ → Chan

abbrev pub same_chan : Chan → Chan → Bool
same_chan nowhere nowhere = true
same_chan (slot i) (slot j) = i == j
same_chan (object a) (object b) = a == b
same_chan _ _ = false

-- `struct proc`; `kstack` and `pgdir` are addresses, 0 for none, and `parent` is a slot.
pub record Proc : Type 0 where
  pub sz : ℕ
  pub pgdir : ℕ
  pub kstack : ℕ
  pub state : ProcState
  pub pid : ℕ
  pub parent : Option ℕ
  pub chan : Chan
  pub killed : Bool

-- `ptable`, `nextpid` and the slot of `initproc`.
pub record Ptable : Type 0 where
  pub proc : ℕ → Proc
  pub nextpid : ℕ
  pub initproc : ℕ

abbrev pub is_unused : ProcState → Bool
is_unused ProcState.unused = true
is_unused _ = false

abbrev pub is_sleeping : ProcState → Bool
is_sleeping ProcState.sleeping = true
is_sleeping _ = false

abbrev pub is_runnable : ProcState → Bool
is_runnable ProcState.runnable = true
is_runnable _ = false

abbrev pub is_running : ProcState → Bool
is_running ProcState.running = true
is_running _ = false

abbrev pub is_zombie : ProcState → Bool
is_zombie ProcState.zombie = true
is_zombie _ = false

-- `p->parent == curproc`
abbrev pub is_child : Proc → ℕ → Bool
is_child p cur = elim p.parent [ none ↦ false | some k ↦ k == cur ]

abbrev pub modify : ℕ → (Proc → Proc) → Ptable → Ptable
modify i f t = record t { proc = update t.proc i (f (t.proc i)) }

-- `for (p = ptable.proc; p < &ptable.proc[NPROC]; p++)`, with the rounds that are left.
unfoldable pub for_procs : ℕ → ℕ → (ℕ → Ptable → Ptable) → Ptable → Ptable
for_procs zero i body t = t
for_procs (suc n) i body t = for_procs n (i + 1) body (body i t)

-- The first slot from `i` on, of `n`, that passes the test.
unfoldable pub find : ℕ → ℕ → (Proc → Bool) → Ptable → Option ℕ
find zero i test t = none
find (suc n) i test t = let rest = find n (i + 1) test t in if test (t.proc i) then some i else rest

abbrev pub wake : Chan → Proc → Proc
wake c p = if is_sleeping p.state && same_chan p.chan c then record p { state = runnable } else p

unfoldable pub wakeup1 : Chan → Ptable → Ptable
wakeup1 c t = for_procs nproc 0 (λ i. modify i (wake c)) t

-- `allocproc`, with what `kalloc` returns for the kernel stack. The source releases the lock between
-- the search and the rest, which is one step here.
unfoldable pub allocproc : Option ℕ → Ptable → Option ℕ × Ptable
allocproc stack t = elim (find nproc 0 (λ p. is_unused p.state) t) [
  | none ↦ (none, t)
  | some i ↦
      let t' : Ptable = record (modify i (λ p. record p { state = embryo; pid = t.nextpid }) t) {
        nextpid = u32 (t.nextpid + 1);
      } in
      elim stack [
        | none ↦ (none, modify i (λ p. record p { state = unused }) t')
        | some k ↦ (some i, modify i (λ p. record p { kstack = k }) t')
      ]
]

-- The rest of `fork` by `cur` for the slot `np`, with what `copyuvm` returns: the pid, or -1.
unfoldable pub fork_child : ℕ → ℕ → Option ℕ → Ptable → Option ℕ × Ptable
fork_child cur np none t = (none, modify np (λ p. record p { kstack = 0; state = unused }) t)
fork_child cur np (some d) t = (
  some (t.proc np).pid,
  modify np (λ p. record p { pgdir = d; sz = (t.proc cur).sz; parent = some cur; state = runnable })
      t,
)

unfoldable pub fork : ℕ → Option ℕ → Option ℕ → Ptable → Option ℕ × Ptable
fork cur stack dir t =
    let (np, t') = allocproc stack t in
    elim np [ none ↦ (none, t') | some i ↦ fork_child cur i dir t' ]

-- The body of the loop of `exit` that passes the children of `cur` to init.
unfoldable pub adopt : ℕ → ℕ → Ptable → Ptable
adopt cur i t =
    let p = t.proc i in
    let t' : Ptable = modify i (λ p. record p { parent = some t.initproc }) t in
    if is_child p cur then (if is_zombie p.state then wakeup1 (slot t.initproc) t' else t') else t

abbrev pub parent_chan : Proc → Chan
parent_chan p = elim p.parent [ none ↦ nowhere | some k ↦ slot k ]

-- `exit` from the acquisition of the lock to the call of `sched`.
unfoldable pub exit : ℕ → Ptable → Outcome Ptable
exit cur t =
    if cur == t.initproc
    then panic "init exiting"
    else ok (
        modify cur (λ p. record p { state = zombie })
          (for_procs nproc 0 (adopt cur) (wakeup1 (parent_chan (t.proc cur)) t)))

-- One scan of `wait`: the first zombie child from slot `i` on, or whether there are children.
pub data Scan : Type 0 where
  found : ℕ → Scan
  kids : Bool → Scan

unfoldable pub scan_children : ℕ → ℕ → ℕ → Bool → Ptable → Scan
scan_children cur zero i havekids t = kids havekids
scan_children cur (suc n) i havekids t =
    let later = scan_children cur n (i + 1) (havekids || is_child (t.proc i) cur) t in
    if is_child (t.proc i) cur && is_zombie (t.proc i).state then found i else later

pub data Waited : Type 0 where
  reaped : ℕ → Waited
  failed : Waited
  asleep : Waited

abbrev pub reap : Proc → Proc
reap p = record p { kstack = 0; pid = 0; parent = none; killed = false; state = unused }

-- The end of `sleep` is `tidy`, when the process runs again.
unfoldable pub sleep : Chan → ℕ → Ptable → Ptable
sleep c cur t = modify cur (λ p. record p { chan = c; state = sleeping }) t

unfoldable pub tidy : ℕ → Ptable → Ptable
tidy cur t = modify cur (λ p. record p { chan = nowhere }) t

-- One round of `wait`.
unfoldable pub wait : ℕ → Ptable → Waited × Ptable
unfolding scan_children
wait cur t = elim (scan_children cur nproc 0 false t) [
  | found i ↦ (reaped (t.proc i).pid, modify i reap t)
  | kids havekids ↦
      if not havekids || (t.proc cur).killed then (failed, t) else (asleep, sleep (slot cur) cur t)
]

-- `kill`: whether a process was found.
unfoldable pub kill : ℕ → Ptable → Bool × Ptable
kill pid t = elim (find nproc 0 (λ p. p.pid == pid) t) [
  | none ↦ (false, t)
  | some i ↦ (
    true,
    modify i
        (λ p. record p { killed = true; state = if is_sleeping p.state then runnable else p.state })
        t,
  )
]

-- The turn of slot `i` in `scheduler`.
unfoldable pub schedule : ℕ → Ptable → Ptable
schedule i t =
    if is_runnable (t.proc i).state then modify i (λ p. record p { state = running }) t else t

unfoldable pub yield : ℕ → Ptable → Ptable
yield cur t = modify cur (λ p. record p { state = runnable }) t

-- The checks of `sched`: the lock is held, it is the only one, the process is not marked as running
-- and interrupts are off.
unfoldable pub sched : Bool → ℕ → Bool → Proc → Outcome (Unit {0})
sched holding ncli interruptible p =
    if not holding
    then panic "sched ptable.lock"
    else (if not (ncli == 1)
        then panic "sched locks"
        else (if is_running p.state
            then panic "sched running"
            else (if interruptible then panic "sched interruptible" else ok tt)))
