-- ===== src/Spin.antt =====
-- spinlock.c: spin locks over several CPUs. Each function is a stretch that no other CPU sees a part
-- of: `acquire` is `acquire_start`, some rounds of `xchg` and `acquire_end`, and `release` is
-- `release_start` and `release_end`. The names and the call stacks of the locks are left out.
pub mod Nesting
pub mod Exclusion
mod Tests
use sys_prog_assessment.Prelude.{
  ℕ, ◌+◌, ◌-◌, Bool, true, false, not, ◌&&◌, Option, none, some, update, ◌==◌, if◌then◌else◌,
  Outcome, ok, panic,
}

-- What `struct cpu` keeps for the locks, and the flag FL_IF of the processor.
pub record Cpu : Type 0 where
  pub ncli : ℕ
  pub intena : Bool
  pub interrupts : Bool

pub record Spinlock : Type 0 where
  pub locked : Bool
  pub cpu : Option ℕ

-- Where a CPU stands in spinlock.c.
pub data Phase : Type 0 where
  outside : Phase
  spinning : ℕ → Phase
  won : ℕ → Phase
  releasing : ℕ → Phase

-- The CPUs and the locks, each by its number.
pub record Smp : Type 0 where
  pub cpus : ℕ → Cpu
  pub locks : ℕ → Spinlock
  pub phase : ℕ → Phase

abbrev pub initlock : Spinlock
initlock = record { locked = false; cpu = none }

unfoldable pub pushcli : Cpu → Cpu
pushcli c = record c {
  interrupts = false;
  intena = if c.ncli == 0 then c.interrupts else c.intena;
  ncli = c.ncli + 1;
}

unfoldable pub popcli : Cpu → Outcome Cpu
popcli c =
    if c.interrupts
    then panic "popcli - interruptible"
    else (if c.ncli == 0
        then panic "popcli"
        else ok (record c {
          ncli = c.ncli - 1;
          interrupts = if c.ncli - 1 == 0 && c.intena then true else c.interrupts;
        }))

abbrev pub owner_is : Option ℕ → ℕ → Bool
owner_is none c = false
owner_is (some d) c = d == c

-- `holding` by CPU `c`, with the CPU after its pushcli and popcli.
unfoldable pub holding : ℕ → Spinlock → Cpu → Outcome (Bool × Cpu)
unfolding pushcli popcli
holding c k x = elim (popcli (pushcli x)) [
  | panic s ↦ panic s
  | ok x' ↦ ok (k.locked && owner_is k.cpu c, x')
]

abbrev pub set_cpu : ℕ → Cpu → Phase → Smp → Smp
set_cpu c x p s = record s { cpus = update s.cpus c x; phase = update s.phase c p }

abbrev pub set_lock : ℕ → Spinlock → Smp → Smp
set_lock k l s = record s { locks = update s.locks k l }

-- `acquire` before its loop.
unfoldable pub acquire_start : ℕ → ℕ → Smp → Outcome Smp
unfolding holding
acquire_start c k s = elim (holding c (s.locks k) (pushcli (s.cpus c))) [
  | panic e ↦ panic e
  | ok r ↦ if r.0 then panic "acquire" else ok (set_cpu c r.1 (spinning k) s)
]

-- One round of the loop: the old value of `locked` decides whether the loop is left.
unfoldable pub xchg : ℕ → ℕ → Smp → Smp
xchg c k s =
    let s' : Smp = set_lock k (record (s.locks k) { locked = true }) s in
    if (s.locks k).locked then s' else set_cpu c (s.cpus c) (won k) s'

unfoldable pub acquire_end : ℕ → ℕ → Smp → Smp
acquire_end c k s =
    set_cpu c (s.cpus c) outside (set_lock k (record (s.locks k) { cpu = some c }) s)

unfoldable pub release_start : ℕ → ℕ → Smp → Outcome Smp
unfolding holding
release_start c k s = elim (holding c (s.locks k) (s.cpus c)) [
  | panic e ↦ panic e
  | ok r ↦
      if not r.0
      then panic "release"
      else ok (set_cpu c r.1 (releasing k) (set_lock k (record (s.locks k) { cpu = none }) s))
]

unfoldable pub release_end : ℕ → ℕ → Smp → Outcome Smp
unfolding popcli
release_end c k s = elim (popcli (s.cpus c)) [
  | panic e ↦ panic e
  | ok x ↦ ok (set_cpu c x outside (set_lock k (record (s.locks k) { locked = false }) s))
]
