-- ===== src/Spin/Nesting.antt =====
-- spinlock.c: pushcli and popcli as matched pairs.
use sys_prog_assessment.Prelude.{
  ◌-◌, ◌&&◌, Bool, true, not, ◌||◌, ◌≡◌, refl, arith, ◌==◌, if◌then◌else◌, Outcome, ok, panic,
}
use sys_prog_assessment.Spin.{Cpu, pushcli, popcli}

-- A CPU as its code finds it: within a pair the interrupts are off.
abbrev pub IsCpu : Cpu → Type 0
IsCpu x = (x.ncli == 0 || not x.interrupts) ≡ true

-- Sequences of calls in which every pushcli has its popcli.
pub data Matched : Type 0 where
  no_calls : Matched
  pair : Matched → Matched → Matched

-- The calls in their order: the first part stands inside a pair, the second one after it.
unfoldable pub run : Matched → Cpu → Outcome Cpu
run no_calls x = ok x
run (pair inside after) x = elim (run inside (pushcli x)) [
  | panic e ↦ panic e
  | ok y ↦ elim (popcli y) [ panic e ↦ panic e | ok z ↦ run after z ]
]

-- The interrupt flag that the last popcli of the CPU brings back.
abbrev pub saved : Cpu → Bool
saved x = if x.ncli == 0 then x.interrupts else x.intena

abbrev pub Restored : Cpu → Cpu → Type 0
Restored x y = (y.ncli ≡ x.ncli) × (y.interrupts ≡ x.interrupts) × (saved y ≡ saved x)

pushcli-IsCpu : (x : Cpu) → IsCpu (pushcli x)
unfolding pushcli
pushcli-IsCpu x = ground arith

-- A popcli at the end of a pair undoes the pushcli at its start.
popcli_end :
    (x y : Cpu)
    → IsCpu x
    → Restored (pushcli x) y
    → (z : Cpu) × (popcli y ≡ ok z) × Restored x z × IsCpu z
unfolding pushcli popcli
popcli_end x y h r =
    let (n, f, g) = r in
    (
      record y {
        ncli = y.ncli - 1;
        interrupts = if y.ncli - 1 == 0 && y.intena then true else y.interrupts;
      },
      ground arith,
      (ground arith, ground arith, ground arith),
      ground arith,
    )

-- On a CPU that has its interrupts off within a pair, any matched sequence of pushcli and popcli runs
-- without a panic and leaves the nesting depth, the interrupt flag and the flag to restore as they
-- were.
pub run-Restored :
    (w : Matched) (x : Cpu) → IsCpu x → (y : Cpu) × (run w x ≡ ok y) × Restored x y × IsCpu y
unfolding run
run-Restored no_calls x h = (x, refl, (refl, refl, refl), h)
run-Restored (pair inside after) x h =
    let (y, e, r, i) = run-Restored inside (pushcli x) (pushcli-IsCpu x) in
    let (z, e', r', i') = popcli_end x y h r in
    let (u, e'', r'', i'') = run-Restored after z i' in (u, rw (e, e', e''), (cc, cc, cc), i'')
