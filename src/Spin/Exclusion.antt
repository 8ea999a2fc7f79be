-- ===== src/Spin/Exclusion.antt =====
-- spinlock.c: mutual exclusion.
use sys_prog_assessment.Prelude.{
  ℕ, Bool, true, false, ◌||◌, ◌&&◌, not, ◌≡◌, refl, arith, ◌==◌, none, if◌then◌else◌, Outcome, ok,
  panic,
}
use sys_prog_assessment.Spin.{
  Cpu, Spinlock, Phase, outside, spinning, won, releasing, Smp, initlock, pushcli, popcli, holding,
  owner_is, set_cpu, set_lock, acquire_start, xchg, acquire_end, release_start, release_end,
}

-- Between the `xchg` that wins the lock and the store of `cpu`, or the stores of the release.
abbrev pub in_hand : Phase → ℕ → Bool
in_hand (won j) k = j == k
in_hand (releasing j) k = j == k
in_hand _ k = false

abbrev pub owns : Smp → ℕ → ℕ → Bool
owns s c k = in_hand (s.phase c) k || owner_is (s.locks k).cpu c

-- The steps of the CPUs, in any interleaving.
pub data Step : Smp → Smp → Type 0 where
  start : {s s' : Smp} (c k : ℕ) → s.phase c ≡ outside → acquire_start c k s ≡ ok s' → Step s s'
  spin : {s : Smp} (c k : ℕ) → s.phase c ≡ spinning k → Step s (xchg c k s)
  entered : {s : Smp} (c k : ℕ) → s.phase c ≡ won k → Step s (acquire_end c k s)
  leave : {s s' : Smp} (c k : ℕ) → s.phase c ≡ outside → release_start c k s ≡ ok s' → Step s s'
  left : {s s' : Smp} (c k : ℕ) → s.phase c ≡ releasing k → release_end c k s ≡ ok s' → Step s s'

-- What the kernel starts from: all locks are free and no CPU is at work on one.
abbrev pub at_boot : (ℕ → Cpu) → Smp
at_boot cpus = record { cpus = cpus; locks = λ _. initlock; phase = λ _. outside }

pub data Reach (cpus : ℕ → Cpu) : Smp → Type 0 where
  boot : Reach cpus (at_boot cpus)
  next : {s s' : Smp} → Reach cpus s → Step s s' → Reach cpus s'

-- An owned lock is taken, it has one owner, and a free lock or one in hand has no `cpu`.
abbrev pub IsExclusive : Smp → Type 0
IsExclusive s =
    ((c k : ℕ) → owns s c k ≡ true → (s.locks k).locked ≡ true)
    × ((c d k : ℕ) → owns s c k ≡ true → owns s d k ≡ true → c ≡ d)
    × ((c k : ℕ) → in_hand (s.phase c) k ≡ true → (s.locks k).cpu ≡ none)
    × ((k : ℕ) → (s.locks k).locked ≡ false → (s.locks k).cpu ≡ none)

boot-IsExclusive : (cpus : ℕ → Cpu) → IsExclusive (at_boot cpus)
boot-IsExclusive cpus = (λ c k o. cc, λ c d k o. cc, λ c k o. cc, λ k o. refl)

xchg-IsExclusive :
    (s : Smp) (c k : ℕ) → s.phase c ≡ spinning k → IsExclusive s → IsExclusive (xchg c k s)
unfolding xchg
xchg-IsExclusive s c k h (taken, one, unset, bare) = (
  λ d j o. ground (arith, taken d j, taken c j),
  λ d e j o p. ground (arith, one d e j, taken d j, taken e j),
  λ d j o. ground (arith, unset d j, taken d j, bare j),
  λ j o. ground (arith, bare j),
)

acquire_end-IsExclusive :
    (s : Smp) (c k : ℕ) → s.phase c ≡ won k → IsExclusive s → IsExclusive (acquire_end c k s)
unfolding acquire_end
acquire_end-IsExclusive s c k h (taken, one, unset, bare) = (
  λ d j o. ground (arith, taken d j, taken c j),
  λ d e j o p. ground (arith, one d e j, one c d j, one c e j, unset c j),
  λ d j o. ground (arith, unset d j, one c d j),
  λ j o. ground (arith, bare j, taken c j),
)

started-IsExclusive :
    (s : Smp) (c k : ℕ) (x : Cpu)
    → s.phase c ≡ outside
    → IsExclusive s
    → IsExclusive (set_cpu c x (spinning k) s)
started-IsExclusive s c k x h (taken, one, unset, bare) = (
  λ d j o. ground (arith, taken d j),
  λ d e j o p. ground (arith, one d e j),
  λ d j o. ground (arith, unset d j),
  λ j o. ground (arith, bare j),
)

leaving-IsExclusive :
    (s : Smp) (c k : ℕ) (x : Cpu)
    → s.phase c ≡ outside
    → owner_is (s.locks k).cpu c ≡ true
    → IsExclusive s
    → IsExclusive (set_cpu c x (releasing k) (set_lock k (record (s.locks k) { cpu = none }) s))
leaving-IsExclusive s c k x h g (taken, one, unset, bare) = (
  λ d j o. ground (arith, taken d j, taken c j),
  λ d e j o p. ground (arith, one d e j, one c d j, one c e j),
  λ d j o. ground (arith, unset d j, one c d j),
  λ j o. ground (arith, bare j),
)

left-IsExclusive :
    (s : Smp) (c k : ℕ) (x : Cpu)
    → s.phase c ≡ releasing k
    → IsExclusive s
    → IsExclusive (set_cpu c x outside (set_lock k (record (s.locks k) { locked = false }) s))
left-IsExclusive s c k x h (taken, one, unset, bare) = (
  λ d j o. ground (arith, taken d j, one c d j, unset c j),
  λ d e j o p. ground (arith, one d e j, one c d j, one c e j, unset c j),
  λ d j o. ground (arith, unset d j),
  λ j o. ground (arith, bare j, unset c j),
)

-- What the code that can panic does where it returns.
acquire_start-eq-ok :
    (s : Smp) (c k : ℕ) {s' : Smp}
    → acquire_start c k s ≡ ok s'
    → (x : Cpu) × (s' ≡ set_cpu c x (spinning k) s)
unfolding acquire_start
acquire_start-eq-ok s c k e = split (holding c (s.locks k) (pushcli (s.cpus c))) e
  where
    split :
        (r : Outcome (Bool × Cpu)) {s' : Smp}
        → (elim r [
          | panic e ↦ panic e
          | ok r ↦ if r.0 then panic "acquire" else ok (set_cpu c r.1 (spinning k) s)
        ])
          ≡ ok s'
        → (x : Cpu) × (s' ≡ set_cpu c x (spinning k) s)
    split (panic e) h = cc
    split (ok (true, x)) h = cc
    split (ok (false, x)) h = (x, cc)

holding-Held :
    (c : ℕ) (l : Spinlock) (x : Cpu) {x' : Cpu}
    → holding c l x ≡ ok (true, x')
    → owner_is l.cpu c ≡ true
unfolding holding
holding-Held c l x h = split (popcli (pushcli x)) h
  where
    split :
        (r : Outcome Cpu) {x' : Cpu}
        → Path
            (Outcome (Bool × Cpu))
            (elim r [ panic e ↦ panic e | ok y ↦ ok (l.locked && owner_is l.cpu c, y) ])
            (ok (true, x'))
        → owner_is l.cpu c ≡ true
    split (panic e) h = cc
    split (ok y) h = ground arith

release_start-eq-ok :
    (s : Smp) (c k : ℕ) {s' : Smp}
    → release_start c k s ≡ ok s'
    → (x : Cpu) × (s'
        ≡ set_cpu c x (releasing k) (set_lock k (record (s.locks k) { cpu = none }) s))
      × (owner_is (s.locks k).cpu c ≡ true)
unfolding release_start
release_start-eq-ok s c k e = split (holding c (s.locks k) (s.cpus c)) refl e
  where
    split :
        (r : Outcome (Bool × Cpu)) {s' : Smp}
        → holding c (s.locks k) (s.cpus c) ≡ r
        → (elim r [
          | panic e ↦ panic e
          | ok r ↦
              if not r.0
              then panic "release"
              else ok
                  (set_cpu c r.1 (releasing k) (set_lock k (record (s.locks k) { cpu = none }) s))
        ])
          ≡ ok s'
        → (x : Cpu) × (s'
            ≡ set_cpu c x (releasing k) (set_lock k (record (s.locks k) { cpu = none }) s))
          × (owner_is (s.locks k).cpu c ≡ true)
    split (panic e) g h = cc
    split (ok (false, x)) g h = cc
    split (ok (true, x)) g h = (x, cc, holding-Held c (s.locks k) (s.cpus c) g)

release_end-eq-ok :
    (s : Smp) (c k : ℕ) {s' : Smp}
    → release_end c k s ≡ ok s'
    → (x : Cpu) × (s' ≡ set_cpu c x outside (set_lock k (record (s.locks k) { locked = false }) s))
unfolding release_end
release_end-eq-ok s c k e = split (popcli (s.cpus c)) e
  where
    split :
        (r : Outcome Cpu) {s' : Smp}
        → (elim r [
          | panic e ↦ panic e
          | ok x ↦ ok (set_cpu c x outside (set_lock k (record (s.locks k) { locked = false }) s))
        ])
          ≡ ok s'
        → (x : Cpu) × (s'
            ≡ set_cpu c x outside (set_lock k (record (s.locks k) { locked = false }) s))
    split (panic e) h = cc
    split (ok x) h = (x, cc)

Step-IsExclusive : {s s' : Smp} → Step s s' → IsExclusive s → IsExclusive s'
Step-IsExclusive {s = s} (start c k h e) i =
    let (x, f) = acquire_start-eq-ok s c k e in rw f (started-IsExclusive s c k x h i)
Step-IsExclusive {s = s} (spin c k h) i = xchg-IsExclusive s c k h i
Step-IsExclusive {s = s} (entered c k h) i = acquire_end-IsExclusive s c k h i
Step-IsExclusive {s = s} (leave c k h e) i =
    let (x, f, g) = release_start-eq-ok s c k e in rw f (leaving-IsExclusive s c k x h g i)
Step-IsExclusive {s = s} (left c k h e) i =
    let (x, f) = release_end-eq-ok s c k e in rw f (left-IsExclusive s c k x h i)

Reach-IsExclusive : (cpus : ℕ → Cpu) {s : Smp} → Reach cpus s → IsExclusive s
Reach-IsExclusive cpus boot = boot-IsExclusive cpus
Reach-IsExclusive cpus (next r t) = Step-IsExclusive t (Reach-IsExclusive cpus r)

-- In every interleaving of the CPUs, two CPUs that own one lock are the same CPU.
pub one_owner :
    (cpus : ℕ → Cpu) (s : Smp)
    → Reach cpus s
    → (c d k : ℕ) → owns s c k ≡ true
    → owns s d k ≡ true
    → c ≡ d
one_owner cpus s r c d k g h = (Reach-IsExclusive cpus r).1 c d k g h
