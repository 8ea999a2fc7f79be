-- ===== src/Proc/Wait.antt =====
-- What `wait` does: it reaps the first zombie child, gives up, or sleeps until a child exits.
use sys_prog_assessment.Prelude.{
  ℕ, zero, suc, ◌+◌, ◌≤◌, ◌<◌, ◌≡◌, refl, Bool, true, false, ◌&&◌, ◌||◌, ◌==◌, arith, inl, inr, ◌≢◌,
  sym, ◌∙◌, subst, fun_ext, update, update_self, update_ne, ℕ_discrete, none, Bool-cases,
}
use sys_prog_assessment.Proc.{
  Proc, ProcState, Ptable, nproc, modify, is_child, is_zombie, Scan, found, kids, scan_children,
  Waited, reaped, failed, asleep, reap, sleep, slot, wait,
}

-- The process is a zombie child of `cur`.
abbrev pub is_done : ℕ → Proc → Bool
is_done cur p = is_child p cur && is_zombie p.state

-- The slots from `i` up to `j` hold no zombie child of `cur`.
abbrev pub NoneDone : ℕ → Ptable → ℕ → ℕ → Type 0
NoneDone cur t i j = (k : ℕ) → i ≤ k → k < j → is_done cur (t.proc k) ≡ false

-- What a scan of the slots from `i` up to `j` has seen.
data Scanned (cur : ℕ) (t : Ptable) (i j : ℕ) (havekids : Bool) (s : Scan) : Type 0 where
  saw :
      (k : ℕ)
      → s ≡ found k
      → i ≤ k
      → k < j
      → is_done cur (t.proc k) ≡ true
      → NoneDone cur t i k
      → Scanned cur t i j havekids s
  child :
      (k : ℕ)
      → s ≡ kids true
      → i ≤ k
      → k < j
      → is_child (t.proc k) cur ≡ true
      → NoneDone cur t i j
      → Scanned cur t i j havekids s
  no_child :
      s ≡ kids havekids
      → ((k : ℕ) → i ≤ k → k < j → is_child (t.proc k) cur ≡ false)
      → Scanned cur t i j havekids s

NoneDone-extend :
    (cur : ℕ) (t : Ptable) (i j : ℕ)
    → is_done cur (t.proc i) ≡ false
    → NoneDone cur t (i + 1) j
    → NoneDone cur t i j
NoneDone-extend cur t i j h rest k a b = elim (Bool-cases (i == k)) [
  | inl same ↦ ground arith
  | inr other ↦ rest k (ground arith) b
]

not_done_of_not_child : (cur : ℕ) (p : Proc) → is_child p cur ≡ false → is_done cur p ≡ false
not_done_of_not_child cur p h = rw h

extend :
    (cur n i : ℕ) (havekids : Bool) (t : Ptable) (s : Scan)
    → is_done cur (t.proc i) ≡ false
    → Scanned cur t (i + 1) (i + 1 + n) (havekids || is_child (t.proc i) cur) s
    → Scanned cur t i (i + suc n) havekids s
extend cur n i havekids t s h (saw k e a b d rest) =
    saw k e (omega arith) (omega arith) d (NoneDone-extend cur t i k h rest)
extend cur n i havekids t s h (child k e a b c rest) =
    child k e (omega arith) (omega arith) c
      (NoneDone-extend cur t i (i + suc n) h (λ m p q. rest m p (omega arith)))
extend cur n i havekids t s h (no_child e rest) = elim (Bool-cases (is_child (t.proc i) cur)) [
  | inl yes_child ↦ child i (ground arith) (omega arith) (omega arith) yes_child (
      NoneDone-extend cur t i (i + suc n) h
        (λ k a b. not_done_of_not_child cur (t.proc k) (rest k a (omega arith))))
  | inr not_child ↦ no_child (ground arith) (λ k a b. elim (Bool-cases (i == k)) [
    | inl same ↦ ground arith
    | inr other ↦ rest k (ground arith) (omega arith)
  ])
]

scan_children-Scanned :
    (cur n i : ℕ) (havekids : Bool) (t : Ptable)
    → Scanned cur t i (i + n) havekids (scan_children cur n i havekids t)
unfolding scan_children
scan_children-Scanned cur zero i havekids t = no_child refl (λ k a b. absurd (omega arith))
scan_children-Scanned cur (suc n) i havekids t = elim (Bool-cases (is_done cur (t.proc i))) [
  | inl yes_done ↦
      rw yes_done (saw i refl (omega arith) (omega arith) yes_done (λ k a b. absurd (omega arith)))
  | inr not_done ↦ rw not_done (
      extend cur n i havekids t _ not_done
        (scan_children-Scanned cur n (i + 1) (havekids || is_child (t.proc i) cur) t))
]

-- Slot `i` holds `q`, and nothing else of the table has changed.
pub record Changed (i : ℕ) (q : Proc) (t t' : Ptable) : Type 0 where
  pub here : t'.proc i ≡ q
  pub elsewhere : (j : ℕ) → i ≢ j → t'.proc j ≡ t.proc j
  pub same_nextpid : t'.nextpid ≡ t.nextpid
  pub same_initproc : t'.initproc ≡ t.initproc

Changed-modify : (i : ℕ) (f : Proc → Proc) (t : Ptable) → Changed i (f (t.proc i)) t (modify i f t)
Changed-modify i f t = record {
  here = update_self t.proc i (f (t.proc i));
  elsewhere = λ j n. update_ne t.proc i (f (t.proc i)) j n;
  same_nextpid = refl;
  same_initproc = refl;
}

-- A slot that `wait` has freed: the kernel stack is given back, no pid, no parent, not killed. The
-- rest is left as it was.
abbrev pub reaped_slot : Proc → Proc
reaped_slot p = record {
  sz = p.sz;
  pgdir = p.pgdir;
  kstack = 0;
  state = ProcState.unused;
  pid = 0;
  parent = none;
  chan = p.chan;
  killed = false;
}

-- A process that sleeps on its own slot `cur`.
abbrev pub waiting_slot : ℕ → Proc → Proc
waiting_slot cur p = record {
  sz = p.sz;
  pgdir = p.pgdir;
  kstack = p.kstack;
  state = ProcState.sleeping;
  pid = p.pid;
  parent = p.parent;
  chan = slot cur;
  killed = p.killed;
}

Changed-sleep :
    (cur : ℕ) (t : Ptable) → Changed cur (waiting_slot cur (t.proc cur)) t (sleep (slot cur) cur t)
unfolding sleep
Changed-sleep cur t =
    Changed-modify cur (λ p. record p { chan = slot cur; state = ProcState.sleeping }) t

-- The three outcomes of a round of `wait` by `cur`, with what each means and what it changes: the
-- slot of the first zombie child is freed as in `reaped_slot` and its pid returned; -1, if there is no
-- child, or no zombie child and `cur` is killed, and the table is as it was; or `cur`, which has a
-- child and no zombie child and is not killed, sleeps on its own slot.
pub data Waits (cur : ℕ) (t : Ptable) : Waited × Ptable → Type 0 where
  reaps :
      {t' : Ptable} (i : ℕ)
      → i < nproc
      → is_done cur (t.proc i) ≡ true
      → NoneDone cur t 0 i
      → Changed i (reaped_slot (t.proc i)) t t'
      → Waits cur t (reaped (t.proc i).pid, t')
  no_children :
      ((k : ℕ) → 0 ≤ k → k < nproc → is_child (t.proc k) cur ≡ false) → Waits cur t (failed, t)
  is_killed : (t.proc cur).killed ≡ true → NoneDone cur t 0 nproc → Waits cur t (failed, t)
  sleeps :
      {t' : Ptable} (k : ℕ)
      → k < nproc
      → is_child (t.proc k) cur ≡ true
      → NoneDone cur t 0 nproc
      → (t.proc cur).killed ≡ false
      → Changed cur (waiting_slot cur (t.proc cur)) t t'
      → Waits cur t (asleep, t')

-- A round of `wait` ends in one of the three ways, under the conditions and with the changes of
-- `Waits`.
pub wait-Waits : (cur : ℕ) (t : Ptable) → Waits cur t (wait cur t)
unfolding wait
wait-Waits cur t = go (scan_children-Scanned cur nproc 0 false t)
  where
    go : Scanned cur t 0 nproc false (scan_children cur nproc 0 false t) → Waits cur t (wait cur t)
    go (saw k e a b d rest) = rw (e, wait) (reaps k b d rest (Changed-modify k reap t))
    go (child k e a b c rest) = elim (Bool-cases (t.proc cur).killed) [
      | inl dead ↦ rw (e, wait) (simp dead (is_killed dead rest))
      | inr alive ↦ rw (e, wait) (simp alive (sleeps k b c rest alive (Changed-sleep cur t)))
    ]
    go (no_child e rest) = rw (e, wait) (no_children rest)

-- A table that differs in one slot, as a change of the slot.
pub Changed-eq :
    (i : ℕ) (q : Proc) (t t' : Ptable)
    → Changed i q t t'
    → t' ≡ record t { proc = update t.proc i q }
Changed-eq i q t t' c =
    let procs : t'.proc ≡ update t.proc i q = fun_ext (λ j. elim (ℕ_discrete i j) [
      | yes same ↦
          subst (λ k. t'.proc k ≡ update t.proc i q k) same (c.here ∙ sym (update_self t.proc i q))
      | no other ↦ c.elsewhere j other ∙ sym (update_ne t.proc i q j other)
    ]) in
    rw (← procs, ← c.same_nextpid, ← c.same_initproc) refl
