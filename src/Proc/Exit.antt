-- ===== src/Proc/Exit.antt =====
-- What `exit` does to the family of the process: its children go to init, and a parent that waits is
-- woken.
use sys_prog_assessment.Prelude.{
  ℕ, ◌<◌, ◌≡◌, ◌≢◌, refl, sym, ◌∙◌, ap, Bool, true, false, ◌&&◌, ◌||◌, Option, some, if◌then◌else◌,
  arith, inl, inr, Bool-cases, ◌⊎◌, ok, update_ne, update_self, leb, ltb, ap₂, ◌+◌, subst,
  ℕ_discrete,
}
use sys_prog_assessment.Proc.{
  Proc, ProcState, Ptable, nproc, modify, for_procs, is_child, is_zombie, is_sleeping, same_chan,
  wake, wakeup1, adopt, exit, Chan, slot, parent_chan,
}
use sys_prog_assessment.Proc.Table.{for_procs_keeps, proc-wakeup1, rest-wakeup1}
use sys_prog_assessment.Proc.Orphans.{
  has_done, has_done-ext, turn, proc-loop, initproc-adopt, nextpid-adopt,
}

-- The parent that the loop of `exit` leaves a process with.
abbrev pub adopted : ℕ → ℕ → Proc → Option ℕ
adopted init cur p = if is_child p cur then some init else p.parent

-- A process whose parent and state are replaced, field by field.
abbrev pub with_parent_state : Option ℕ → ProcState → Proc → Proc
with_parent_state parent state p = record {
  sz = p.sz;
  pgdir = p.pgdir;
  kstack = p.kstack;
  state = state;
  pid = p.pid;
  parent = parent;
  chan = p.chan;
  killed = p.killed;
}

-- Whether `exit` of `cur` wakes a process: it sleeps on the slot of the parent of `cur`, or it sleeps
-- on the slot of init and `cur` has a zombie child.
abbrev pub is_woken : ℕ → Ptable → Proc → Bool
is_woken cur t p =
    is_sleeping p.state
    && (same_chan p.chan (parent_chan (t.proc cur))
        || (has_done nproc 0 cur t && same_chan p.chan (slot t.initproc)))

-- A process other than `cur` after `exit`: the parent of a child is init, and a process that
-- `is_woken` is runnable; nothing else changes.
abbrev pub left_by_exit : ℕ → Ptable → Proc → Proc
left_by_exit cur t p =
    with_parent_state (adopted t.initproc cur p)
      (if is_woken cur t p then ProcState.runnable else p.state) p

-- After `exit` of a process that is not init: it is a zombie, and every other process is runnable if
-- it is one that `is_woken` and has its old state if not; the parent of a child of `cur` is init and
-- every other parent is the old one, and the other fields of all processes, nextpid and initproc are
-- as they were. No process is a child of `cur`, and its parent, if it slept in `wait`, is runnable.
pub record Exited (cur : ℕ) (t t' : Ptable) : Type 0 where
  pub itself :
      t'.proc cur
      ≡ with_parent_state (adopted t.initproc cur (t.proc cur)) ProcState.zombie (t.proc cur)
  pub others : (j : ℕ) → j < nproc → j ≢ cur → t'.proc j ≡ left_by_exit cur t (t.proc j)
  pub counters : (t'.nextpid ≡ t.nextpid) × (t'.initproc ≡ t.initproc)
  pub no_orphans : (j : ℕ) → j < nproc → is_child (t'.proc j) cur ≡ false
  pub waiter_woken :
      (q : ℕ)
      → q < nproc
      → q ≢ cur
      → (t.proc cur).parent ≡ some q
      → (t.proc q).state ≡ ProcState.sleeping
      → (t.proc q).chan ≡ slot q
      → (t'.proc q).state ≡ ProcState.runnable

-- The wakeup of the parent and the loop, on one process.
turn-wake :
    (c : Chan) (init cur : ℕ) (dead : Bool) (p : Proc)
    → turn init cur true dead (wake c p)
      ≡ with_parent_state
          (adopted init cur p)
          (if is_sleeping p.state && (same_chan p.chan c || (dead && same_chan p.chan (slot init)))
            then ProcState.runnable
            else p.state)
          p
turn-wake c init cur dead p = ground arith

done-wake :
    (c : Chan) (cur : ℕ) (p : Proc)
    → (is_child (wake c p) cur && is_zombie (wake c p).state)
      ≡ (is_child p cur && is_zombie p.state)
done-wake c cur p = ground arith

module _ (cur : ℕ) (t : Ptable) where
  woken : Ptable
  woken = wakeup1 (parent_chan (t.proc cur)) t

  looped : Ptable
  looped = for_procs nproc 0 (adopt cur) woken

  exit-eq-ok :
      cur ≢ t.initproc
      → exit cur t ≡ ok (modify cur (λ p. record p { state = ProcState.zombie }) looped)
  unfolding exit woken looped
  exit-eq-ok lives = ground arith

  has_done-woken : has_done nproc 0 cur woken ≡ has_done nproc 0 cur t
  unfolding woken
  has_done-woken = has_done-ext nproc 0 cur (wakeup1 (parent_chan (t.proc cur)) t) t (λ k a b.
      rw (proc-wakeup1 (parent_chan (t.proc cur)) t k b)
        (done-wake (parent_chan (t.proc cur)) cur (t.proc k)))

  proc-looped : (j : ℕ) → j < nproc → looped.proc j ≡ left_by_exit cur t (t.proc j)
  unfolding looped
  proc-looped j h =
      let c = parent_chan (t.proc cur) in
      let init : woken.initproc ≡ t.initproc = unfold woken in (rest-wakeup1 c t).1 in
      let here : woken.proc j ≡ wake c (t.proc j) = unfold woken in proc-wakeup1 c t j h in
      let in_range : (leb 0 j && ltb j (0 + nproc)) ≡ true = ground arith in
      proc-loop cur nproc 0 woken j (omega arith) h
      ∙ ap₂ (λ (i : ℕ) (b : Bool). turn i cur b (has_done nproc 0 cur woken) (woken.proc j)) init
          in_range
      ∙ ap₂ (λ (d : Bool) (p : Proc). turn t.initproc cur true d p) has_done-woken here
      ∙ turn-wake c t.initproc cur (has_done nproc 0 cur t) (t.proc j)

  counters-looped : (looped.nextpid ≡ t.nextpid) × (looped.initproc ≡ t.initproc)
  unfolding looped woken
  counters-looped =
      for_procs_keeps (λ (u : Ptable). (u.nextpid ≡ t.nextpid) × (u.initproc ≡ t.initproc))
        (adopt cur) (λ i u m. (nextpid-adopt cur i u ∙ m.0, initproc-adopt cur i u ∙ m.1)) nproc 0
        (wakeup1 (parent_chan (t.proc cur)) t) (rest-wakeup1 (parent_chan (t.proc cur)) t)

not_child_of_adopted :
    (cur init : ℕ) (p q : Proc)
    → cur ≢ init
    → q.parent ≡ adopted init cur p
    → is_child q cur ≡ false
not_child_of_adopted cur init p q h e = ground arith

pub parent-Exited :
    (cur : ℕ) (t t' : Ptable)
    → (t'.proc cur
        ≡ with_parent_state (adopted t.initproc cur (t.proc cur)) ProcState.zombie (t.proc cur))
    → ((j : ℕ) → j < nproc → j ≢ cur → t'.proc j ≡ left_by_exit cur t (t.proc j))
    → (j : ℕ) → j < nproc
    → (t'.proc j).parent ≡ adopted t.initproc cur (t.proc j)
parent-Exited cur t t' own rest j h = elim (ℕ_discrete cur j) [
  | yes same ↦
      subst (λ k. (t'.proc k).parent ≡ adopted t.initproc cur (t.proc k)) same
        (ap (λ (p : Proc). p.parent) own)
  | no other ↦ ap (λ (p : Proc). p.parent) (rest j h (λ e. other (sym e)))
]

wakes_waiter :
    (cur q : ℕ) (t : Ptable)
    → (t.proc cur).parent ≡ some q
    → (t.proc q).state ≡ ProcState.sleeping
    → (t.proc q).chan ≡ slot q
    → is_woken cur t (t.proc q) ≡ true
wakes_waiter cur q t e s c = ground arith

-- `exit` of a process that is not init does not panic, and leaves the table as `Exited` says.
pub exit-Exited :
    (cur : ℕ) (t : Ptable)
    → cur < nproc
    → cur ≢ t.initproc
    → (t' : Ptable) × (exit cur t ≡ ok t') × Exited cur t t'
exit-Exited cur t hc lives = (
  last,
  exit-eq-ok cur t lives,
  record {
    itself = own;
    others = rest;
    counters = counters-looped cur t;
    no_orphans = λ j h.
        not_child_of_adopted cur t.initproc (t.proc j) (last.proc j) lives
          (parent-Exited cur t last own rest j h);
    waiter_woken = λ q h ne e s c.
        ap (λ (p : Proc). p.state) (rest q h ne) ∙ rw (wakes_waiter cur q t e s c) refl;
  },
)
  where
    last : Ptable
    last = modify cur (λ p. record p { state = ProcState.zombie }) (looped cur t)

    own :
        last.proc cur
        ≡ with_parent_state (adopted t.initproc cur (t.proc cur)) ProcState.zombie (t.proc cur)
    own =
        update_self (looped cur t).proc cur
          (record ((looped cur t).proc cur) { state = ProcState.zombie })
        ∙ ap (λ (p : Proc). with_parent_state p.parent ProcState.zombie p)
            (proc-looped cur t cur hc)

    rest : (j : ℕ) → j < nproc → j ≢ cur → last.proc j ≡ left_by_exit cur t (t.proc j)
    rest j h ne =
        update_ne (looped cur t).proc cur
          (record ((looped cur t).proc cur) { state = ProcState.zombie }) j (λ e. ne (sym e))
        ∙ proc-looped cur t j h

module _ {cur : ℕ} {t t' : Ptable} (x : Exited cur t t') where
  pub adopted_lem : (j : ℕ) → j < nproc → (t'.proc j).parent ≡ adopted t.initproc cur (t.proc j)
  adopted_lem j h = parent-Exited cur t t' x.itself x.others j h

  pub same_pid : (j : ℕ) → j < nproc → j ≢ cur → (t'.proc j).pid ≡ (t.proc j).pid
  same_pid j h ne = ap (λ (p : Proc). p.pid) (x.others j h ne)

  pub same_or_woken :
      (j : ℕ)
      → j < nproc
      → j ≢ cur
      → ((t'.proc j).state ≡ (t.proc j).state)
        ⊎ ((t.proc j).state ≡ ProcState.sleeping) × ((t'.proc j).state ≡ ProcState.runnable)
  same_or_woken j h ne =
      let e = ap (λ (p : Proc). p.state) (x.others j h ne) in
      elim (Bool-cases (is_woken cur t (t.proc j))) [
        | inl yes_woken ↦ inr (ground arith, e ∙ rw yes_woken refl)
        | inr not_woken ↦ inl (e ∙ rw not_woken refl)
      ]
