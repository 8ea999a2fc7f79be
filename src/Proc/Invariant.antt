-- ===== src/Proc/Invariant.antt =====
-- What holds of the process table in every reachable state: pids are unique, parents are alive.
use sys_prog_assessment.Prelude.{
  ℕ, ◌^◌, ◌<◌, ◌≡◌, refl, sym, ◌∙◌, ap, Bool, true, false, not, some, arith, update, update_self,
  update_ne, subst, ℕ_discrete,
}
use sys_prog_assessment.Proc.{
  Proc, ProcState, sleeping, runnable, running, Ptable, nproc, modify, is_unused,
}

-- The slot holds a process, and one that has not exited and is not being made.
abbrev pub live : ProcState → Bool
live s = not (is_unused s)

abbrev pub alive : ProcState → Bool
alive sleeping = true
alive runnable = true
alive running = true
alive _ = false

pub record IsValid (t : Ptable) : Type 0 where
  pub unique :
      (i j : ℕ)
      → i < nproc
      → j < nproc
      → live (t.proc i).state ≡ true
      → live (t.proc j).state ≡ true
      → (t.proc i).pid ≡ (t.proc j).pid
      → i ≡ j
  pub numbered :
      (i : ℕ)
      → i < nproc
      → live (t.proc i).state ≡ true
      → (0 < (t.proc i).pid) × ((t.proc i).pid < t.nextpid)
  pub cared_for :
      (i k : ℕ)
      → i < nproc
      → (t.proc i).parent ≡ some k
      → (k < nproc) × (alive (t.proc k).state ≡ true)
  pub init_alive : (t.initproc < nproc) × (alive (t.proc t.initproc).state ≡ true)
  pub counter : (0 < t.nextpid) × (t.nextpid < 2 ^ 31)

-- Two slots alike in what the invariant reads.
pub record Alike (p q : Proc) : Type 0 where
  pub same_pid : q.pid ≡ p.pid
  pub same_live : live q.state ≡ live p.state
  pub same_alive : alive q.state ≡ alive p.state
  pub same_parent : q.parent ≡ p.parent

pub Alike-refl : (p : Proc) → Alike p p
Alike-refl p = record { same_pid = refl; same_live = refl; same_alive = refl; same_parent = refl }

-- A change that keeps all slots alike keeps the invariant.
pub Alike-IsValid :
    {t t' : Ptable}
    → IsValid t
    → ((i : ℕ) → i < nproc → Alike (t.proc i) (t'.proc i))
    → t'.nextpid ≡ t.nextpid
    → t'.initproc ≡ t.initproc
    → IsValid t'
Alike-IsValid {t} {t'} v same n e = record {
  unique = λ i j hi hj li lj p.
      v.unique i j hi hj (sym (same i hi).same_live ∙ li) (sym (same j hj).same_live ∙ lj)
        (sym (same i hi).same_pid ∙ p ∙ (same j hj).same_pid);
  numbered = λ i hi li. ground (arith, same i hi, v.numbered i hi);
  cared_for = λ i k hi p.
      let (hk, ak) = v.cared_for i k hi (sym (same i hi).same_parent ∙ p) in
      (hk, (same k hk).same_alive ∙ ak);
  init_alive = (
    omega (arith, e, v.init_alive.0),
    ap (λ k. alive (t'.proc k).state) e
        ∙ (same t.initproc v.init_alive.0).same_alive
        ∙ v.init_alive.1,
  );
  counter = ground (arith, v.counter);
}

-- So does a change of one slot to one alike.
pub modify-IsValid :
    (t : Ptable) (i : ℕ) (f : Proc → Proc)
    → Alike (t.proc i) (f (t.proc i))
    → IsValid t
    → IsValid (modify i f t)
modify-IsValid t i f a v = Alike-IsValid v same refl refl
  where
    same : (j : ℕ) → j < nproc → Alike (t.proc j) ((modify i f t).proc j)
    same j hj = elim (ℕ_discrete i j) [
      | yes here ↦
          subst (λ k. Alike (t.proc k) (update t.proc i (f (t.proc i)) k)) here
            (rw (update_self t.proc i (f (t.proc i))) a)
      | no other ↦ rw (update_ne t.proc i (f (t.proc i)) j other) (Alike-refl (t.proc j))
    ]
