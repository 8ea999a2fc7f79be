-- ===== src/Proc/Lifecycle.antt =====
-- The functions that make a process, end it, or hand on its children keep the invariant.
use sys_prog_assessment.Prelude.{
  ℕ, ◌+◌, ◌^◌, ◌≤◌, ◌<◌, ◌≡◌, ◌≢◌, refl, sym, ◌∙◌, ap, true, false, Option, none, some, arith, inl,
  inr, ◌⊎◌, subst, ℕ_discrete, u32, ok,
}
use sys_prog_assessment.Proc.{
  Proc, unused, embryo, running, Ptable, nproc, modify, is_unused, slot, find, allocproc,
  fork_child, exit, Waited, sleep, wait,
}
use sys_prog_assessment.Proc.Table.{find-Found}
use sys_prog_assessment.Proc.Wait.{
  Changed, Changed-eq, reaped_slot, waiting_slot, Waits, reaps, no_children, is_killed, sleeps,
  wait-Waits, is_done,
}
use sys_prog_assessment.Proc.Exit.{Exited, exit-Exited, adopted_lem, same_pid, same_or_woken}
use sys_prog_assessment.Proc.Preserve.{sleep-IsValid}
use sys_prog_assessment.Proc.Invariant.{IsValid, live, alive}

module _ {t t' : Ptable} (v : IsValid t) (i : ℕ) (others : (j : ℕ) → i ≢ j → t'.proc j ≡ t.proc j)
    (init : t'.initproc ≡ t.initproc) where
  -- A slot that is not alive is emptied, or gets the next pid.
  pub emptied-IsValid :
      alive (t.proc i).state ≡ false
      → alive (t'.proc i).state ≡ false
      → ((t'.proc i).parent ≡ (t.proc i).parent) ⊎ ((t'.proc i).parent ≡ none)
      → (live (t'.proc i).state ≡ false) × (t.nextpid ≤ t'.nextpid)
        ⊎ ((t'.proc i).pid ≡ t.nextpid) × (t'.nextpid ≡ t.nextpid + 1)
      → t'.nextpid < 2 ^ 31
      → IsValid t'
  emptied-IsValid dead still par fate small = record {
    unique = λ a b ha hb la lb p.
        ground (arith, others a, others b, v.unique a b, v.numbered a, v.numbered b);
    numbered = λ a ha la. ground (arith, others a, v.numbered a, v.counter);
    cared_for = λ a k ha p. ground (arith, others a, others k, v.cared_for a k);
    init_alive = ground (arith, others t.initproc, v.init_alive);
    counter = ground (arith, v.counter);
  }

allocated : Option ℕ → ℕ → Ptable → Ptable
allocated stack i t =
    let t' : Ptable = record (modify i (λ p. record p { state = embryo; pid = t.nextpid }) t) {
      nextpid = u32 (t.nextpid + 1);
    } in
    elim stack [
      | none ↦ modify i (λ p. record p { state = unused }) t'
      | some k ↦ modify i (λ p. record p { kstack = k }) t'
    ]

allocated-IsValid :
    (stack : Option ℕ) (i : ℕ) (t : Ptable)
    → is_unused (t.proc i).state ≡ true
    → t.nextpid + 1 < 2 ^ 31
    → IsValid t
    → IsValid (allocated stack i t)
unfolding allocated
allocated-IsValid none i t h room v =
    emptied-IsValid v i (λ j ne. ground arith) refl (ground arith) (ground arith)
      (inl (ground arith)) (inl (ground arith, omega arith)) (omega arith)
allocated-IsValid (some k) i t h room v =
    emptied-IsValid v i (λ j ne. ground arith) refl (ground arith) (ground arith)
      (inl (ground arith)) (inr (ground arith, omega arith)) (omega arith)

pub allocproc-IsValid :
    (stack : Option ℕ) (t : Ptable)
    → t.nextpid + 1 < 2 ^ 31
    → IsValid t
    → IsValid (allocproc stack t).1
unfolding allocproc
allocproc-IsValid stack t room v = go stack (find nproc 0 (λ p. is_unused p.state) t) refl
  where
    go :
        (stack : Option ℕ) (o : Option ℕ)
        → find nproc 0 (λ p. is_unused p.state) t ≡ o
        → IsValid (allocproc stack t).1
    go stack none e = rw (e, allocproc) v
    go none (some i) e =
        let f = find-Found nproc 0 (λ p. is_unused p.state) t e in
        rw (e, allocproc) (unfold allocated in allocated-IsValid none i t f.passes room v)
    go (some k) (some i) e =
        let f = find-Found nproc 0 (λ p. is_unused p.state) t e in
        rw (e, allocproc) (unfold allocated in allocated-IsValid (some k) i t f.passes room v)

reaped-IsValid :
    (cur i : ℕ) (t t' : Ptable)
    → is_done cur (t.proc i) ≡ true
    → Changed i (reaped_slot (t.proc i)) t t'
    → IsValid t
    → IsValid t'
reaped-IsValid cur i t t' h c v =
    subst IsValid (sym (Changed-eq i (reaped_slot (t.proc i)) t t' c)) (
      emptied-IsValid v i (λ j ne. ground arith) refl (ground arith) (ground arith)
        (inr (ground arith)) (inl (ground arith, omega arith)) (v.counter.1))

slept-IsValid :
    (cur : ℕ) (t t' : Ptable)
    → (t.proc cur).state ≡ running
    → Changed cur (waiting_slot cur (t.proc cur)) t t'
    → IsValid t
    → IsValid t'
slept-IsValid cur t t' h c v =
    subst IsValid (sym (Changed-eq cur (waiting_slot cur (t.proc cur)) t t' c))
      (unfold sleep in sleep-IsValid (slot cur) cur t h v)

pub wait-IsValid :
    (cur : ℕ) (t : Ptable) → (t.proc cur).state ≡ running → IsValid t → IsValid (wait cur t).1
wait-IsValid cur t h v = go (wait-Waits cur t)
  where
    go : {w : Waited × Ptable} → Waits cur t w → IsValid w.1
    go (reaps {t' = t'} i hi done none_before c) = reaped-IsValid cur i t t' done c v
    go (no_children none_at_all) = v
    go (is_killed dead none_done) = v
    go (sleeps {t' = t'} k hk kid none_done lives c) = slept-IsValid cur t t' h c v

pub fork_child-IsValid :
    (cur np : ℕ) (dir : Option ℕ) (t : Ptable)
    → cur < nproc
    → np < nproc
    → (t.proc cur).state ≡ running
    → (t.proc np).state ≡ embryo
    → IsValid t
    → IsValid (fork_child cur np dir t).1
unfolding fork_child
fork_child-IsValid cur np none t hc hn runs unborn v =
    emptied-IsValid v np (λ j ne. ground arith) refl (ground arith) (ground arith)
      (inl (ground arith)) (inl (ground arith, omega arith)) (v.counter.1)
fork_child-IsValid cur np (some d) t hc hn runs unborn v = record {
  unique = λ a b ha hb la lb p. ground (arith, v.unique a b);
  numbered = λ a ha la. ground (arith, v.numbered a);
  cared_for = λ a k ha p. ground (arith, v.cared_for a k);
  init_alive = ground (arith, v.init_alive);
  counter = v.counter;
}

module _ {cur : ℕ} {t t' : Ptable} (x : Exited cur t t') (runs : (t.proc cur).state ≡ running)
    (lives : cur ≢ t.initproc) where
  exited_pid : (j : ℕ) → j < nproc → (t'.proc j).pid ≡ (t.proc j).pid
  exited_pid j h = elim (ℕ_discrete cur j) [
    | yes same ↦
        subst (λ k. (t'.proc k).pid ≡ (t.proc k).pid) same (ap (λ (p : Proc). p.pid) x.itself)
    | no other ↦ same_pid x j h (λ e. other (sym e))
  ]

  exited_live : (j : ℕ) → j < nproc → live (t'.proc j).state ≡ live (t.proc j).state
  exited_live j h = elim (ℕ_discrete cur j) [
    | yes same ↦
        subst (λ k. live (t'.proc k).state ≡ live (t.proc k).state) same
          (ap (λ (p : Proc). live p.state) x.itself ∙ sym (ap live runs))
    | no other ↦ ground (arith, same_or_woken x j h (λ e. other (sym e)))
  ]

  exited_alive : (j : ℕ) → j < nproc → j ≢ cur → alive (t'.proc j).state ≡ alive (t.proc j).state
  exited_alive j h ne = ground (arith, same_or_woken x j h ne)

  exited_cared_for :
      IsValid t
      → (i k : ℕ) → i < nproc
      → (t'.proc i).parent ≡ some k
      → (k < nproc) × (alive (t'.proc k).state ≡ true)
  exited_cared_for v i k h p =
      let (k_in, k_alive, not_cur) : (k < nproc) × (alive (t.proc k).state ≡ true) × (k ≢ cur) =
        ground (arith, adopted_lem x i h, v.cared_for i k, v.init_alive) in
      (k_in, exited_alive k k_in not_cur ∙ k_alive)

  Exited-IsValid : IsValid t → IsValid t'
  Exited-IsValid v = record {
    unique = λ a b ha hb la lb p.
        v.unique a b ha hb (sym (exited_live a ha) ∙ la) (sym (exited_live b hb) ∙ lb)
          (sym (exited_pid a ha) ∙ p ∙ exited_pid b hb);
    numbered =
        λ a ha la. ground (arith, exited_pid a ha, exited_live a ha, v.numbered a, x.counters);
    cared_for = exited_cared_for v;
    init_alive = (
      omega (arith, x.counters.1, v.init_alive.0),
      ap (λ k. alive (t'.proc k).state) x.counters.1
          ∙ exited_alive t.initproc v.init_alive.0 (λ e. lives (sym e))
          ∙ v.init_alive.1,
    );
    counter = ground (arith, x.counters, v.counter);
  }

exit_lives : (cur : ℕ) (t : Ptable) {t' : Ptable} → exit cur t ≡ ok t' → cur ≢ t.initproc
unfolding exit
exit_lives cur t e same = ground arith

ok-injective : {t t' : Ptable} → ok t ≡ ok t' → t ≡ t'
ok-injective e = cc

pub exit-IsValid :
    (cur : ℕ) (t : Ptable) {t' : Ptable}
    → cur < nproc
    → (t.proc cur).state ≡ running
    → exit cur t ≡ ok t'
    → IsValid t
    → IsValid t'
exit-IsValid cur t {t'} hc runs e v =
    let lives = exit_lives cur t e in
    let (t'', returns, x) = exit-Exited cur t hc lives in
    subst IsValid (ok-injective (sym returns ∙ e)) (Exited-IsValid x runs lives v)
