-- ===== src/Proc/Preserve.antt =====
-- The functions that keep every slot alike in what the invariant reads.
use sys_prog_assessment.Prelude.{
  ℕ, ◌≡◌, refl, true, Option, none, some, ◌==◌, if◌then◌else◌, arith, inl, inr, Bool-cases,
}
use sys_prog_assessment.Proc.{
  Proc, sleeping, runnable, running, Ptable, nproc, is_sleeping, is_runnable, Chan, nowhere, wake,
  wakeup1, find, sleep, tidy, kill, schedule, yield,
}
use sys_prog_assessment.Proc.Table.{proc-wakeup1, rest-wakeup1}
use sys_prog_assessment.Proc.Invariant.{IsValid, Alike, Alike-IsValid, modify-IsValid}

wake-Alike : (c : Chan) (p : Proc) → Alike p (wake c p)
wake-Alike c p = ground arith

pub wakeup1-IsValid : (c : Chan) (t : Ptable) → IsValid t → IsValid (wakeup1 c t)
wakeup1-IsValid c t v =
    let (n, e) = rest-wakeup1 c t in
    Alike-IsValid v (λ i hi. rw (proc-wakeup1 c t i hi) (wake-Alike c (t.proc i))) n e

pub sleep-IsValid :
    (c : Chan) (cur : ℕ) (t : Ptable)
    → (t.proc cur).state ≡ running
    → IsValid t
    → IsValid (sleep c cur t)
unfolding sleep
sleep-IsValid c cur t h v =
    modify-IsValid t cur (λ p. record p { chan = c; state = sleeping }) (ground arith) v

pub tidy-IsValid : (cur : ℕ) (t : Ptable) → IsValid t → IsValid (tidy cur t)
unfolding tidy
tidy-IsValid cur t v = modify-IsValid t cur (λ p. record p { chan = nowhere }) (ground arith) v

pub yield-IsValid :
    (cur : ℕ) (t : Ptable) → (t.proc cur).state ≡ running → IsValid t → IsValid (yield cur t)
unfolding yield
yield-IsValid cur t h v = modify-IsValid t cur (λ p. record p { state = runnable }) (ground arith) v

picked : (p : Proc) → is_runnable p.state ≡ true → Alike p (record p { state = running })
picked p h = ground arith

pub schedule-IsValid : (i : ℕ) (t : Ptable) → IsValid t → IsValid (schedule i t)
unfolding schedule
schedule-IsValid i t v = elim (Bool-cases (is_runnable (t.proc i).state)) [
  | inl ready ↦
      rw ready (modify-IsValid t i (λ p. record p { state = running }) (picked (t.proc i) ready) v)
  | inr not_ready ↦ rw not_ready v
]

struck-Alike :
    (p : Proc)
    → Alike p
        (record p { killed = true; state = if is_sleeping p.state then runnable else p.state })
struck-Alike p = ground arith

pub kill-IsValid : (pid : ℕ) (t : Ptable) → IsValid t → IsValid (kill pid t).1
unfolding kill
kill-IsValid pid t v = go (find nproc 0 (λ p. p.pid == pid) t) refl
  where
    go : (o : Option ℕ) → find nproc 0 (λ p. p.pid == pid) t ≡ o → IsValid (kill pid t).1
    go none e = rw (e, kill) v
    go (some i) e =
        rw (e, kill)
          (modify-IsValid t i
            (λ p. record p {
              killed = true;
              state = if is_sleeping p.state then runnable else p.state;
            })
            (struck-Alike (t.proc i)) v)
