-- ===== src/Proc/Orphans.antt =====
-- The loop of `exit` that passes the children of the process to init and wakes init for the dead ones.
use sys_prog_assessment.Prelude.{
  ℕ, zero, suc, ◌+◌, ◌≤◌, ◌<◌, ◌≡◌, refl, ap, ◌∙◌, Bool, false, ◌&&◌, ◌||◌, some, ◌==◌,
  if◌then◌else◌, leb, ltb, arith,
}
use sys_prog_assessment.Proc.{
  Proc, Ptable, nproc, modify, for_procs, is_child, is_zombie, wake, adopt, slot,
}
use sys_prog_assessment.Proc.Table.{proc-wakeup1, rest-wakeup1}

-- Whether one of the `n` slots from `i` on holds a zombie child of `cur`.
unfoldable pub has_done : ℕ → ℕ → ℕ → Ptable → Bool
has_done zero i cur t = false
has_done (suc n) i cur t =
    (is_child (t.proc i) cur && is_zombie (t.proc i).state) || has_done n (i + 1) cur t

-- A process after the loop has passed it (`here`), or passed a zombie child (`dead`).

abbrev give : ℕ → ℕ → Bool → Proc → Proc
give init cur here p = if here && is_child p cur then record p { parent = some init } else p

abbrev pub turn : ℕ → ℕ → Bool → Bool → Proc → Proc
turn init cur here dead p =
    if dead then wake (slot init) (give init cur here p) else give init cur here p

turn-turn :
    (init cur : ℕ) (h d h' d' : Bool) (p : Proc)
    → turn init cur h' d' (turn init cur h d p) ≡ turn init cur (h || h') (d || d') p
turn-turn init cur h d h' d' p = ground arith

turn_away :
    (init cur : ℕ) (d : Bool) (p : Proc)
    → (is_child (turn init cur false d p) cur && is_zombie (turn init cur false d p).state)
      ≡ (is_child p cur && is_zombie p.state)
turn_away init cur d p = ground arith

pub initproc-adopt : (cur i : ℕ) (t : Ptable) → (adopt cur i t).initproc ≡ t.initproc
unfolding adopt
initproc-adopt cur i t = ground (
  arith,
  (rest-wakeup1 (slot t.initproc) (modify i (λ p. record p { parent = some t.initproc }) t)).1,
)

pub nextpid-adopt : (cur i : ℕ) (t : Ptable) → (adopt cur i t).nextpid ≡ t.nextpid
unfolding adopt
nextpid-adopt cur i t = ground (
  arith,
  (rest-wakeup1 (slot t.initproc) (modify i (λ p. record p { parent = some t.initproc }) t)).0,
)

proc-adopt :
    (cur i : ℕ) (t : Ptable) (j : ℕ)
    → j < nproc
    → (adopt cur i t).proc j
      ≡ turn t.initproc cur
          (i == j)
          (is_child (t.proc i) cur && is_zombie (t.proc i).state)
          (t.proc j)
unfolding adopt
proc-adopt cur i t j h =
    let t' : Ptable = modify i (λ p. record p { parent = some t.initproc }) t in
    ground (arith, proc-wakeup1 (slot t.initproc) t' j h)

pub has_done-ext :
    (n i cur : ℕ) (t u : Ptable)
    → ((k : ℕ)
        → i ≤ k
        → k < i + n
        → (is_child (t.proc k) cur && is_zombie (t.proc k).state)
          ≡ (is_child (u.proc k) cur && is_zombie (u.proc k).state))
    → has_done n i cur t ≡ has_done n i cur u
unfolding has_done
has_done-ext zero i cur t u h = refl
has_done-ext (suc n) i cur t u h =
    rw
      (
        h i (omega arith) (omega arith),
        has_done-ext n (i + 1) cur t u (λ k a b. h k (omega arith) (omega arith)),
      )
      refl

has_done-adopt :
    (n i cur : ℕ) (t : Ptable)
    → i + suc n ≤ nproc
    → has_done n (i + 1) cur (adopt cur i t) ≡ has_done n (i + 1) cur t
has_done-adopt n i cur t l = has_done-ext n (i + 1) cur (adopt cur i t) t (λ k a b.
    let away : (i == k) ≡ false = ground arith in
    let dead = is_child (t.proc i) cur && is_zombie (t.proc i).state in
    let same : (adopt cur i t).proc k ≡ turn t.initproc cur false dead (t.proc k) =
      proc-adopt cur i t k (omega arith) ∙ rw away refl in
    rw same (turn_away t.initproc cur dead (t.proc k)))

-- The loop from slot `i` on, for the next `n` slots.
pub proc-loop :
    (cur n i : ℕ) (t : Ptable) (j : ℕ)
    → i + n ≤ nproc
    → j < nproc
    → (for_procs n i (adopt cur) t).proc j
      ≡ turn t.initproc cur (leb i j && ltb j (i + n)) (has_done n i cur t) (t.proc j)
unfolding for_procs has_done
proc-loop cur zero i t j l h = ground arith
proc-loop cur (suc n) i t j l h =
    let dead = is_child (t.proc i) cur && is_zombie (t.proc i).state in
    let in_range : ((i == j) || (leb (i + 1) j && ltb j (i + 1 + n)))
        ≡ (leb i j && ltb j (i + suc n)) =
      ground arith in
    proc-loop cur n (i + 1) (adopt cur i t) j (omega arith) h
    ∙ rw (has_done-adopt n i cur t l, initproc-adopt cur i t, proc-adopt cur i t j h)
        (turn-turn t.initproc cur (i == j) dead (leb (i + 1) j && ltb j (i + 1 + n))
            (has_done n (i + 1) cur t) (t.proc j)
          ∙ ap (λ b. turn t.initproc cur b (dead || has_done n (i + 1) cur t) (t.proc j)) in_range)
