-- ===== src/Log/Space.antt =====
-- Log space: what `begin_op` reserves is enough for the blocks of the operations it admits, if the
-- log has one block more than LOGSIZE.
use sys_prog_assessment.Prelude.{
  ℕ, ◌+◌, ◌-◌, ◌≤◌, ◌<◌, ◌≡◌, refl, ap, ◌∙◌, Bool, true, false, List, [], ◌∷◌, ◌++◌, length, arith,
  ok, panic, Bool-cases, inl, inr, ◌==◌, All, subst, sym, contains, ltb, if◌then◌else◌, ◌&&◌,
}
use sys_prog_assessment.Log.{
  Log, Machine, maxopblocks, logsize, begin_op, admitted, leave_op, finish_commit, log_write,
  absorb,
}
use sys_prog_assessment.Log.Ops.{
  System, may_write, noted, Step, begin, write, leave, finish, Reach, start_up, later, begin_op_lem,
  log_write_lem, leave_op_lem, finish_commit_lem,
}
use sys_prog_assessment.Log.Room.{
  room, IsLogged, room_split, length_split, room-le, IsLogged-absorb, IsLogged-noted, All-replace,
  All-drop, All-split, write_budget,
}

-- The reservation invariant.
record IsReserved (size : ℕ) (s : System) : Type 0 where
  size_kept : s.log.size ≡ size
  counted : s.log.outstanding ≡ length s.ops
  fits : length s.log.lh + room s.ops ≤ logsize
  each : All (IsLogged s.log.lh) s.ops
  quiet : s.log.committing ≡ true → s.log.outstanding ≡ 0

module _ {size : ℕ} {s : System} (r : IsReserved size s) where
  begin-IsReserved :
      {l : Log}
      → begin_op s.log ≡ admitted l
      → IsReserved size (record { log = l; ops = [] ∷ s.ops })
  unfolding room
  begin-IsReserved e =
      let (idle_log, free, changed) = begin_op_lem s.log e in
      let more = ap (λ (x : Log). x.outstanding) changed in
      let same_lh = ap (λ (x : Log). x.lh) changed in
      record {
        size_kept = ap (λ (x : Log). x.size) changed ∙ r.size_kept;
        counted = omega (arith, more, r.counted);
        fits = omega (arith, room-le s.ops, ap length same_lh, free, r.counted);
        each = ((omega arith, tt), subst (λ lh. All (IsLogged lh) s.ops) (sym same_lh) r.each);
        quiet = λ h. cc (ap (λ (x : Log). x.committing) changed);
      }

  write-IsReserved :
      (xs ys : List (List ℕ)) (w : List ℕ) (b : ℕ) {l : Log}
      → s.ops ≡ xs ++ (w ∷ ys)
      → may_write b w ≡ true
      → log_write s.log b ≡ ok l
      → IsReserved size (record { log = l; ops = xs ++ (noted b w ∷ ys) })
  write-IsReserved xs ys w b e m k =
      let changed = log_write_lem s.log b k in
      let same = ap (λ (x : Log). x.outstanding) changed in
      let same_lh = ap (λ (x : Log). x.lh) changed in
      let all = subst (All (IsLogged s.log.lh)) e r.each in
      let budget = write_budget s.log.lh w b m (All-split (IsLogged s.log.lh) xs ys w all) in
      let total = ap room e ∙ room_split xs ys w in
      let number = ap length e ∙ length_split xs ys w in
      record {
        size_kept = ap (λ (x : Log). x.size) changed ∙ r.size_kept;
        counted = omega (arith, same, r.counted, number, length_split xs ys (noted b w));
        fits =
            omega (arith, r.fits, ap length same_lh, budget, total, room_split xs ys (noted b w));
        each =
            subst (λ lh. All (IsLogged lh) (xs ++ (noted b w ∷ ys))) (sym same_lh)
              (All-replace (λ v. IsLogged-absorb s.log.lh v b) xs ys w (noted b w)
                (IsLogged-noted s.log.lh w b m) all);
        quiet = λ h. same ∙ r.quiet (sym (ap (λ (x : Log). x.committing) changed) ∙ h);
      }

  leave-IsReserved :
      (xs ys : List (List ℕ)) (w : List ℕ) {l : Log} {commits : Bool}
      → s.ops ≡ xs ++ (w ∷ ys)
      → leave_op s.log ≡ ok (l, commits)
      → IsReserved size (record { log = l; ops = xs ++ ys })
  leave-IsReserved xs ys w e k =
      let (size_same, same_lh, fewer, last) = leave_op_lem s.log k in
      let total = ap room e ∙ room_split xs ys w in
      let number = ap length e ∙ length_split xs ys w in
      record {
        size_kept = size_same ∙ r.size_kept;
        counted = omega (arith, fewer, r.counted, number);
        fits = omega (arith, r.fits, ap length same_lh, total);
        each =
            subst (λ lh. All (IsLogged lh) (xs ++ ys)) (sym same_lh)
              (All-drop (λ v h. h) xs ys w (subst (All (IsLogged s.log.lh)) e r.each));
        quiet = last;
      }

  finish-IsReserved :
      (m : Machine)
      → s.log.committing ≡ true
      → IsReserved size (record { log = (finish_commit s.log m).0; ops = s.ops })
  finish-IsReserved m busy =
      let (a, b, c, d) = finish_commit_lem s.log m in
      record {
        size_kept = a ∙ r.size_kept;
        counted = b ∙ r.counted;
        fits = omega (arith, d, r.fits);
        each = nobody (finish_commit s.log m).0.lh s.ops (sym r.counted ∙ r.quiet busy);
        quiet = λ h. cc;
      }
    where
      nobody : (lh : List ℕ) (ws : List (List ℕ)) → length ws ≡ 0 → All (IsLogged lh) ws
      nobody lh [] h = tt
      nobody lh (w ∷ ws) h = absurd (omega (arith, h))

Step-IsReserved : {size : ℕ} {s t : System} → Step s t → IsReserved size s → IsReserved size t
Step-IsReserved (begin e) r = begin-IsReserved r e
Step-IsReserved (write xs ys w b e m k) r = write-IsReserved r xs ys w b e m k
Step-IsReserved (leave xs ys w e k) r = leave-IsReserved r xs ys w e k
Step-IsReserved (finish m c) r = finish-IsReserved r m c

Reach-IsReserved : {start size : ℕ} {s : System} → Reach start size s → IsReserved size s
unfolding room
Reach-IsReserved start_up = record {
  size_kept = refl;
  counted = refl;
  fits = omega arith;
  each = tt;
  quiet = λ h. refl;
}
Reach-IsReserved (later r st) = Step-IsReserved st (Reach-IsReserved r)

leave_op_total :
    (l : Log)
    → l.committing ≡ false
    → (l' : Log) × (commits : Bool) × (leave_op l ≡ ok (l', commits))
unfolding leave_op
leave_op_total l h = elim (Bool-cases (l.outstanding - 1 == 0)) [
  | inl last ↦ (record l { outstanding = l.outstanding - 1; committing = true }, true, ground arith)
  | inr more ↦ (record l { outstanding = l.outstanding - 1 }, false, ground arith)
]

log_write_total :
    (l : Log) (b : ℕ)
    → length l.lh ≤ logsize
    → logsize < l.size
    → 0 < l.outstanding
    → log_write l b ≡ (
        if length l.lh == logsize
        then panic "too big a transaction"
        else ok (record l { lh = absorb l.lh b }))
unfolding log_write
log_write_total l b h g o = ground arith

quiet_log :
    {size : ℕ} {s : System} → IsReserved size s → 0 < s.log.outstanding → s.log.committing ≡ false
quiet_log {s = s} r h = elim (Bool-cases s.log.committing) [
  | inl busy ↦ absurd (omega (arith, r.quiet busy))
  | inr quiet ↦ quiet
]

-- A write of a block that the operation has not written yet finds room in the transaction.
new_fits :
    (n : ℕ) (w : List ℕ) (b : ℕ)
    → may_write b w ≡ true
    → contains b w ≡ false
    → n + (maxopblocks - length w) ≤ logsize
    → (n == logsize) ≡ false
new_fits n w b m new h = let few : ltb (length w) maxopblocks ≡ true = rw new at m in ground arith

-- How far the reservation goes, in every reachable state of a log of more than LOGSIZE blocks in which
-- each operation writes at most MAXOPBLOCKS blocks: a write of a block that its operation has not
-- written yet succeeds; one of a block that it has written succeeds unless the transaction has
-- LOGSIZE blocks, and then `log_write` panics before it looks for the block; and an operation that
-- ends does so without a panic.
pub space_suffices :
    {start size : ℕ} {s : System} (xs ys : List (List ℕ)) (w : List ℕ) (b : ℕ)
    → logsize < size
    → Reach start size s
    → s.ops ≡ xs ++ (w ∷ ys)
    → may_write b w ≡ true
    → (log_write s.log b ≡ (
        if contains b w && length s.log.lh == logsize
        then panic "too big a transaction"
        else ok (record s.log { lh = absorb s.log.lh b })))
      × ((l : Log) × (commits : Bool) × (leave_op s.log ≡ ok (l, commits)))
space_suffices {s = s} xs ys w b big reach e m =
    let r = Reach-IsReserved reach in
    let total = ap room e ∙ room_split xs ys w in
    let number = ap length e ∙ length_split xs ys w in
    let running : 0 < s.log.outstanding = omega (arith, r.counted, number) in
    let written =
      log_write_total s.log b (omega (arith, r.fits)) (omega (arith, r.size_kept)) running in
    (
      elim (Bool-cases (contains b w)) [
        | inl old ↦ rw old written
        | inr new ↦
            let free = new_fits (length s.log.lh) w b m new (omega (arith, r.fits, total)) in
            written ∙ rw (new, free) refl
      ],
      leave_op_total s.log (quiet_log r running),
    )

-- A log of LOGSIZE blocks is one block short of the reservation: with LOGSIZE - 1 blocks in the
-- transaction the next `log_write` panics, although `begin_op` counts LOGSIZE blocks as available.
pub reservation_exceeds_log :
    (l : Log) (b : ℕ)
    → l.size ≡ logsize
    → length l.lh ≡ logsize - 1
    → log_write l b ≡ panic "too big a transaction"
unfolding log_write
reservation_exceeds_log l b h g = ground arith
