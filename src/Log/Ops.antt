-- ===== src/Log/Ops.antt =====
-- Log space: the operations in progress with the blocks that each has written, and the stretches
-- under the log's lock.
use sys_prog_assessment.Prelude.{
  ℕ, ◌+◌, ◌-◌, ◌*◌, ◌≤◌, ◌≡◌, Bool, true, false, List, [], ◌∷◌, ◌++◌, length, contains, ltb, arith,
  ok, ◌||◌, if◌then◌else◌,
}
use sys_prog_assessment.Log.{
  Log, Machine, maxopblocks, logsize, begin_op, admitted, leave_op, finish_commit, commit,
  log_write, absorb,
}

-- The log with its operations in progress: for each the blocks that it has passed to `log_write`.
pub record System : Type 0 where
  pub log : Log
  pub ops : List (List ℕ)

abbrev pub idle : ℕ → ℕ → System
idle start size = record {
  log = record { start = start; size = size; outstanding = 0; committing = false; lh = [] };
  ops = [];
}

-- An operation writes at most MAXOPBLOCKS blocks (param.h), each of them as often as it likes.
abbrev pub may_write : ℕ → List ℕ → Bool
may_write b w = contains b w || ltb (length w) maxopblocks

abbrev pub noted : ℕ → List ℕ → List ℕ
noted b w = if contains b w then w else b ∷ w

-- One stretch under the log's lock, of any operation; or the end of a commit.
pub data Step (s : System) : System → Type 0 where
  begin : {l : Log} → begin_op s.log ≡ admitted l → Step s (record { log = l; ops = [] ∷ s.ops })
  write :
      (xs ys : List (List ℕ)) (w : List ℕ) (b : ℕ) {l : Log}
      → s.ops ≡ xs ++ (w ∷ ys)
      → may_write b w ≡ true
      → log_write s.log b ≡ ok l
      → Step s (record { log = l; ops = xs ++ (noted b w ∷ ys) })
  leave :
      (xs ys : List (List ℕ)) (w : List ℕ) {l : Log} {commits : Bool}
      → s.ops ≡ xs ++ (w ∷ ys)
      → leave_op s.log ≡ ok (l, commits)
      → Step s (record { log = l; ops = xs ++ ys })
  finish :
      (m : Machine)
      → s.log.committing ≡ true
      → Step s (record { log = (finish_commit s.log m).0; ops = s.ops })

pub data Reach (start size : ℕ) : System → Type 0 where
  start_up : Reach start size (idle start size)
  later : {s t : System} → Reach start size s → Step s t → Reach start size t

-- What a successful call says of the log before it, and what it changes.
pub begin_op_lem :
    (l : Log) {l' : Log}
    → begin_op l ≡ admitted l'
    → (l.committing ≡ false)
      × (length l.lh + (l.outstanding + 1) * maxopblocks ≤ logsize)
      × (l' ≡ record l { outstanding = l.outstanding + 1 })
unfolding begin_op
begin_op_lem l e = ground arith

pub log_write_lem :
    (l : Log) (b : ℕ) {l' : Log} → log_write l b ≡ ok l' → l' ≡ record l { lh = absorb l.lh b }
unfolding log_write
log_write_lem l b e = ground arith

pub leave_op_lem :
    (l : Log) {l' : Log} {commits : Bool}
    → leave_op l ≡ ok (l', commits)
    → (l'.size ≡ l.size)
      × (l'.lh ≡ l.lh)
      × (l'.outstanding ≡ l.outstanding - 1)
      × (l'.committing ≡ true → l'.outstanding ≡ 0)
unfolding leave_op
leave_op_lem l e = ground arith

pub finish_commit_lem :
    (l : Log) (m : Machine)
    → ((finish_commit l m).0.size ≡ l.size)
      × ((finish_commit l m).0.outstanding ≡ l.outstanding)
      × ((finish_commit l m).0.committing ≡ false)
      × (length (finish_commit l m).0.lh ≤ length l.lh)
unfolding finish_commit commit
finish_commit_lem l m = ground arith
