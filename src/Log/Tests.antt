-- ===== src/Log/Tests.antt =====
-- The theorems on the log at a concrete transaction of two blocks.
use sys_prog_assessment.Prelude.{
  ℕ, ◌≡◌, ◌≢◌, refl, sym, ◌∙◌, ◌⊎◌, inr, true, false, Bool, [], ◌∷◌, contains, update, update_ne,
  get_or, arith, here, there, ok, panic, List, length, ◌+◌,
}
use sys_prog_assessment.Log.{
  Disk, Machine, Log, boot, header_of, commit, log_write, absorb, leave_op, begin_op,
  recover_from_log, logsize, maxopblocks,
}
use sys_prog_assessment.Log.Crash.{IsReady, none, RecoversTo, commit_atomic, commit_durable}
use sys_prog_assessment.Log.Ops.{System, Reach, start_up, later, begin, may_write}
use sys_prog_assessment.Log.Space.{space_suffices}
use sys_prog_assessment.Log.Overrun.{reservation_overrun}

abbrev blank : Disk
blank = λ _ _. 0

-- Blocks 40 and 41 are changed in the cache and in the transaction.
abbrev changed : Disk
changed = update (update blank 40 (λ _. 7)) 41 (λ _. 8)

abbrev machine : Machine
machine = record { cache = changed; disk = blank; images = [] }

abbrev log : Log
log = record { start = 2; size = 31; outstanding = 0; committing = true; lh = 40 ∷ 41 ∷ [] }

ready : IsReady log machine
unfolding header_of
ready = record {
  fits = omega arith;
  at_home = (inr (omega arith), (inr (omega arith), tt));
  empty_header = refl;
  logged = λ b home absent. sym (
      update_ne (update blank 40 (λ _. 7)) 41 (λ _. 8) b (ne41 b absent)
      ∙ update_ne blank 40 (λ _. 7) b (ne40 b absent));
  no_images = refl;
}
  where
    ne41 : (b : ℕ) → contains b (40 ∷ 41 ∷ []) ≡ false → 41 ≢ b
    ne41 b h = ground arith

    ne40 : (b : ℕ) → contains b (40 ∷ 41 ∷ []) ≡ false → 40 ≢ b
    ne40 b h = ground arith

-- A crash after the header and the first of the two blocks are written.
torn : Disk
unfolding commit
torn = get_or (commit log machine).1.images 2 blank

torn_is_torn : (torn 40 0 ≡ 7) × (torn 41 0 ≡ 0)
unfolding torn
torn_is_torn = (refl, refl)

recovered :
    ((recover_from_log 2 (boot torn)).disk 40 0 ≡ 7)
    × ((recover_from_log 2 (boot torn)).disk 41 0 ≡ 8)
unfolding torn recover_from_log
recovered = (refl, refl)

commit_atomic_example : RecoversTo 2 31 torn blank ⊎ RecoversTo 2 31 torn changed
unfolding torn
commit_atomic_example =
    commit_atomic log machine {d = torn} {e = torn} ready (there (there here)) none

commit_durable_example :
    ((commit log machine).0.lh ≡ []) × RecoversTo 2 31 (commit log machine).1.disk changed
commit_durable_example = commit_durable log machine {e = (commit log machine).1.disk} ready none

abbrev one_op : System
one_op = record {
  log = record { start = 2; size = 31; outstanding = 1; committing = false; lh = [] };
  ops = [] ∷ [];
}

one_op_reached : Reach 2 31 one_op
unfolding begin_op
one_op_reached = later start_up (begin refl)

space_suffices_example :
    (log_write one_op.log 40 ≡ ok (record one_op.log { lh = absorb [] 40 }))
    × ((l : Log) × (commits : Bool) × (leave_op one_op.log ≡ ok (l, commits)))
space_suffices_example = space_suffices [] [] [] 40 (omega arith) one_op_reached refl refl

reservation_overrun_example :
    (s : System) × (u : List ℕ) × (v : List ℕ) × (w : List ℕ) × Reach 2 logsize s
    × (s.ops ≡ w ∷ v ∷ u ∷ [])
    × (length u ≡ maxopblocks)
    × (length v ≡ maxopblocks)
    × (length w + 1 ≡ maxopblocks)
    × (may_write 500 w ≡ true)
    × (log_write s.log 500 ≡ panic "too big a transaction")
reservation_overrun_example = reservation_overrun 2 500
