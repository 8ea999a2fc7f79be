-- ===== src/Log/Overrun.antt =====
-- With the log that mkfs.c makes (nlog is LOGSIZE) admitted operations can overrun the log.
use sys_prog_assessment.Prelude.{
  ℕ, zero, suc, ◌+◌, ◌≡◌, refl, List, [], ◌∷◌, Outcome, ok, panic, Bool, true, get_or, length, ltb,
  arith,
}
use sys_prog_assessment.Log.{
  Log, Begin, admitted, asleep, begin_op, log_write, logsize, maxopblocks,
}
use sys_prog_assessment.Log.Ops.{
  System, begin, write, Reach, start_up, later, idle, may_write, noted,
}
use sys_prog_assessment.Log.Space.{reservation_exceeds_log}

short-may_write : (b : ℕ) (w : List ℕ) → ltb (length w) maxopblocks ≡ true → may_write b w ≡ true
short-may_write b w h = ground arith

-- A state with the steps that lead to it.
record Run (start size : ℕ) : Type 0 where
  last : System
  reach : Reach start size last

module _ {start size : ℕ} where
  run_begin : (r : Run start size) (o : Begin) → begin_op r.last.log ≡ o → Run start size
  run_begin r (admitted l) e = record {
    last = record { log = l; ops = [] ∷ r.last.ops };
    reach = later r.reach (begin e);
  }
  run_begin r asleep e = r

  -- Operation `i` of the list writes block `b`.
  run_write :
      (r : Run start size) (b i : ℕ) (o : Outcome Log)
      → log_write r.last.log b ≡ o
      → (ops : List (List ℕ)) → r.last.ops ≡ ops
      → (allowed : Bool) → may_write b (get_or ops i []) ≡ allowed
      → Run start size
  run_write r b zero (ok l) e (w ∷ ys) f true m = record {
    last = record { log = l; ops = noted b w ∷ ys };
    reach = later r.reach (write [] ys w b f m e);
  }
  run_write r b (suc zero) (ok l) e (u ∷ w ∷ ys) f true m = record {
    last = record { log = l; ops = u ∷ noted b w ∷ ys };
    reach = later r.reach (write (u ∷ []) ys w b f m e);
  }
  run_write r b (suc (suc zero)) (ok l) e (u ∷ v ∷ w ∷ ys) f true m = record {
    last = record { log = l; ops = u ∷ v ∷ noted b w ∷ ys };
    reach = later r.reach (write (u ∷ v ∷ []) ys w b f m e);
  }
  run_write r b _ _ e _ f _ m = r

  begins : ℕ → Run start size → Run start size
  unfolding run_begin
  begins zero r = r
  begins (suc n) r = begins n (run_begin r (begin_op r.last.log) refl)

  -- Operation `i` writes the blocks `b`, `b + 1`, ….
  writes : ℕ → ℕ → ℕ → Run start size → Run start size
  unfolding run_write
  writes zero b i r = r
  writes (suc n) b i r = writes n (b + 1) i (
      run_write r b i (log_write r.last.log b) refl r.last.ops refl
        (may_write b (get_or r.last.ops i [])) refl)

overrun : (start : ℕ) → Run start logsize
overrun start = writes 10 110 2 (
    writes 10 100 1
      (writes 9 120 0 (begins 3 (record { last = idle start logsize; reach = start_up }))))

-- Three admitted operations reach a state of a log of LOGSIZE blocks in which two have written
-- MAXOPBLOCKS blocks and the third one block less; a write of the third, of whatever block, is within
-- its MAXOPBLOCKS, and it panics.
pub reservation_overrun :
    (start b : ℕ)
    → (s : System) × (u : List ℕ) × (v : List ℕ) × (w : List ℕ) × Reach start logsize s
      × (s.ops ≡ w ∷ v ∷ u ∷ [])
      × (length u ≡ maxopblocks)
      × (length v ≡ maxopblocks)
      × (length w + 1 ≡ maxopblocks)
      × (may_write b w ≡ true)
      × (log_write s.log b ≡ panic "too big a transaction")
unfolding overrun begins writes begin_op log_write
reservation_overrun start b = (
  (overrun start).last,
  get_or (overrun start).last.ops 2 [],
  get_or (overrun start).last.ops 1 [],
  get_or (overrun start).last.ops 0 [],
  (overrun start).reach,
  refl,
  refl,
  refl,
  refl,
  short-may_write b (get_or (overrun start).last.ops 0 []) refl,
  reservation_exceeds_log (overrun start).last.log b refl refl,
)
