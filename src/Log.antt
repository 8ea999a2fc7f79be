-- ===== src/Log.antt =====
-- log.c: the redo log of the file system. A block is its 128 words. `cache` is what `bread` returns
-- for a block and `disk` what the disk holds; a block that log_write pinned is not evicted
-- (bio.c keeps dirty buffers), so the cache never loses a change before `bwrite` puts it on disk.
pub mod Header
pub mod Region
pub mod Install
pub mod Commit
pub mod Crash
pub mod Ops
mod Room
pub mod Space
pub mod Overrun
mod Tests
use sys_prog_assessment.Prelude.{
  ℕ, zero, suc, ◌+◌, ◌-◌, ◌*◌, Bool, true, false, ◌||◌, List, [], ◌∷◌, ◌++◌, length, update, ◌==◌,
  leb, ltb, if◌then◌else◌, Outcome, ok, panic,
}

abbrev pub maxopblocks : ℕ
maxopblocks = 10

abbrev pub logsize : ℕ
logsize = maxopblocks * 3

abbrev pub Block : Type 0
Block = ℕ → ℕ

abbrev pub Disk : Type 0
Disk = ℕ → Block

-- The buffer cache over a disk, with every image that the disk has had since the start, latest
-- first: a crash leaves one of them.
pub record Machine : Type 0 where
  pub cache : Disk
  pub disk : Disk
  pub images : List Disk

-- A reboot has only the disk.
abbrev pub boot : Disk → Machine
boot d = record { cache = d; disk = d; images = [] }

-- A change of the data of a buffer.
abbrev pub modify : ℕ → Block → Machine → Machine
modify b x m = record m { cache = update m.cache b x }

-- `bwrite`
abbrev pub bwrite : ℕ → Machine → Machine
bwrite b m =
    let d : Disk = update m.disk b (m.cache b) in record m { disk = d; images = d ∷ m.images }

-- `struct log` without its lock; `lh` is the array `lh.block` as far as `lh.n`. Each `end_op`
-- follows its `begin_op`, so `outstanding` is not decremented at 0.
pub record Log : Type 0 where
  pub start : ℕ
  pub size : ℕ
  pub outstanding : ℕ
  pub committing : Bool
  pub lh : List ℕ

-- The words of `struct logheader` in a block: `n`, then the block numbers.
pub load_blocks : Block → ℕ → ℕ → List ℕ
load_blocks x i zero = []
load_blocks x i (suc n) = x i ∷ load_blocks x (i + 1) n

pub store_blocks : Block → ℕ → List ℕ → Block
store_blocks x i [] = x
store_blocks x i (b ∷ bs) = store_blocks (update x i b) (i + 1) bs

unfoldable pub header_of : Block → List ℕ
unfolding load_blocks
header_of x = load_blocks x 1 (x 0)

unfoldable pub header_block : List ℕ → Block → Block
unfolding store_blocks
header_block bs x = store_blocks (update x 0 (length bs)) 1 bs

unfoldable pub read_head : ℕ → Machine → List ℕ
unfolding header_of
read_head start m = header_of (m.cache start)

unfoldable pub write_head : ℕ → List ℕ → Machine → Machine
unfolding header_block
write_head start bs m = bwrite start (modify start (header_block bs (m.cache start)) m)

-- The loops over `tail`: the slot `start + tail + 1` is written `slot`.
unfoldable pub install_from : ℕ → List ℕ → Machine → Machine
install_from slot [] m = m
install_from slot (b ∷ bs) m = install_from (slot + 1) bs (bwrite b (modify b (m.cache slot) m))

unfoldable pub write_from : ℕ → List ℕ → Machine → Machine
write_from slot [] m = m
write_from slot (b ∷ bs) m = write_from (slot + 1) bs (bwrite slot (modify slot (m.cache b) m))

unfoldable pub install_trans : ℕ → List ℕ → Machine → Machine
unfolding install_from
install_trans start bs m = install_from (start + 1) bs m

unfoldable pub write_log : ℕ → List ℕ → Machine → Machine
unfolding write_from
write_log start bs m = write_from (start + 1) bs m

unfoldable pub recover_from_log : ℕ → Machine → Machine
unfolding read_head install_trans write_head
recover_from_log start m = write_head start [] (install_trans start (read_head start m) m)

-- The writes of `commit`; afterwards `lh.n` is 0.
unfoldable pub commit_writes : ℕ → List ℕ → Machine → Machine
unfolding write_log write_head install_trans
commit_writes start bs m =
    write_head start [] (install_trans start bs (write_head start bs (write_log start bs m)))

unfoldable pub commit : Log → Machine → Log × Machine
unfolding commit_writes
commit l m =
    if ltb 0 (length l.lh) then (record l { lh = [] }, commit_writes l.start l.lh m) else (l, m)

-- One round of `begin_op`: the operation is admitted, or its process sleeps on the log.
pub data Begin : Type 0 where
  admitted : Log → Begin
  asleep : Begin

unfoldable pub begin_op : Log → Begin
begin_op l =
    if l.committing
    then asleep
    else (if ltb logsize (length l.lh + (l.outstanding + 1) * maxopblocks)
        then asleep
        else admitted (record l { outstanding = l.outstanding + 1 }))

-- `end_op` up to the release of the lock: the log, and `do_commit`. Without a commit the
-- processes that sleep on the log are woken here.
unfoldable pub leave_op : Log → Outcome (Log × Bool)
leave_op l =
    if l.committing
    then panic "log.committing"
    else (if l.outstanding - 1 == 0
        then ok (record l { outstanding = l.outstanding - 1; committing = true }, true)
        else ok (record l { outstanding = l.outstanding - 1 }, false))

-- The rest of `end_op` where it commits.
unfoldable pub finish_commit : Log → Machine → Log × Machine
unfolding commit
finish_commit l m = let (l', m') = commit l m in (record l' { committing = false }, m')

-- `end_op` as a whole, where no other process comes in between.
pub end_op : Log → Machine → Outcome (Log × Machine)
unfolding leave_op finish_commit
end_op l m = elim (leave_op l) [
  | panic s ↦ panic s
  | ok r ↦ if r.1 then ok (finish_commit r.0 m) else ok (r.0, m)
]

-- `initlog`, with `logstart` and `nlog` of the super block.
pub initlog : ℕ → ℕ → Machine → Log × Machine
unfolding recover_from_log
initlog logstart nlog m = (
  record { start = logstart; size = nlog; outstanding = 0; committing = false; lh = [] },
  recover_from_log logstart m,
)

-- Where the block goes in `lh.block`: its old place (absorption), or the end.
unfoldable pub absorb : List ℕ → ℕ → List ℕ
absorb [] b = b ∷ []
absorb (c ∷ cs) b = if c == b then b ∷ cs else c ∷ absorb cs b

unfoldable pub log_write : Log → ℕ → Outcome Log
unfolding absorb
log_write l b =
    if leb logsize (length l.lh) || leb l.size (length l.lh + 1)
    then panic "too big a transaction"
    else (if ltb l.outstanding 1
        then panic "log_write outside of trans"
        else ok (record l { lh = absorb l.lh b }))
