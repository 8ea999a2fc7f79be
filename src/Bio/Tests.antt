-- ===== src/Bio/Tests.antt =====
-- bio.c: concrete runs on a cache of two buffers.
use sys_prog_assessment.Prelude.{◌≤◌, true, List, [], ◌∷◌, ◌≡◌, refl, ok, panic, some}
use sys_prog_assessment.Bio.{
  Buf, blank_buf, link_bufs, bget, find_cached, recycle, on_buf, buf_at, unlink, drop_ref, brelse,
  binit, holdingsleep, releasesleep,
}
use sys_prog_assessment.Bio.Count.{count}
use sys_prog_assessment.Bio.Pinned.{lookup, bget_keeps}
use sys_prog_assessment.Bio.Unique.{boot, got, dropped, cached_once}

-- Buffer 0 has block 7 of device 1, which the log has made dirty, and buffer 1 is blank.
abbrev pinned : Buf
pinned = record (blank_buf 0) { dev = 1; blockno = 7; valid = true; dirty = true }

abbrev bufs : List Buf
bufs = blank_buf 1 ∷ pinned ∷ []

abbrev fresh : Buf
fresh = record (blank_buf 1) { dev = 1; blockno = 9; refcnt = 1 }

bget_miss : bget 1 9 bufs ≡ ok (fresh, fresh ∷ pinned ∷ [])
unfolding bget find_cached recycle
bget_miss = refl

abbrev crowded : List Buf
crowded = fresh ∷ pinned ∷ []

bget-crowded : bget 1 8 crowded ≡ panic "bget: no buffers"
unfolding bget find_cached recycle
bget-crowded = refl

-- Process 5 releases the buffer, which goes to the front of the list.
brelse_lem :
    brelse 5 0 (fresh ∷ record pinned { refcnt = 1; lock = record { locked = true; pid = 5 } } ∷ [])
    ≡ ok (pinned ∷ fresh ∷ [])
unfolding brelse buf_at on_buf drop_ref unlink holdingsleep releasesleep
brelse_lem = refl

brelse_unheld : brelse 4 1 bufs ≡ panic "brelse"
unfolding brelse buf_at holdingsleep
brelse_unheld = refl

bget_keeps_example : lookup 1 7 crowded ≡ some pinned
unfolding lookup
bget_keeps_example =
    bget_keeps 1 7 1 9 bufs {b = pinned} {r = (fresh, crowded)} bget_miss refl refl refl

-- The first block that is read goes to buffer 0, at the end of the list.
abbrev first : Buf
first = record (blank_buf 0) { dev = 1; blockno = 3; refcnt = 1 }

abbrev booted_bufs : List Buf
unfolding link_bufs
booted_bufs = link_bufs 29 1 (first ∷ [])

bget_boot : bget 1 3 binit ≡ ok (first, booted_bufs)
unfolding bget find_cached recycle binit link_bufs
bget_boot = refl

cached_once_example : count 1 3 (drop_ref 0 booted_bufs) ≤ 1
cached_once_example =
    cached_once (drop_ref 0 booted_bufs) (dropped 0 (got 1 3 boot refl bget_boot)) 1 3 refl
