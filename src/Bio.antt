-- ===== src/Bio.antt =====
-- bio.c: the buffers as the list from `bcache.head.next` on, the most recently used one first, with
-- the sleep locks of sleeplock.c. A buffer keeps its place in the array `bcache.buf` as `index`. The
-- data of a buffer is left out: `bread` and `bwrite` pass it to the disk driver.
pub mod Count
pub mod Unique
pub mod Pinned
mod Tests
use sys_prog_assessment.Prelude.{
  ℕ, zero, suc, ◌+◌, ◌-◌, Bool, true, false, not, ◌&&◌, Option, none, some, List, [], ◌∷◌, u32,
  sub_u32, ◌==◌, if◌then◌else◌, Outcome, ok, panic,
}

-- `struct sleeplock` without the spin lock that guards it.
pub record SleepLock : Type 0 where
  pub locked : Bool
  pub pid : ℕ

abbrev pub initsleeplock : SleepLock
initsleeplock = record { locked = false; pid = 0 }

-- One round of `acquiresleep` by the process `pid`; with `none` it sleeps on the lock.
unfoldable pub acquiresleep : ℕ → SleepLock → Option SleepLock
acquiresleep pid l = if l.locked then none else some (record { locked = true; pid = pid })

unfoldable pub releasesleep : SleepLock → SleepLock
releasesleep l = record { locked = false; pid = 0 }

unfoldable pub holdingsleep : ℕ → SleepLock → Bool
holdingsleep pid l = l.locked && l.pid == pid

-- `struct buf`, with B_VALID and B_DIRTY of `flags`.
pub record Buf : Type 0 where
  pub index : ℕ
  pub dev : ℕ
  pub blockno : ℕ
  pub valid : Bool
  pub dirty : Bool
  pub refcnt : ℕ
  pub lock : SleepLock

-- `param.h`: NBUF
abbrev pub nbuf : ℕ
nbuf = 30

-- A buffer of the array as `binit` finds it, in memory that is all zero.
abbrev pub blank_buf : ℕ → Buf
blank_buf i = record {
  index = i;
  dev = 0;
  blockno = 0;
  valid = false;
  dirty = false;
  refcnt = 0;
  lock = initsleeplock;
}

-- The loop of `binit`, with the rounds that are left: each round puts a buffer at the front.
unfoldable pub link_bufs : ℕ → ℕ → List Buf → List Buf
link_bufs zero i bs = bs
link_bufs (suc n) i bs = link_bufs n (i + 1) (blank_buf i ∷ bs)

unfoldable pub binit : List Buf
unfolding link_bufs
binit = link_bufs nbuf 0 []

abbrev pub caches : ℕ → ℕ → Buf → Bool
caches dev blockno b = b.dev == dev && b.blockno == blockno

abbrev pub reusable : Buf → Bool
reusable b = b.refcnt == 0 && not b.dirty

abbrev pub behind : Buf → Option (Buf × List Buf) → Option (Buf × List Buf)
behind b none = none
behind b (some (r, bs)) = some (r, b ∷ bs)

-- The first loop of `bget`: the buffer that caches the block, and the list.
unfoldable pub find_cached : ℕ → ℕ → List Buf → Option (Buf × List Buf)
find_cached dev blockno [] = none
find_cached dev blockno (b ∷ bs) =
    let rest = find_cached dev blockno bs in
    let b' : Buf = record b { refcnt = u32 (b.refcnt + 1) } in
    if caches dev blockno b then some (b', b' ∷ bs) else behind b rest

-- The second loop of `bget`, which goes from the end of the list to its front.
unfoldable pub recycle : ℕ → ℕ → List Buf → Option (Buf × List Buf)
recycle dev blockno [] = none
recycle dev blockno (b ∷ bs) =
    let b' : Buf = record b {
      dev = dev;
      blockno = blockno;
      valid = false;
      dirty = false;
      refcnt = 1;
    } in
    elim (recycle dev blockno bs) [
      | some r ↦ some (r.0, b ∷ r.1)
      | none ↦ if reusable b then some (b', b' ∷ bs) else none
    ]

-- `bget` up to its call of `acquiresleep`: the buffer that it goes on with, and the list.
unfoldable pub bget : ℕ → ℕ → List Buf → Outcome (Buf × List Buf)
bget dev blockno bs = elim (find_cached dev blockno bs) [
  | some r ↦ ok r
  | none ↦ elim (recycle dev blockno bs) [ some r ↦ ok r | none ↦ panic "bget: no buffers" ]
]

-- A change of the buffer with a given index, where it stands.
unfoldable pub on_buf : ℕ → (Buf → Buf) → List Buf → List Buf
on_buf i f [] = []
on_buf i f (b ∷ bs) = let rest = on_buf i f bs in if b.index == i then f b ∷ bs else b ∷ rest

-- The list without a buffer.
unfoldable pub unlink : ℕ → List Buf → List Buf
unlink i [] = []
unlink i (b ∷ bs) = let rest = unlink i bs in if b.index == i then bs else b ∷ rest

unfoldable pub buf_at : ℕ → List Buf → Option Buf
buf_at i [] = none
buf_at i (b ∷ bs) = let rest = buf_at i bs in if b.index == i then some b else rest

-- The second half of `brelse`, under the lock of the cache.
unfoldable pub drop_ref : ℕ → List Buf → List Buf
unfolding on_buf unlink buf_at
drop_ref i bs = elim (buf_at i bs) [
  | none ↦ bs
  | some b ↦
      let b' : Buf = record b { refcnt = sub_u32 b.refcnt 1 } in
      if b'.refcnt == 0 then b' ∷ unlink i bs else on_buf i (λ _. b') bs
]

-- `brelse` of the buffer with the index `i` by the process `pid`.
unfoldable pub brelse : ℕ → ℕ → List Buf → Outcome (List Buf)
unfolding buf_at holdingsleep releasesleep drop_ref on_buf
brelse pid i bs = elim (buf_at i bs) [
  | none ↦ panic "brelse"
  | some b ↦
      if not (holdingsleep pid b.lock)
      then panic "brelse"
      else ok (drop_ref i (on_buf i (λ b. record b { lock = releasesleep b.lock }) bs))
]
