-- ===== src/Icache.antt =====
-- fs.c: the cache of inodes in memory, with iget, idup and iput. A slot is named by its index.
pub mod Unique
mod Tests
use sys_prog_assessment.Prelude.{
  ℕ, zero, suc, ◌+◌, ◌-◌, Bool, true, false, ◌==◌, ltb, ◌&&◌, if◌then◌else◌, Outcome, ok, panic,
  Option, none, some, update,
}
use sys_prog_assessment.Blocks.{Superblock, Volume}
use sys_prog_assessment.Content.{Inode}
use sys_prog_assessment.Readwrite.{iupdate}
use sys_prog_assessment.Truncate.{itrunc}

abbrev pub ninode : ℕ
ninode = 50

-- `struct inode`: what the lock of the cache protects, and the rest in `content`, with the number too.
pub record Slot : Type 0 where
  pub dev : ℕ
  pub ref : ℕ
  pub valid : Bool
  pub content : Inode

-- Whether the slot is in use for the inode.
abbrev pub caches_inode : ℕ → ℕ → Slot → Bool
caches_inode dev inum ip = ltb 0 ip.ref && ip.dev == dev && ip.content.inum == inum

pub data Search : Type 0 where
  cached : ℕ → Search
  absent : Option ℕ → Search

-- `if (empty == 0 && ip->ref == 0) empty = ip;`
abbrev pub remember : Option ℕ → ℕ → Slot → Option ℕ
remember none i ip = if ip.ref == 0 then some i else none
remember (some e) i ip = some e

-- The loop of iget over `n` slots from `i` on.
unfoldable pub search_from : ℕ → ℕ → Option ℕ → ℕ → ℕ → (ℕ → Slot) → Search
search_from zero i empty dev inum slots = absent empty
search_from (suc n) i empty dev inum slots =
    let more = search_from n (i + 1) (remember empty i (slots i)) dev inum slots in
    if caches_inode dev inum (slots i) then cached i else more

abbrev pub add_ref : Slot → Slot
add_ref ip = record ip { ref = ip.ref + 1 }

abbrev pub recycled : ℕ → ℕ → Slot → Slot
recycled dev inum ip = record ip {
  dev = dev;
  ref = 1;
  valid = false;
  content = record ip.content { inum = inum };
}

unfoldable pub iget : ℕ → ℕ → (ℕ → Slot) → Outcome (ℕ × (ℕ → Slot))
unfolding search_from
iget dev inum slots = elim (search_from ninode 0 none dev inum slots) [
  | cached i ↦ ok (i, update slots i (add_ref (slots i)))
  | absent none ↦ panic "iget: no inodes"
  | absent (some i) ↦ ok (i, update slots i (recycled dev inum (slots i)))
]

unfoldable pub idup : ℕ → (ℕ → Slot) → ℕ → Slot
idup i slots = update slots i (add_ref (slots i))

abbrev pub unref : Slot → Slot
unref ip = record ip { ref = ip.ref - 1 }

-- A slot whose inode has been freed on the disk.
abbrev pub invalid : Inode → Slot → Slot
invalid content ip = record ip { valid = false; content = content }

-- iput of a slot that holds a reference, as one step: the source releases icache.lock between the read
-- of `ref` and its decrement. `ref` is not bounded here.
unfoldable pub iput : Superblock → ℕ → (ℕ → Slot) → Volume → Outcome ((ℕ → Slot) × Volume)
iput sb i slots v =
    if (slots i).valid && (slots i).content.nlink == 0 && (slots i).ref == 1
    then (elim (itrunc sb (slots i).content v) [
      | panic e ↦ panic e
      | ok r ↦
          let ip = record r.0 { kind = 0 } in
          ok (update slots i (unref (invalid ip (slots i))), iupdate sb ip r.1)
    ])
    else ok (update slots i (unref (slots i)), v)
