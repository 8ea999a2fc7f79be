-- ===== src/Blocks.antt =====
-- fs.c: blocks of 512 bytes, the bitmap of the blocks in use, and the words in a block. `blocks` is
-- what `bread` returns for a block within a transaction, and `logged` are the calls of log_write,
-- the latest one first.
pub mod Bits
pub mod Words
pub mod Find
pub mod Alloc
pub mod Data
pub mod Sample
mod Tests
use sys_prog_assessment.Prelude.{
  ℕ, zero, suc, ◌+◌, ◌-◌, ◌*◌, ◌/◌, ◌%◌, ◌^◌, Bool, true, false, List, [], ◌∷◌, update, ◌==◌, ltb,
  if◌then◌else◌, Outcome, ok, panic,
}

abbrev pub bsize : ℕ
bsize = 512

abbrev pub bpb : ℕ
bpb = bsize * 8

-- `struct superblock`
pub record Superblock : Type 0 where
  pub size : ℕ
  pub nblocks : ℕ
  pub ninodes : ℕ
  pub nlog : ℕ
  pub logstart : ℕ
  pub inodestart : ℕ
  pub bmapstart : ℕ

pub record Volume : Type 0 where
  pub blocks : ℕ → ℕ → ℕ
  pub logged : List ℕ

abbrev pub bblock : ℕ → Superblock → ℕ
bblock b sb = b / bpb + sb.bmapstart

-- A change of the data of a block with the call of log_write that follows it.
abbrev pub log_change : ℕ → (ℕ → ℕ) → Volume → Volume
log_change b x v = record { blocks = update v.blocks b x; logged = b ∷ v.logged }

-- `1 << r`, for `r` below 8.
abbrev pub mask : ℕ → ℕ
mask zero = 1
mask (suc zero) = 2
mask (suc (suc zero)) = 4
mask (suc (suc (suc zero))) = 8
mask (suc (suc (suc (suc zero)))) = 16
mask (suc (suc (suc (suc (suc zero))))) = 32
mask (suc (suc (suc (suc (suc (suc zero)))))) = 64
mask _ = 128

-- `(bp->data[bi / 8] & m) == 0`, negated.
unfoldable pub test_bit : (ℕ → ℕ) → ℕ → Bool
test_bit x bi = x (bi / 8) / mask (bi % 8) % 2 == 1

-- `|= m`, where the bit is 0.
unfoldable pub set_bit : ℕ → (ℕ → ℕ) → ℕ → ℕ
set_bit bi x = update x (bi / 8) (x (bi / 8) + mask (bi % 8))

-- `&= ~m`, where the bit is 1.
unfoldable pub clear_bit : ℕ → (ℕ → ℕ) → ℕ → ℕ
clear_bit bi x = update x (bi / 8) (x (bi / 8) - mask (bi % 8))

-- `memset` of a block to 0; only the bytes of the block are there.
abbrev pub zero_block : ℕ → ℕ
zero_block i = 0

unfoldable pub bzero : ℕ → Volume → Volume
bzero bno v = log_change bno zero_block v

-- Whether the block `b` is marked as in use.
abbrev pub in_use : Superblock → Volume → ℕ → Bool
in_use sb v b = test_bit (v.blocks (bblock b sb)) (b % bpb)

-- The two loops of `balloc` as one over `b + bi`, for `n` blocks from `b` on.
unfoldable pub find_free : ℕ → ℕ → Superblock → Volume → Outcome ℕ
find_free zero b sb v = panic "balloc: out of blocks"
find_free (suc n) b sb v =
    let rest = find_free n (b + 1) sb v in if in_use sb v b then rest else ok b

-- `balloc` from the free bit on.
unfoldable pub take_block : ℕ → Superblock → Volume → Volume
unfolding set_bit bzero
take_block b sb v =
    bzero b (log_change (bblock b sb) (set_bit (b % bpb) (v.blocks (bblock b sb))) v)

unfoldable pub balloc : Superblock → Volume → Outcome (ℕ × Volume)
unfolding find_free take_block
balloc sb v = elim (find_free sb.size 0 sb v) [
  | panic s ↦ panic s
  | ok b ↦ ok (b, take_block b sb v)
]

unfoldable pub bfree : ℕ → Superblock → Volume → Outcome Volume
unfolding test_bit clear_bit
bfree b sb v =
    if in_use sb v b
    then ok (log_change (bblock b sb) (clear_bit (b % bpb) (v.blocks (bblock b sb))) v)
    else panic "freeing free block"
