-- ===== src/Log/Header.antt =====
-- The header block holds the list of block numbers: what `write_head` stores is what `read_head`
-- loads, whatever else was in the block.
use sys_prog_assessment.Prelude.{
  ℕ, ◌+◌, ◌<◌, ◌≡◌, refl, ap, ap₂, ◌∙◌, List, [], ◌∷◌, length, update, arith,
}
use sys_prog_assessment.Log.{Block, load_blocks, store_blocks, header_of, header_block}

-- Words below the place of a store stay.
store_blocks_below : (x : Block) (i : ℕ) (bs : List ℕ) (j : ℕ) → j < i → store_blocks x i bs j ≡ x j
unfolding store_blocks
store_blocks_below x i [] j h = refl
store_blocks_below x i (b ∷ bs) j h =
    store_blocks_below (update x i b) (i + 1) bs j (omega arith) ∙ ground arith

load-store :
    (x : Block) (i : ℕ) (bs : List ℕ) → load_blocks (store_blocks x i bs) i (length bs) ≡ bs
unfolding load_blocks store_blocks
load-store x i [] = refl
load-store x i (b ∷ bs) =
    ap₂ ◌∷◌ (store_blocks_below (update x i b) (i + 1) bs i (omega arith) ∙ ground arith)
      (load-store (update x i b) (i + 1) bs)

-- What `write_head` puts into the header block, `read_head` reads back.
pub header_of-header_block : (bs : List ℕ) (x : Block) → header_of (header_block bs x) ≡ bs
unfolding header_of header_block
header_of-header_block bs x =
    let y : Block = update x 0 (length bs) in
    ap (load_blocks (store_blocks y 1 bs) 1) (store_blocks_below y 1 bs 0 (omega arith))
    ∙ load-store y 1 bs
