-- ===== src/Truncate.antt =====
-- fs.c: itrunc, which frees the blocks of a file.
pub mod Free
pub mod Trunc
pub mod Whole
pub mod File
mod Tests
use sys_prog_assessment.Prelude.{
  ℕ, zero, suc, ◌+◌, Bool, true, false, ◌==◌, if◌then◌else◌, Outcome, ok, panic,
}
use sys_prog_assessment.Blocks.{Superblock, Volume, bfree}
use sys_prog_assessment.Blocks.Words.{word_at}
use sys_prog_assessment.Content.{Inode, ndirect, nindirect, set_addr}
use sys_prog_assessment.Readwrite.{iupdate}

-- The first loop, for `n` addresses from `i` on.
unfoldable pub trunc_direct : ℕ → ℕ → Superblock → Inode → Volume → Outcome (Inode × Volume)
trunc_direct zero i sb ip v = ok (ip, v)
trunc_direct (suc n) i sb ip v = elim (ip.addrs i == 0) [
  | true ↦ trunc_direct n (i + 1) sb ip v
  | false ↦ elim (bfree (ip.addrs i) sb v) [
    | panic s ↦ panic s
    | ok v' ↦ trunc_direct n (i + 1) sb (set_addr i 0 ip) v'
  ]
]

-- The loop over `n` words from `j` on of the indirect block with the bytes `a`.
unfoldable pub trunc_words : ℕ → ℕ → (ℕ → ℕ) → Superblock → Volume → Outcome Volume
trunc_words zero j a sb v = ok v
trunc_words (suc n) j a sb v = elim (word_at a j == 0) [
  | true ↦ trunc_words n (j + 1) a sb v
  | false ↦ elim (bfree (word_at a j) sb v) [
    | panic s ↦ panic s
    | ok v' ↦ trunc_words n (j + 1) a sb v'
  ]
]

unfoldable pub trunc_indirect : Superblock → Inode → Volume → Outcome (Inode × Volume)
unfolding trunc_words
trunc_indirect sb ip v =
    if ip.addrs ndirect == 0
    then ok (ip, v)
    else (elim (trunc_words nindirect 0 (v.blocks (ip.addrs ndirect)) sb v) [
      | panic s ↦ panic s
      | ok v' ↦ elim (bfree (ip.addrs ndirect) sb v') [
        | panic s ↦ panic s
        | ok v'' ↦ ok (set_addr ndirect 0 ip, v'')
      ]
    ])

unfoldable pub itrunc : Superblock → Inode → Volume → Outcome (Inode × Volume)
unfolding trunc_direct trunc_indirect
itrunc sb ip v = elim (trunc_direct ndirect 0 sb ip v) [
  | panic s ↦ panic s
  | ok r ↦ elim (trunc_indirect sb r.0 r.1) [
    | panic s ↦ panic s
    | ok t ↦ let ip' = record t.0 { size = 0 } in ok (ip', iupdate sb ip' t.1)
  ]
]
