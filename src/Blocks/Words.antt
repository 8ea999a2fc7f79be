-- ===== src/Blocks/Words.antt =====
-- fs.c: the words of a block, `((uint*)bp->data)[i]` on a machine with the low byte first.
use sys_prog_assessment.Prelude.{
  ℕ, ap, ◌∙◌, ◌+◌, ◌*◌, ◌/◌, ◌%◌, ◌^◌, ◌<◌, ◌≡◌, ◌≢◌, arith, true, ◌==◌, if◌then◌else◌,
}

unfoldable pub word_at : (ℕ → ℕ) → ℕ → ℕ
word_at x i = x (4 * i) + 256 * x (4 * i + 1) + 65536 * x (4 * i + 2) + 16777216 * x (4 * i + 3)

-- The byte `k` of a word.
abbrev pub byte_of : ℕ → ℕ → ℕ
byte_of w k =
    if k == 0
    then w % 256
    else (if k == 1
        then w / 256 % 256
        else (if k == 2 then w / 65536 % 256 else w / 16777216 % 256))

unfoldable pub put_word : ℕ → ℕ → (ℕ → ℕ) → ℕ → ℕ
put_word i w x j = if j / 4 == i then byte_of w (j % 4) else x j

put_word-at : (i w : ℕ) (x : ℕ → ℕ) (k : ℕ) → k < 4 → put_word i w x (4 * i + k) ≡ byte_of w k
unfolding put_word
put_word-at i w x k h =
    let here : ((4 * i + k) / 4 == i) ≡ true = ground arith in
    let place : (4 * i + k) % 4 ≡ k = omega arith in rw (here, place)

word_of_bytes :
    (w : ℕ)
    → w < 2 ^ 32
    → w % 256 + 256 * (w / 256 % 256) + 65536 * (w / 65536 % 256) + 16777216 * (w / 16777216 % 256)
      ≡ w
word_of_bytes w h = omega arith

pub word_at-put_word_self : (i w : ℕ) (x : ℕ → ℕ) → w < 2 ^ 32 → word_at (put_word i w x) i ≡ w
unfolding word_at
word_at-put_word_self i w x h =
    let first : put_word i w x (4 * i) ≡ w % 256 =
      ap (put_word i w x) (omega arith) ∙ put_word-at i w x 0 (omega arith) in
    rw
      (
        first,
        put_word-at i w x 1 (omega arith),
        put_word-at i w x 2 (omega arith),
        put_word-at i w x 3 (omega arith),
      )
      (word_of_bytes w h)

pub word_at-put_word_other :
    (i j w : ℕ) (x : ℕ → ℕ) → i ≢ j → word_at (put_word i w x) j ≡ word_at x j
unfolding word_at put_word
word_at-put_word_other i j w x n = ground arith

pub put_word-lt : (i w : ℕ) (x : ℕ → ℕ) (j : ℕ) → x j < 256 → put_word i w x j < 256
unfolding put_word
put_word-lt i w x j h = ground arith
