-- ===== src/Pipe/Ring.antt =====
-- The representation of a pipe: two 32-bit counters that run on past 2 ^ 32, and the bytes between.
use sys_prog_assessment.Prelude.{
  ℕ, zero, suc, ◌+◌, ◌%◌, ◌^◌, ◌≤◌, ◌<◌, ◌≡◌, refl, ap, ap₂, true, false, ◌⊎◌, List, [], ◌∷◌, ◌++◌,
  length, update, u32, sub_u32, arith,
}
use sys_prog_assessment.Pipe.{Pipe, pipesize, full, empty, put, skip}

-- The number of bytes in the pipe, in `uint` arithmetic.
abbrev pub count : Pipe → ℕ
count p = sub_u32 p.nwrite p.nread

-- The counters are `uint`s, and at most PIPESIZE bytes apart.
pub record IsValid (p : Pipe) : Type 0 where
  pub read_word : p.nread < 2 ^ 32
  pub write_word : p.nwrite < 2 ^ 32
  pub fits : count p ≤ pipesize

-- The `n` bytes from counter `r` on.
unfoldable pub window : (ℕ → ℕ) → ℕ → ℕ → List ℕ
window buf r zero = []
window buf r (suc n) = buf (r % pipesize) ∷ window buf (u32 (r + 1)) n

abbrev pub contents : Pipe → List ℕ
contents p = window p.buf p.nread (count p)

length-window : (buf : ℕ → ℕ) (r n : ℕ) → length (window buf r n) ≡ n
unfolding window
length-window buf r zero = refl
length-window buf r (suc n) = ap suc (length-window buf (u32 (r + 1)) n)

pub length-contents : (p : Pipe) → length (contents p) ≡ count p
length-contents p = length-window p.buf p.nread (count p)

-- A byte written just past a window of fewer than PIPESIZE bytes extends it, also where the counter
-- wraps: PIPESIZE divides 2 ^ 32.
window-update :
    (buf : ℕ → ℕ) (c n r w : ℕ)
    → r < 2 ^ 32
    → n < pipesize
    → w ≡ u32 (r + n)
    → window (update buf (w % pipesize) c) r (suc n) ≡ window buf r n ++ (c ∷ [])
unfolding window
window-update buf c zero r w hr hn e = ground arith
window-update buf c (suc n) r w hr hn e =
    ap₂ ◌∷◌ (ground (arith, apart))
      (window-update buf c n (u32 (r + 1)) w (omega arith) (omega arith) (omega arith))
  where
    apart : (w % pipesize < r % pipesize) ⊎ (r % pipesize < w % pipesize)
    apart = omega arith

count-put :
    (p : Pipe) (c : ℕ)
    → IsValid p
    → full p ≡ false
    → (count (put p c) ≡ suc (count p)) × (count p < pipesize)
unfolding put
count-put p c v h = ground arith

pub contents-put :
    (p : Pipe) (c : ℕ) → IsValid p → full p ≡ false → contents (put p c) ≡ contents p ++ (c ∷ [])
contents-put p c v h = rw ((count-put p c v h).0) (
    unfold put in
    window-update p.buf c (count p) p.nread p.nwrite v.read_word ((count-put p c v h).1)
      (omega arith))

pub put-IsValid : (p : Pipe) (c : ℕ) → IsValid p → full p ≡ false → IsValid (put p c)
unfolding put
put-IsValid p c v h = ground arith

count-skip : (p : Pipe) → IsValid p → empty p ≡ false → count p ≡ suc (count (skip p))
unfolding skip
count-skip p v h = ground arith

pub contents-skip :
    (p : Pipe)
    → IsValid p
    → empty p ≡ false
    → contents p ≡ p.buf (p.nread % pipesize) ∷ contents (skip p)
contents-skip p v h = rw (count-skip p v h) (unfold window skip in refl)

pub skip-IsValid : (p : Pipe) → IsValid p → empty p ≡ false → IsValid (skip p)
unfolding skip
skip-IsValid p v h = ground arith

pub contents_of_empty : (p : Pipe) → IsValid p → empty p ≡ true → contents p ≡ []
contents_of_empty p v h = let e : count p ≡ 0 = ground arith in rw e (unfold window in refl)
