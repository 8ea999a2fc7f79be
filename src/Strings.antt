-- ===== src/Strings.antt =====
-- string.c: the memory is a function from addresses to bytes. Pointers do not wrap: a C program may
-- only step a pointer within one object and one past its end.
pub mod Move
pub mod Copy
pub mod Compare
mod Tests
use sys_prog_assessment.Prelude.{
  ℕ, zero, suc, ◌+◌, ◌-◌, ◌%◌, Bool, true, false, not, ◌&&◌, ◌||◌, update, ◌==◌, ltb, leb,
  if◌then◌else◌,
}

abbrev pub Memory : Type 0
Memory = ℕ → ℕ

-- `stosb`, and `stosl` on whole words: the bytes of a word are all `c & 0xff`.
unfoldable pub store_bytes : ℕ → ℕ → ℕ → Memory → Memory
store_bytes dst c zero m = m
store_bytes dst c (suc n) m = store_bytes (dst + 1) c n (update m dst (c % 256))

unfoldable pub memset : ℕ → ℕ → ℕ → Memory → Memory
unfolding store_bytes
memset dst c n m = store_bytes dst c n m

-- `while (n-- > 0) *d++ = *s++;`
unfoldable pub copy_up : ℕ → ℕ → ℕ → Memory → Memory
copy_up d s zero m = m
copy_up d s (suc n) m = copy_up (d + 1) (s + 1) n (update m d (m s))

-- `while (n-- > 0) *--d = *--s;`, where the pointers start at `d + n` and `s + n`.
unfoldable pub copy_down : ℕ → ℕ → ℕ → Memory → Memory
copy_down d s zero m = m
copy_down d s (suc n) m = copy_down d s n (update m (d + n) (m (s + n)))

unfoldable pub memmove : ℕ → ℕ → ℕ → Memory → Memory
unfolding copy_up copy_down
memmove dst src n m =
    if ltb src dst && ltb dst (src + n) then copy_down dst src n m else copy_up dst src n m

-- The sign and the size of a difference of two bytes.
pub data Difference : Type 0 where
  plus : ℕ → Difference
  minus : ℕ → Difference

abbrev pub difference : ℕ → ℕ → Difference
difference a b = if leb b a then plus (a - b) else minus (b - a)

unfoldable pub memcmp : ℕ → ℕ → ℕ → Memory → Difference
memcmp s1 s2 zero m = plus 0
memcmp s1 s2 (suc n) m =
    let rest = memcmp (s1 + 1) (s2 + 1) n m in
    if m s1 == m s2 then rest else difference (m s1) (m s2)

unfoldable pub strncmp : ℕ → ℕ → ℕ → Memory → Difference
strncmp p q zero m = plus 0
strncmp p q (suc n) m =
    let rest = strncmp (p + 1) (q + 1) n m in
    if not (m p == 0) && m p == m q then rest else difference (m p) (m q)

-- The second loop of `strncpy`.
unfoldable pub pad : ℕ → ℕ → Memory → Memory
pad s zero m = m
pad s (suc n) m = pad (s + 1) n (update m s 0)

unfoldable pub strncpy : ℕ → ℕ → ℕ → Memory → Memory
unfolding pad
strncpy s t zero m = m
strncpy s t (suc n) m =
    let rest = strncpy (s + 1) (t + 1) n (update m s (m t)) in
    if m t == 0 then pad (s + 1) n (update m s (m t)) else rest

-- The loop of `safestrcpy`, with `n` less the byte for the end: the memory, and `s` after it.
unfoldable pub copy_str : ℕ → ℕ → ℕ → Memory → Memory × ℕ
copy_str s t zero m = (m, s)
copy_str s t (suc n) m =
    let rest = copy_str (s + 1) (t + 1) n (update m s (m t)) in
    if m t == 0 then (update m s (m t), s + 1) else rest

unfoldable pub safestrcpy : ℕ → ℕ → ℕ → Memory → Memory
unfolding copy_str
safestrcpy s t zero m = m
safestrcpy s t (suc n) m = let (m', s') = copy_str s t n m in update m' s' 0
