-- ===== src/Strings/Move.antt =====
-- string.c: memmove and memset.
use sys_prog_assessment.Prelude.{
  ℕ, zero, suc, ◌∙◌, ◌+◌, ◌-◌, ◌%◌, ◌≤◌, ◌⊎◌, ◌≡◌, arith, ◌&&◌, update, ltb, leb, if◌then◌else◌,
  Bool-cases, inl, inr,
}
use sys_prog_assessment.Strings.{Memory, store_bytes, memset, copy_up, copy_down, memmove}

-- What a copy of `n` bytes is to leave: the bytes that the source had before, at the destination.
abbrev pub moved : ℕ → ℕ → ℕ → Memory → ℕ → ℕ
moved dst src n m a = if leb dst a && ltb a (dst + n) then m (src + (a - dst)) else m a

copy_up_lem :
    (d s n : ℕ) (m : Memory) (a : ℕ) → (d ≤ s) ⊎ (s + n ≤ d) → copy_up d s n m a ≡ moved d s n m a
unfolding copy_up
copy_up_lem d s zero m a h = ground arith
copy_up_lem d s (suc n) m a h =
    let rest = copy_up_lem (d + 1) (s + 1) n (update m d (m s)) a (ground arith) in
    rest ∙ ground arith

copy_down_lem : (d s n : ℕ) (m : Memory) (a : ℕ) → s ≤ d → copy_down d s n m a ≡ moved d s n m a
unfolding copy_down
copy_down_lem d s zero m a h = ground arith
copy_down_lem d s (suc n) m a h =
    let rest = copy_down_lem d s n (update m (d + n) (m (s + n))) a h in rest ∙ ground arith

-- For every overlap of the two ranges, memmove leaves at the destination what the source had, and
-- changes no other byte.
pub memmove_lem : (dst src n : ℕ) (m : Memory) (a : ℕ) → memmove dst src n m a ≡ moved dst src n m a
unfolding memmove
memmove_lem dst src n m a = elim (Bool-cases (ltb src dst && ltb dst (src + n))) [
  | inl e ↦ rw (memmove, e) (copy_down_lem dst src n m a (ground arith))
  | inr e ↦ rw (memmove, e) (copy_up_lem dst src n m a (ground arith))
]

-- memset leaves its byte in the range and changes no other byte.
pub memset_lem :
    (dst c n : ℕ) (m : Memory) (a : ℕ)
    → memset dst c n m a ≡ (if leb dst a && ltb a (dst + n) then c % 256 else m a)
unfolding memset store_bytes
memset_lem dst c zero m a = ground arith
memset_lem dst c (suc n) m a =
    let rest = memset_lem (dst + 1) c n (update m dst (c % 256)) a in rest ∙ ground arith
