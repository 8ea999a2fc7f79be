-- ===== src/Blocks/Bits.antt =====
-- fs.c: one bit of a bitmap block.
use sys_prog_assessment.Prelude.{
  ℕ, ◌+◌, ◌-◌, ◌/◌, ◌%◌, ◌<◌, ◌≡◌, ◌≢◌, refl, arith, Bool, true, false, not, ◌&&◌, ◌||◌,
  update_self, update_ne, ◌==◌, ltb, if◌then◌else◌, all_below, all_below_sound, ltb→lt, ℕ_discrete,
}
use sys_prog_assessment.Blocks.{mask, test_bit, set_bit, clear_bit}

abbrev bit : ℕ → ℕ → Bool
bit x r = x / mask r % 2 == 1

abbrev same : Bool → Bool → Bool
same true b = b
same false b = not b

-- Over a byte and two places in it: setting a clear bit and clearing a set one change this bit
-- alone, and leave a byte.
abbrev one_bit : ℕ → ℕ → ℕ → Bool
one_bit x r q =
    if bit x r
    then same (bit (x - mask r) q) (not (r == q) && bit x q)
    else same (bit (x + mask r) q) (r == q || bit x q) && ltb (x + mask r) 256

one_bit_table : all_below 256 (λ x. all_below 8 (λ r. all_below 8 (λ q. one_bit x r q))) ≡ true
unfolding all_below
one_bit_table = refl

one_bit_lem : (x r q : ℕ) → x < 256 → r < 8 → q < 8 → one_bit x r q ≡ true
one_bit_lem x r q h k l =
    let row =
      all_below_sound 256 (λ x. all_below 8 (λ r. all_below 8 (λ q. one_bit x r q))) x one_bit_table
        h in
    all_below_sound 8 (λ q. one_bit x r q) q
      (all_below_sound 8 (λ r. all_below 8 (λ q. one_bit x r q)) r row k) l

agree : (a b : Bool) → same a b ≡ true → a ≡ b
agree true b h = cc
agree false b h = ground arith

both : (a b : Bool) → (a && b) ≡ true → (a ≡ true) × (b ≡ true)
both true b h = (refl, h)
both false b h = cc

set_mask :
    (x r q : ℕ)
    → x < 256
    → r < 8
    → q < 8
    → bit x r ≡ false
    → (bit (x + mask r) q ≡ (r == q || bit x q)) × (x + mask r < 256)
set_mask x r q h k l e =
    let t : same (bit (x + mask r) q) (r == q || bit x q) && ltb (x + mask r) 256 ≡ true =
      rw e at (one_bit_lem x r q h k l) in
    let (a, b) = both (same (bit (x + mask r) q) (r == q || bit x q)) (ltb (x + mask r) 256) t in
    (agree (bit (x + mask r) q) (r == q || bit x q) a, ltb→lt (x + mask r) 256 b)

clear_mask :
    (x r q : ℕ)
    → x < 256
    → r < 8
    → q < 8
    → bit x r ≡ true
    → bit (x - mask r) q ≡ (not (r == q) && bit x q)
clear_mask x r q h k l e =
    agree (bit (x - mask r) q) (not (r == q) && bit x q) (rw e at (one_bit_lem x r q h k l))

same_place : (bi bj : ℕ) → bi / 8 ≡ bj / 8 → (bi == bj) ≡ (bi % 8 == bj % 8)
same_place bi bj p = ground arith

other_place : (bi bj : ℕ) → bi / 8 ≢ bj / 8 → (bi == bj) ≡ false
other_place bi bj n = ground arith

pub test_bit-set_bit :
    (f : ℕ → ℕ) (bi bj : ℕ)
    → f (bi / 8) < 256
    → test_bit f bi ≡ false
    → test_bit (set_bit bi f) bj ≡ (bi == bj || test_bit f bj)
unfolding test_bit set_bit
test_bit-set_bit f bi bj h e = elim (ℕ_discrete (bi / 8) (bj / 8)) [
  | yes p ↦
      let (a, b) = set_mask (f (bi / 8)) (bi % 8) (bj % 8) h (omega arith) (omega arith) e in
      rw (same_place bi bj p, ← p, update_self f (bi / 8) (f (bi / 8) + mask (bi % 8))) a
  | no n ↦ rw (other_place bi bj n, update_ne f (bi / 8) (f (bi / 8) + mask (bi % 8)) (bj / 8) n)
]

pub test_bit-clear_bit :
    (f : ℕ → ℕ) (bi bj : ℕ)
    → f (bi / 8) < 256
    → test_bit f bi ≡ true
    → test_bit (clear_bit bi f) bj ≡ (not (bi == bj) && test_bit f bj)
unfolding test_bit clear_bit
test_bit-clear_bit f bi bj h e = elim (ℕ_discrete (bi / 8) (bj / 8)) [
  | yes p ↦
      let a = clear_mask (f (bi / 8)) (bi % 8) (bj % 8) h (omega arith) (omega arith) e in
      rw (same_place bi bj p, ← p, update_self f (bi / 8) (f (bi / 8) - mask (bi % 8))) a
  | no n ↦ rw (other_place bi bj n, update_ne f (bi / 8) (f (bi / 8) - mask (bi % 8)) (bj / 8) n)
]

pub set_bit-lt :
    (f : ℕ → ℕ) (bi i : ℕ)
    → f (bi / 8) < 256
    → test_bit f bi ≡ false
    → f i < 256
    → set_bit bi f i < 256
unfolding test_bit set_bit
set_bit-lt f bi i h e k =
    let (a, b) = set_mask (f (bi / 8)) (bi % 8) (bi % 8) h (omega arith) (omega arith) e in
    ground arith

pub clear_bit-lt : (f : ℕ → ℕ) (bi i : ℕ) → f (bi / 8) < 256 → f i < 256 → clear_bit bi f i < 256
unfolding clear_bit
clear_bit-lt f bi i h k = ground arith
