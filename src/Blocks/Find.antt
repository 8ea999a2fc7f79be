-- ===== src/Blocks/Find.antt =====
-- fs.c: the search of balloc for a free block.
use sys_prog_assessment.Prelude.{
  ℕ, zero, suc, ◌+◌, ◌<◌, ◌≤◌, ◌≡◌, refl, arith, true, false, inl, inr, ◌∙◌, sym, String, ◌↔◌,
  Bool-cases, Outcome-cases, ℕ_discrete, ok, panic,
}
use sys_prog_assessment.Blocks.{Superblock, Volume, in_use, find_free, take_block, balloc}

pub find_free-Found :
    (n b : ℕ) (sb : Superblock) (v : Volume) {r : ℕ}
    → find_free n b sb v ≡ ok r
    → (b ≤ r) × (r < b + n) × (in_use sb v r ≡ false)
unfolding find_free
find_free-Found zero b sb v h = cc
find_free-Found (suc n) b sb v {r = r} h = elim (Bool-cases (in_use sb v b)) [
  | inl e ↦
      let (x, y, z) = find_free-Found n (b + 1) sb v {r = r} (rw e at h) in
      (omega (arith, x), omega (arith, y), z)
  | inr e ↦
      let same : b ≡ r = ground (arith, e) in
      (omega (arith, same), omega (arith, same), rw (← same) e)
]

-- The blocks before the one that is found are in use.
pub find_free-First :
    (n b : ℕ) (sb : Superblock) (v : Volume) {r : ℕ} (c : ℕ)
    → find_free n b sb v ≡ ok r
    → b ≤ c
    → c < r
    → in_use sb v c ≡ true
unfolding find_free
find_free-First zero b sb v c h l k = cc
find_free-First (suc n) b sb v {r = r} c h l k = elim (Bool-cases (in_use sb v b)) [
  | inl e ↦ elim (ℕ_discrete b c) [
    | yes p ↦ rw (← p) e
    | no p ↦ find_free-First n (b + 1) sb v {r = r} c (rw e at h) (omega arith) k
  ]
  | inr e ↦ let same : b ≡ r = ground (arith, e) in absurd (omega (arith, same))
]

pub find_free-Full :
    (n b : ℕ) (sb : Superblock) (v : Volume) {s : String} (c : ℕ)
    → find_free n b sb v ≡ panic s
    → b ≤ c
    → c < b + n
    → in_use sb v c ≡ true
unfolding find_free
find_free-Full zero b sb v c h l k = absurd (omega arith)
find_free-Full (suc n) b sb v {s = s} c h l k = elim (Bool-cases (in_use sb v b)) [
  | inl e ↦ elim (ℕ_discrete b c) [
    | yes p ↦ rw (← p) e
    | no p ↦ find_free-Full n (b + 1) sb v {s = s} c (rw e at h) (omega arith) (omega arith)
  ]
  | inr e ↦ ground (arith, e)
]

find_free-Marked :
    (n b : ℕ) (sb : Superblock) (v : Volume)
    → ((c : ℕ) → b ≤ c → c < b + n → in_use sb v c ≡ true)
    → find_free n b sb v ≡ panic "balloc: out of blocks"
unfolding find_free
find_free-Marked zero b sb v h = refl
find_free-Marked (suc n) b sb v h =
    rw (h b (omega arith) (omega arith))
      (find_free-Marked n (b + 1) sb v (λ c l k. h c (omega arith) (omega arith)))

balloc-panics :
    (sb : Superblock) (v : Volume) {s : String}
    → find_free sb.size 0 sb v ≡ panic s
    → balloc sb v ≡ panic s
unfolding balloc
balloc-panics sb v e = rw (balloc, e)

balloc-returns :
    (sb : Superblock) (v : Volume) {b : ℕ}
    → find_free sb.size 0 sb v ≡ ok b
    → balloc sb v ≡ ok (b, take_block b sb v)
unfolding balloc
balloc-returns sb v e = rw (balloc, e)

-- balloc panics exactly where every block of the disk is in use.
pub balloc-eq-panic :
    (sb : Superblock) (v : Volume)
    → (balloc sb v ≡ panic "balloc: out of blocks") ↔ ((c : ℕ) → c < sb.size → in_use sb v c ≡ true)
balloc-eq-panic sb v = (
  λ h c l. elim (Outcome-cases (find_free sb.size 0 sb v)) [
    | inl (b, e) ↦ cc (sym (balloc-returns sb v e) ∙ h)
    | inr (s, e) ↦ find_free-Full sb.size 0 sb v c e (omega arith) (omega arith)
  ],
  λ h. balloc-panics sb v (find_free-Marked sb.size 0 sb v (λ c l k. h c (omega arith))),
)
