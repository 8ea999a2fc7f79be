-- ===== src/Blocks/Alloc.antt =====
-- fs.c: balloc and bfree on the bitmap.
use sys_prog_assessment.Prelude.{
  ℕ, ◌/◌, ◌%◌, ◌^◌, ◌<◌, ◌≤◌, ◌∷◌, dec_lt, ◌≡◌, ◌≢◌, refl, arith, Bool, true, false, not, ◌&&◌,
  ◌||◌, update, update_self, update_ne, ◌==◌, inl, inr, ◌∙◌, ap, ◌⊎◌, Bool-cases, ℕ_discrete,
  Outcome, ok, panic,
}
use sys_prog_assessment.Blocks.{
  Superblock, Volume, bblock, bpb, set_bit, clear_bit, zero_block, bzero, in_use, find_free,
  take_block, balloc, bfree,
}
use sys_prog_assessment.Blocks.Bits.{test_bit-set_bit, test_bit-clear_bit, set_bit-lt}
use sys_prog_assessment.Blocks.Find.{find_free-Found, find_free-First}

-- Blocks hold bytes, and the boot block and the blocks of the bitmap are blocks of the disk and marked as in use.
pub record IsVolume (sb : Superblock) (v : Volume) : Type 0 where
  pub size_word : sb.size < 2 ^ 32
  pub boot_inside : 0 < sb.size
  pub boot_marked : in_use sb v 0 ≡ true
  pub bytes : (b i : ℕ) → v.blocks b i < 256
  pub inside : (c : ℕ) → c < sb.size → bblock c sb < sb.size
  pub marked : (c : ℕ) → c < sb.size → in_use sb v (bblock c sb) ≡ true

-- A bit of a bitmap after a change of another block and of one of its own bits.
in_use-set :
    (sb : Superblock) (v : Volume) (b c : ℕ)
    → in_use sb v b ≡ false
    → v.blocks (bblock b sb) (b % bpb / 8) < 256
    → in_use sb
        (record v {
          blocks = update v.blocks (bblock b sb) (set_bit (b % bpb) (v.blocks (bblock b sb)));
        })
        c
      ≡ (b == c || in_use sb v c)
in_use-set sb v b c e h = elim (ℕ_discrete (bblock b sb) (bblock c sb)) [
  | yes p ↦
      let place : (b == c) ≡ (b % bpb == c % bpb) = ground arith in
      rw
        (
          place,
          ← p,
          update_self v.blocks (bblock b sb) (set_bit (b % bpb) (v.blocks (bblock b sb))),
        )
        (test_bit-set_bit (v.blocks (bblock b sb)) (b % bpb) (c % bpb) h e)
  | no n ↦
      let place : (b == c) ≡ false = ground arith in
      rw (
        place,
        update_ne v.blocks (bblock b sb) (set_bit (b % bpb) (v.blocks (bblock b sb))) (bblock c sb)
            n,
      )
]

pub in_use-clear :
    (sb : Superblock) (v : Volume) (b c : ℕ)
    → in_use sb v b ≡ true
    → v.blocks (bblock b sb) (b % bpb / 8) < 256
    → in_use sb
        (record v {
          blocks = update v.blocks (bblock b sb) (clear_bit (b % bpb) (v.blocks (bblock b sb)));
        })
        c
      ≡ (not (b == c) && in_use sb v c)
in_use-clear sb v b c e h = elim (ℕ_discrete (bblock b sb) (bblock c sb)) [
  | yes p ↦
      let place : (b == c) ≡ (b % bpb == c % bpb) = ground arith in
      rw
        (
          place,
          ← p,
          update_self v.blocks (bblock b sb) (clear_bit (b % bpb) (v.blocks (bblock b sb))),
        )
        (test_bit-clear_bit (v.blocks (bblock b sb)) (b % bpb) (c % bpb) h e)
  | no n ↦
      let place : (b == c) ≡ false = ground arith in
      rw (
        place,
        update_ne v.blocks (bblock b sb) (clear_bit (b % bpb) (v.blocks (bblock b sb)))
            (bblock c sb) n,
      )
]

pub bitmap-ne :
    (sb : Superblock) (v : Volume) (b c : ℕ)
    → IsVolume sb v
    → in_use sb v b ≡ false
    → c < sb.size
    → b ≢ bblock c sb
bitmap-ne sb v b c i e h p = cc (rw (← p) at (i.marked c h))

in_use-take_block :
    (sb : Superblock) (v : Volume) (b c : ℕ)
    → IsVolume sb v
    → in_use sb v b ≡ false
    → c < sb.size
    → in_use sb (take_block b sb v) c ≡ (b == c || in_use sb v c)
unfolding take_block bzero
in_use-take_block sb v b c i e h =
    let marked = update v.blocks (bblock b sb) (set_bit (b % bpb) (v.blocks (bblock b sb))) in
    rw (update_ne marked b zero_block (bblock c sb) (bitmap-ne sb v b c i e h))
      (in_use-set sb v b c e (i.bytes (bblock b sb) (b % bpb / 8)))

pub AreBytes-update :
    (f : ℕ → ℕ → ℕ) (b : ℕ) (x : ℕ → ℕ)
    → ((c j : ℕ) → f c j < 256)
    → ((j : ℕ) → x j < 256)
    → (c j : ℕ) → update f b x c j < 256
AreBytes-update f b x h k c j = elim (ℕ_discrete b c) [
  | yes p ↦ rw (← p, update_self f b x) (k j)
  | no n ↦ rw (update_ne f b x c n) (h c j)
]

take_block-IsVolume :
    (sb : Superblock) (v : Volume) (b : ℕ)
    → IsVolume sb v
    → in_use sb v b ≡ false
    → IsVolume sb (take_block b sb v)
take_block-IsVolume sb v b i e = record {
  size_word = i.size_word;
  boot_inside = i.boot_inside;
  boot_marked = rw (in_use-take_block sb v b 0 i e i.boot_inside, i.boot_marked) (ground arith);
  bytes =
      unfold take_block bzero in
      AreBytes-update (update v.blocks (bblock b sb) (set_bit (b % bpb) (v.blocks (bblock b sb)))) b
        zero_block
        (AreBytes-update v.blocks (bblock b sb) (set_bit (b % bpb) (v.blocks (bblock b sb))) i.bytes
          (λ j. set_bit-lt (v.blocks (bblock b sb)) (b % bpb) j (i.bytes _ _) e (i.bytes _ _)))
        (λ j. omega arith);
  inside = i.inside;
  marked = λ c h.
      rw (in_use-take_block sb v b (bblock c sb) i e (i.inside c h), i.marked c h) (ground arith);
}

take_block-zero : (sb : Superblock) (v : Volume) (b : ℕ) → (take_block b sb v).blocks b ≡ zero_block
unfolding take_block bzero
take_block-zero sb v b =
    update_self (update v.blocks (bblock b sb) (set_bit (b % bpb) (v.blocks (bblock b sb)))) b
      zero_block

bfree-eq-ok :
    (b : ℕ) (sb : Superblock) (v : Volume) {v' : Volume}
    → bfree b sb v ≡ ok v'
    → (in_use sb v b ≡ true)
      × (v' ≡ record {
        blocks = update v.blocks (bblock b sb) (clear_bit (b % bpb) (v.blocks (bblock b sb)));
        logged = bblock b sb ∷ v.logged;
      })
unfolding bfree
bfree-eq-ok b sb v h = elim (Bool-cases (in_use sb v b)) [
  | inl e ↦ (e, cc (rw e at h))
  | inr e ↦ cc (rw e at h)
]

pub balloc-eq-ok :
    (sb : Superblock) (v v' : Volume) (b : ℕ)
    → balloc sb v ≡ ok (b, v')
    → (find_free sb.size 0 sb v ≡ ok b) × (v' ≡ take_block b sb v)
unfolding balloc
balloc-eq-ok sb v v' b h = split (find_free sb.size 0 sb v) refl h
  where
    split :
        (r : Outcome ℕ)
        → find_free sb.size 0 sb v ≡ r
        → Path
            (Outcome (ℕ × Volume))
            (elim r [ panic s ↦ panic s | ok c ↦ ok (c, take_block c sb v) ])
            (ok (b, v'))
        → (find_free sb.size 0 sb v ≡ ok b) × (v' ≡ take_block b sb v)
    split (panic s) e k = cc
    split (ok c) e k = let same : c ≡ b = ground arith in (e ∙ ap ok same, ground arith)

-- balloc returns the first block that is not in use, filled with zeroes. Afterwards this block is in
-- use, no other block's mark has changed, and the volume is still in order.
pub balloc_lem :
    (sb : Superblock) (v v' : Volume) (b c : ℕ)
    → IsVolume sb v
    → balloc sb v ≡ ok (b, v')
    → c < sb.size
    → (b < sb.size)
      × (in_use sb v b ≡ false)
      × (in_use sb v' c ≡ (b == c || in_use sb v c))
      × ((b ≤ c) ⊎ (in_use sb v c ≡ true))
      × (v'.blocks b ≡ zero_block)
      × IsVolume sb v'
balloc_lem sb v v' b c i h k =
    let (f, same) = balloc-eq-ok sb v v' b h in
    let (x, y, free) = find_free-Found sb.size 0 sb v f in
    (
      omega (arith, y),
      free,
      rw same (in_use-take_block sb v b c i free k),
      elim (dec_lt c b) [
        | yes l ↦ inr (find_free-First sb.size 0 sb v c f (omega arith) l)
        | no l ↦ inl (omega arith)
      ],
      rw same (take_block-zero sb v b),
      rw same (take_block-IsVolume sb v b i free),
    )

-- bfree of a block in use frees it and changes no other block's mark.
pub bfree_lem :
    (sb : Superblock) (v : Volume) (b c : ℕ)
    → IsVolume sb v
    → in_use sb v b ≡ true
    → (v' : Volume) × (bfree b sb v ≡ ok v') × (in_use sb v' c ≡ (not (b == c) && in_use sb v c))
unfolding bfree
bfree_lem sb v b c i e = (
  record {
    blocks = update v.blocks (bblock b sb) (clear_bit (b % bpb) (v.blocks (bblock b sb)));
    logged = bblock b sb ∷ v.logged;
  },
  rw e,
  in_use-clear sb v b c e (i.bytes (bblock b sb) (b % bpb / 8)),
)

restored :
    (b c : ℕ) (marks : ℕ → Bool) (t : Bool)
    → marks b ≡ false
    → t ≡ (b == c || marks c)
    → (not (b == c) && t) ≡ marks c
restored b c marks t h e = elim (ℕ_discrete b c) [
  | yes p ↦ rw (← p, h) (ground arith)
  | no n ↦ ground arith
]

-- bfree of the block that balloc returned does not panic and brings back every mark.
pub bfree-balloc :
    (sb : Superblock) (v v' : Volume) (b c : ℕ)
    → IsVolume sb v
    → balloc sb v ≡ ok (b, v')
    → c < sb.size
    → (v'' : Volume) × (bfree b sb v' ≡ ok v'') × (in_use sb v'' c ≡ in_use sb v c)
bfree-balloc sb v v' b c i h k =
    let (l, free, mark, first, zeroes, i') = balloc_lem sb v v' b c i h k in
    let (_, _, own, _, _, _) = balloc_lem sb v v' b b i h l in
    let (v'', e, mark') = bfree_lem sb v' b c i' (own ∙ ground arith) in
    (v'', e, mark' ∙ restored b c (in_use sb v) (in_use sb v' c) free mark)
