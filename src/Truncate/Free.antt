-- ===== src/Truncate/Free.antt =====
-- fs.c: bfree of many blocks.
use sys_prog_assessment.Prelude.{
  ℕ, suc, ◌+◌, ◌/◌, ◌%◌, ◌<◌, ◌≤◌, ◌≡◌, ◌≢◌, refl, sym, ap, ◌∙◌, arith, false, not, ◌&&◌, ◌==◌,
  update_ne, ℕ_discrete, dec_lt, ok,
}
use sys_prog_assessment.Blocks.{
  Superblock, Volume, bblock, bpb, clear_bit, in_use, bfree, log_change,
}
use sys_prog_assessment.Blocks.Bits.{clear_bit-lt}
use sys_prog_assessment.Blocks.Alloc.{IsVolume, AreBytes-update, in_use-clear}
use sys_prog_assessment.Blocks.Data.{IsData}

abbrev pub cleared : ℕ → Superblock → Volume → Volume
cleared b sb v = log_change (bblock b sb) (clear_bit (b % bpb) (v.blocks (bblock b sb))) v

pub bfree-cleared :
    (b : ℕ) (sb : Superblock) (v : Volume) → IsData sb v b → bfree b sb v ≡ ok (cleared b sb v)
unfolding bfree
bfree-cleared b sb v d = rw d.used

module _ (sb : Superblock) (v : Volume) (b : ℕ) (i : IsVolume sb v) (d : IsData sb v b)
    (n : b ≢ 0) where
  pub cleared_mark : (c : ℕ) → in_use sb (cleared b sb v) c ≡ (not (b == c) && in_use sb v c)
  cleared_mark c = in_use-clear sb v b c d.used (i.bytes (bblock b sb) (b % bpb / 8))

  pub cleared_other : (c : ℕ) → b ≢ c → in_use sb (cleared b sb v) c ≡ in_use sb v c
  cleared_other c q = let t : (b == c) ≡ false = ground arith in cleared_mark c ∙ rw t

  pub cleared-IsVolume : IsVolume sb (cleared b sb v)
  cleared-IsVolume = record {
    size_word = i.size_word;
    boot_inside = i.boot_inside;
    boot_marked = cleared_other 0 n ∙ i.boot_marked;
    bytes =
        AreBytes-update v.blocks (bblock b sb) (clear_bit (b % bpb) (v.blocks (bblock b sb)))
          i.bytes
          (λ j.
            clear_bit-lt (v.blocks (bblock b sb)) (b % bpb) j (i.bytes (bblock b sb) (b % bpb / 8))
              (i.bytes (bblock b sb) j));
    inside = i.inside;
    marked = λ c h. cleared_other (bblock c sb) (d.apart c h) ∙ i.marked c h;
  }

  pub cleared-IsData : (c : ℕ) → b ≢ c → IsData sb v c → IsData sb (cleared b sb v) c
  cleared-IsData c q e = record {
    within = e.within;
    used = cleared_other c q ∙ e.used;
    apart = e.apart;
  }

  pub cleared_kept :
      (c : ℕ) → ((a : ℕ) → a < sb.size → c ≢ bblock a sb) → (cleared b sb v).blocks c ≡ v.blocks c
  cleared_kept c h = update_ne v.blocks (bblock b sb) _ c (λ p. h b d.within (sym p))

-- The blocks `f k`, for the `n` indices from `i` on, are free now, and nothing else has changed.
pub record Freed (sb : Superblock) (f : ℕ → ℕ) (i n : ℕ) (v v' : Volume) : Type 0 where
  pub volume : IsVolume sb v'
  pub freed : (k : ℕ) → i ≤ k → k < i + n → f k ≢ 0 → in_use sb v' (f k) ≡ false
  pub others :
      (c : ℕ) → ((k : ℕ) → i ≤ k → k < i + n → f k ≢ 0 → f k ≢ c) → in_use sb v' c ≡ in_use sb v c
  pub stays :
      (c : ℕ) → IsData sb v c → ((k : ℕ) → i ≤ k → k < i + n → f k ≢ 0 → f k ≢ c) → IsData sb v' c
  pub kept : (c : ℕ) → ((a : ℕ) → a < sb.size → c ≢ bblock a sb) → v'.blocks c ≡ v.blocks c

-- Blocks that can be freed one after the other.
pub record CanFree (sb : Superblock) (f : ℕ → ℕ) (i n : ℕ) (v : Volume) : Type 0 where
  pub data_blocks : (k : ℕ) → i ≤ k → k < i + n → f k ≢ 0 → IsData sb v (f k)
  pub distinct : (j k : ℕ) → i ≤ j → j < i + n → i ≤ k → k < i + n → f j ≢ 0 → f j ≡ f k → j ≡ k

pub none-Freed :
    (sb : Superblock) (f : ℕ → ℕ) (i : ℕ) (v : Volume) → IsVolume sb v → Freed sb f i 0 v v
none-Freed sb f i v vol = record {
  volume = vol;
  freed = λ k h l. absurd (omega arith);
  others = λ c h. refl;
  stays = λ c d h. d;
  kept = λ c h. refl;
}

module _ (sb : Superblock) (f : ℕ → ℕ) (i n : ℕ) (v : Volume) (c : CanFree sb f i (suc n) v) where
  pub skip-CanFree : CanFree sb f (i + 1) n v
  skip-CanFree = record {
    data_blocks = λ k h l. c.data_blocks k (omega arith) (omega arith);
    distinct =
        λ j k h l x y. c.distinct j k (omega arith) (omega arith) (omega arith) (omega arith);
  }

  pub skip-Freed : (v' : Volume) → f i ≡ 0 → Freed sb f (i + 1) n v v' → Freed sb f i (suc n) v v'
  skip-Freed v' z g = record {
    volume = g.volume;
    freed = λ k h l q. elim (ℕ_discrete i k) [
      | yes p ↦ absurd (q (ap f (sym p) ∙ z))
      | no p ↦ g.freed k (omega arith) (omega arith) q
    ];
    others = λ b h. g.others b (λ k x y. h k (omega arith) (omega arith));
    stays = λ b d h. g.stays b d (λ k x y. h k (omega arith) (omega arith));
    kept = g.kept;
  }

  -- One block that is freed.
  module _ (vol : IsVolume sb v) (nonzero : f i ≢ 0) where
    here-IsData : IsData sb v (f i)
    here-IsData = c.data_blocks i (omega arith) (omega arith) nonzero

    apart : (k : ℕ) → i + 1 ≤ k → k < i + 1 + n → f i ≢ f k
    apart k h l e =
        let same : i ≡ k =
          c.distinct i k (omega arith) (omega arith) (omega arith) (omega arith) nonzero e in
        omega (arith, same)

    pub step-CanFree : CanFree sb f (i + 1) n (cleared (f i) sb v)
    step-CanFree = record {
      data_blocks = λ k h l q.
          cleared-IsData sb v (f i) vol here-IsData nonzero (f k) (apart k h l)
            (c.data_blocks k (omega arith) (omega arith) q);
      distinct =
          λ j k h l x y. c.distinct j k (omega arith) (omega arith) (omega arith) (omega arith);
    }

    pub step-IsVolume : IsVolume sb (cleared (f i) sb v)
    step-IsVolume = cleared-IsVolume sb v (f i) vol here-IsData nonzero

    pub step-bfree : bfree (f i) sb v ≡ ok (cleared (f i) sb v)
    step-bfree = bfree-cleared (f i) sb v here-IsData

    pub step-Freed :
        (v' : Volume) → Freed sb f (i + 1) n (cleared (f i) sb v) v' → Freed sb f i (suc n) v v'
    step-Freed v' g = record {
      volume = g.volume;
      freed = λ k h l q. elim (ℕ_discrete i k) [
        | yes p ↦
            ap (λ j. in_use sb v' (f j)) (sym p)
            ∙ g.others (f i) (λ j x y w e. apart j x y (sym e))
            ∙ cleared_mark sb v (f i) vol here-IsData nonzero (f i)
            ∙ ground arith
        | no p ↦ g.freed k (omega arith) (omega arith) q
      ];
      others = λ b h.
          g.others b (λ k x y. h k (omega arith) (omega arith))
          ∙ cleared_other sb v (f i) vol here-IsData nonzero b
              (h i (omega arith) (omega arith) nonzero);
      stays = λ b d h.
          g.stays b
            (cleared-IsData sb v (f i) vol here-IsData nonzero b
              (h i (omega arith) (omega arith) nonzero) d)
            (λ k x y. h k (omega arith) (omega arith));
      kept = λ b h. g.kept b h ∙ cleared_kept sb v (f i) vol here-IsData nonzero b h;
    }

-- One run of frees after another.
module _ (sb : Superblock) (f : ℕ → ℕ) (i n m : ℕ) (v w : Volume) (c : CanFree sb f i (n + m) v)
    (g : Freed sb f i n v w) where
  later-apart :
      (k : ℕ)
      → i + n ≤ k
      → k < i + n + m
      → f k ≢ 0
      → (j : ℕ) → i ≤ j
      → j < i + n
      → f j ≢ 0
      → f j ≢ f k
  later-apart k h l q j x y z e =
      let same : j ≡ k =
        c.distinct j k (omega arith) (omega arith) (omega arith) (omega arith) z e in
      omega (arith, same)

  pub later-CanFree : CanFree sb f (i + n) m w
  later-CanFree = record {
    data_blocks = λ k h l q.
        g.stays (f k) (c.data_blocks k (omega arith) (omega arith) q) (later-apart k h l q);
    distinct =
        λ j k h l x y. c.distinct j k (omega arith) (omega arith) (omega arith) (omega arith);
  }

  pub Freed-append : (u : Volume) → Freed sb f (i + n) m w u → Freed sb f i (n + m) v u
  Freed-append u e = record {
    volume = e.volume;
    freed = λ k h l q. elim (dec_lt k (i + n)) [
      | yes a ↦ e.others (f k) (λ j x y z p. later-apart j x y z k h a q (sym p)) ∙ g.freed k h a q
      | no a ↦ e.freed k (omega arith) (omega arith) q
    ];
    others = λ b h.
        e.others b (λ k x y. h k (omega arith) (omega arith))
        ∙ g.others b (λ k x y. h k x (omega arith));
    stays = λ b d h.
        e.stays b (g.stays b d (λ k x y. h k x (omega arith)))
          (λ k x y. h k (omega arith) (omega arith));
    kept = λ b h. e.kept b h ∙ g.kept b h;
  }
