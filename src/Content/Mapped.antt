-- ===== src/Content/Mapped.antt =====
-- fs.c: bmap against the block map that an inode has.
use sys_prog_assessment.Prelude.{
  ℕ, ◌-◌, ◌≤◌, ◌≡◌, ◌≢◌, refl, ap, subst, ◌∙◌, arith, ◌⊎◌, inl, inr, update_self, update_ne, ◌==◌,
  ltb, if◌then◌else◌, ok, Outcome-cases, Bool-cases, ℕ_discrete,
}
use sys_prog_assessment.Blocks.{Superblock, Volume, balloc, log_change}
use sys_prog_assessment.Blocks.Words.{
  word_at, put_word, word_at-put_word_self, word_at-put_word_other, put_word-lt,
}
use sys_prog_assessment.Blocks.Alloc.{IsVolume}
use sys_prog_assessment.Blocks.Data.{
  IsData, balloc-keeps, balloc-IsData, log_change-IsData, log_change-IsVolume,
}
use sys_prog_assessment.Content.{Inode, ndirect, set_addr, ensure, bmap_word}

-- The block that holds the block `bn` of the file, 0 for none.
unfoldable pub mapped : Volume → Inode → ℕ → ℕ
mapped v ip bn =
    if ltb bn ndirect
    then ip.addrs bn
    else (if ip.addrs ndirect == 0 then 0 else word_at (v.blocks (ip.addrs ndirect)) (bn - ndirect))

-- The blocks that an inode lists itself hold data.
abbrev pub IsInode : Superblock → Volume → Inode → Type 0
IsInode sb v ip = (k : ℕ) → k ≤ ndirect → ip.addrs k ≢ 0 → IsData sb v (ip.addrs k)

-- What `ensure` gives: the address that was there, or a new block.
pub data Ensured (sb : Superblock) (a : ℕ) (v : Volume) : ℕ → Volume → Type 0 where
  present : a ≢ 0 → Ensured sb a v a v
  allocated : {b : ℕ} {v' : Volume} → a ≡ 0 → balloc sb v ≡ ok (b, v') → Ensured sb a v b v'

pub ensure-Ensured :
    (sb : Superblock) (a : ℕ) (v : Volume) {b : ℕ} {v' : Volume}
    → ensure sb a v ≡ ok (b, v')
    → Ensured sb a v b v'
unfolding ensure
ensure-Ensured sb a v {b = b} {v' = v'} h = elim (Bool-cases (a == 0)) [
  | inl e ↦ allocated (ground arith) (rw e at h)
  | inr e ↦
      let p : a ≡ b = ground (arith, e) in
      let q : v ≡ v' = ground (arith, e) in
      subst (λ x. Ensured sb a v b x) q (subst (λ x. Ensured sb a v x v) p (present (ground arith)))
]

-- What a step may do to a volume: it stays in order, and its data blocks keep their contents.
pub record Grown (sb : Superblock) (v v' : Volume) : Type 0 where
  pub volume : IsVolume sb v'
  pub kept : (c : ℕ) → IsData sb v c → v'.blocks c ≡ v.blocks c
  pub stays : (c : ℕ) → IsData sb v c → IsData sb v' c

balloc-Grown :
    (sb : Superblock) (v v' : Volume) (b : ℕ)
    → IsVolume sb v
    → balloc sb v ≡ ok (b, v')
    → Grown sb v v'
balloc-Grown sb v v' b i h = record {
  volume = (balloc-IsData sb v v' b i h).2;
  kept = λ c d. (balloc-keeps sb v v' b c i h d).0;
  stays = λ c d. (balloc-keeps sb v v' b c i h d).1;
}

pub Ensured-Grown :
    (sb : Superblock) (a : ℕ) (v : Volume) {b : ℕ} {v' : Volume}
    → IsVolume sb v
    → Ensured sb a v b v'
    → (a ≢ 0 → IsData sb v a)
    → Grown sb v v' × IsData sb v' b × (b ≢ 0)
Ensured-Grown sb a v i (present n) d =
    (record { volume = i; kept = λ c e. refl; stays = λ c e. e }, d n, n)
Ensured-Grown sb a v i (allocated {b = b} {v' = v'} z h) d =
    let (own, n, i') = balloc-IsData sb v v' b i h in (balloc-Grown sb v v' b i h, own, n)

-- What `bmap_word` gives: the word that was there, or a new block whose number it stores.
pub data Listed (sb : Superblock) (at i : ℕ) (v : Volume) : ℕ → Volume → Type 0 where
  listed : {b : ℕ} → word_at (v.blocks at) i ≡ b → b ≢ 0 → Listed sb at i v b v
  added :
      {b : ℕ} {v' : Volume}
      → word_at (v.blocks at) i ≡ 0
      → balloc sb v ≡ ok (b, v')
      → Listed sb at i v b (log_change at (put_word i b (v'.blocks at)) v')

pub bmap_word-Listed :
    (sb : Superblock) (at i : ℕ) (v : Volume) {b : ℕ} {v' : Volume}
    → bmap_word sb at i v ≡ ok (b, v')
    → Listed sb at i v b v'
unfolding bmap_word
bmap_word-Listed sb at i v {b = b} {v' = v'} h = elim (Bool-cases (word_at (v.blocks at) i == 0)) [
  | inl e ↦ elim (Outcome-cases (balloc sb v)) [
    | inl (r, f) ↦
        let p : r.0 ≡ b = cc (rw (e, f) at h) in
        let q : log_change at (put_word i r.0 (r.1.blocks at)) r.1 ≡ v' = cc (rw (e, f) at h) in
        subst (λ x. Listed sb at i v x v') p
          (subst (λ x. Listed sb at i v r.0 x) q (added {b = r.0} {v' = r.1} (ground (arith, e)) f))
    | inr (s, f) ↦ cc (rw (e, f) at h)
  ]
  | inr e ↦
      let p : word_at (v.blocks at) i ≡ b = ground (arith, e) in
      let q : v ≡ v' = ground (arith, e) in
      subst (λ x. Listed sb at i v b x) q (listed p (ground arith))
]

-- After `bmap_word` the word holds the block, and the other words are what they were.
pub record Stored (sb : Superblock) (at i : ℕ) (v : Volume) (b : ℕ) (v' : Volume) : Type 0 where
  pub volume : IsVolume sb v'
  pub stays : (c : ℕ) → IsData sb v c → IsData sb v' c
  pub word : word_at (v'.blocks at) i ≡ b
  pub others : (j : ℕ) → i ≢ j → word_at (v'.blocks at) j ≡ word_at (v.blocks at) j
  pub nonzero : b ≢ 0

pub Listed-Stored :
    (sb : Superblock) (at i : ℕ) (v : Volume) {b : ℕ} {v' : Volume}
    → IsVolume sb v
    → IsData sb v at
    → Listed sb at i v b v'
    → Stored sb at i v b v'
Listed-Stored sb at i v vol d (listed e n) = record {
  volume = vol;
  stays = λ c k. k;
  word = e;
  others = λ j k. refl;
  nonzero = n;
}
Listed-Stored sb at i v vol d (added {b = b} {v' = w} z h) =
    let g = balloc-Grown sb v w b vol h in
    let (own, n, i') = balloc-IsData sb v w b vol h in
    let x : (ℕ → ℕ) = put_word i b (w.blocks at) in
    let at_data = g.stays at d in
    let new : (log_change at x w).blocks at ≡ x = update_self w.blocks at x in
    record {
      volume =
          log_change-IsVolume sb w at x i' at_data
            (λ j. put_word-lt i b (w.blocks at) j (i'.bytes at j));
      stays = λ c k. log_change-IsData sb w at c x at_data (g.stays c k);
      word =
          rw new
            (word_at-put_word_self i b (w.blocks at) (omega (arith, own.within, vol.size_word)));
      others = λ j k.
          rw new
            (word_at-put_word_other i j b (w.blocks at) k ∙ ap (λ y. word_at y j) (g.kept at d));
      nonzero = n;
    }

-- What `bmap` promises for the block `bn` and any other block `k` of the file.
pub record Maps (sb : Superblock) (bn : ℕ) (ip : Inode) (v : Volume) (a : ℕ) (ip' : Inode)
    (v' : Volume) : Type 0 where
  pub volume : IsVolume sb v'
  pub inode : IsInode sb v' ip'
  pub here : mapped v' ip' bn ≡ a
  pub nonzero : a ≢ 0
  pub old : (mapped v ip bn ≡ 0) ⊎ (mapped v ip bn ≡ a)
  pub others : (k : ℕ) → bn ≢ k → mapped v' ip' k ≡ mapped v ip k

-- An inode with one address filled in.
pub set_addr-IsInode :
    (sb : Superblock) (v v' : Volume) (ip : Inode) (i a : ℕ)
    → IsInode sb v ip
    → IsData sb v' a
    → ((c : ℕ) → IsData sb v c → IsData sb v' c)
    → IsInode sb v' (set_addr i a ip)
set_addr-IsInode sb v v' ip i a h d stays k l n = elim (ℕ_discrete i k) [
  | yes p ↦ let e : (set_addr i a ip).addrs k ≡ a = rw (← p) (update_self ip.addrs i a) in rw e d
  | no q ↦
      let e : (set_addr i a ip).addrs k ≡ ip.addrs k = update_ne ip.addrs i a k q in
      rw e (stays (ip.addrs k) (h k l (λ z. n (e ∙ z))))
]
