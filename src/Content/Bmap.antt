-- ===== src/Content/Bmap.antt =====
-- fs.c: bmap keeps the block map of an inode and adds to it.
use sys_prog_assessment.Prelude.{
  ℕ, ◌-◌, ◌<◌, ◌≤◌, ◌≡◌, ◌≢◌, refl, sym, ap, ap₂, fun_ext, subst, ◌∙◌, arith, false, ◌⊎◌, inl, inr,
  update_self, update_ne, ◌==◌, ok, panic, dec_lt, ℕ_discrete,
}
use sys_prog_assessment.Blocks.{Superblock, Volume, zero_block}
use sys_prog_assessment.Blocks.Words.{word_at}
use sys_prog_assessment.Blocks.Alloc.{IsVolume, balloc_lem}
use sys_prog_assessment.Content.{Inode, ndirect, maxfile, set_addr, ensure, bmap_word, bmap}
use sys_prog_assessment.Content.Run.{bmap_direct, bmap_indirect, Run, direct_run, indirect_run}
use sys_prog_assessment.Content.Mapped.{
  mapped, IsInode, Ensured, present, allocated, Ensured-Grown, Listed, listed, added, Listed-Stored,
  Maps, set_addr-IsInode,
}

pub mapped-direct : (v : Volume) (ip : Inode) (k : ℕ) → k < ndirect → mapped v ip k ≡ ip.addrs k
unfolding mapped
mapped-direct v ip k h = ground arith

pub mapped-indirect :
    (v : Volume) (ip : Inode) (k a : ℕ)
    → ndirect ≤ k
    → ip.addrs ndirect ≡ a
    → a ≢ 0
    → mapped v ip k ≡ word_at (v.blocks a) (k - ndirect)
unfolding mapped
mapped-indirect v ip k a h e n =
    subst (λ b. mapped v ip k ≡ word_at (v.blocks b) (k - ndirect)) e (ground (arith, e))

pub mapped-none :
    (v : Volume) (ip : Inode) (k : ℕ) → ndirect ≤ k → ip.addrs ndirect ≡ 0 → mapped v ip k ≡ 0
unfolding mapped
mapped-none v ip k h e = ground (arith, e)

direct_old :
    (sb : Superblock) (bn : ℕ) (ip : Inode) (v : Volume) {b : ℕ} {v' : Volume}
    → bn < ndirect
    → Ensured sb (ip.addrs bn) v b v'
    → (mapped v ip bn ≡ 0) ⊎ (mapped v ip bn ≡ b)
direct_old sb bn ip v l (present n) = inr (mapped-direct v ip bn l)
direct_old sb bn ip v l (allocated z e) = inl (mapped-direct v ip bn l ∙ z)

direct-Maps :
    (sb : Superblock) (bn : ℕ) (ip : Inode) (v : Volume) {b : ℕ} {v' : Volume}
    → IsVolume sb v
    → IsInode sb v ip
    → bn < ndirect
    → Ensured sb (ip.addrs bn) v b v'
    → Maps sb bn ip v b (set_addr bn b ip) v'
direct-Maps sb bn ip v {b = b} {v' = v'} i h l e =
    let (g, d, n) = Ensured-Grown sb (ip.addrs bn) v i e (h bn (omega arith)) in
    let far : (set_addr bn b ip).addrs ndirect ≡ ip.addrs ndirect =
      update_ne ip.addrs bn b ndirect (omega arith) in
    record {
      volume = g.volume;
      inode = set_addr-IsInode sb v v' ip bn b h d g.stays;
      here = mapped-direct v' (set_addr bn b ip) bn l ∙ update_self ip.addrs bn b;
      nonzero = n;
      old = direct_old sb bn ip v l e;
      others = λ k q. elim (dec_lt k ndirect) [
        | yes k_direct ↦
            mapped-direct v' (set_addr bn b ip) k k_direct
            ∙ update_ne ip.addrs bn b k q
            ∙ sym (mapped-direct v ip k k_direct)
        | no m ↦ elim (ℕ_discrete (ip.addrs ndirect) 0) [
          | yes z ↦
              mapped-none v' (set_addr bn b ip) k (omega arith) (far ∙ z)
              ∙ sym (mapped-none v ip k (omega arith) z)
          | no z ↦
              mapped-indirect v' (set_addr bn b ip) k (ip.addrs ndirect) (omega arith) far z
              ∙ ap (λ x. word_at x (k - ndirect))
                  (g.kept (ip.addrs ndirect) (h ndirect (omega arith) z))
              ∙ sym (mapped-indirect v ip k (ip.addrs ndirect) (omega arith) refl z)
        ]
      ];
    }

word_at-zero : (i : ℕ) → word_at zero_block i ≡ 0
unfolding word_at
word_at-zero i = refl

-- The words of the indirect block before the new one is stored, against the map of the inode.
pub words-mapped :
    (sb : Superblock) (ip : Inode) (v : Volume) {at : ℕ} {v' : Volume}
    → IsVolume sb v
    → Ensured sb (ip.addrs ndirect) v at v'
    → (k : ℕ) → ndirect ≤ k
    → word_at (v'.blocks at) (k - ndirect) ≡ mapped v ip k
words-mapped sb ip v i (present n) k h = sym (mapped-indirect v ip k (ip.addrs ndirect) h refl n)
words-mapped sb ip v i (allocated {b = b} {v' = v'} z e) k h =
    let (_, _, _, _, zeroes, _) = balloc_lem sb v v' b 0 i e i.boot_inside in
    ap (λ x. word_at x (k - ndirect)) zeroes
    ∙ word_at-zero (k - ndirect)
    ∙ sym (mapped-none v ip k h z)

indirect_old :
    (sb : Superblock) (bn : ℕ) (ip : Inode) (v : Volume) {at b : ℕ} {w v' : Volume}
    → IsVolume sb v
    → ndirect ≤ bn
    → Ensured sb (ip.addrs ndirect) v at w
    → Listed sb at (bn - ndirect) w b v'
    → (mapped v ip bn ≡ 0) ⊎ (mapped v ip bn ≡ b)
indirect_old sb bn ip v i l e (listed p n) = inr (sym (words-mapped sb ip v i e bn l) ∙ p)
indirect_old sb bn ip v i l e (added z f) = inl (sym (words-mapped sb ip v i e bn l) ∙ z)

indirect-Maps :
    (sb : Superblock) (bn : ℕ) (ip : Inode) (v : Volume) {at b : ℕ} {w v' : Volume}
    → IsVolume sb v
    → IsInode sb v ip
    → ndirect ≤ bn
    → Ensured sb (ip.addrs ndirect) v at w
    → Listed sb at (bn - ndirect) w b v'
    → Maps sb bn ip v b (set_addr ndirect at ip) v'
indirect-Maps sb bn ip v {at = at} {b = b} {w = w} {v' = v'} i h l e t =
    let (g, d, n) = Ensured-Grown sb (ip.addrs ndirect) v i e (h ndirect (omega arith)) in
    let s = Listed-Stored sb at (bn - ndirect) w g.volume d t in
    let near : (set_addr ndirect at ip).addrs ndirect ≡ at = update_self ip.addrs ndirect at in
    record {
      volume = s.volume;
      inode =
          set_addr-IsInode sb v v' ip ndirect at h (s.stays at d) (λ c k. s.stays c (g.stays c k));
      here = mapped-indirect v' (set_addr ndirect at ip) bn at l near n ∙ s.word;
      nonzero = s.nonzero;
      old = indirect_old sb bn ip v i l e t;
      others = λ k q. elim (dec_lt k ndirect) [
        | yes k_direct ↦
            mapped-direct v' (set_addr ndirect at ip) k k_direct
            ∙ update_ne ip.addrs ndirect at k (omega arith)
            ∙ sym (mapped-direct v ip k k_direct)
        | no m ↦
            mapped-indirect v' (set_addr ndirect at ip) k at (omega arith) near n
            ∙ s.others (k - ndirect) (omega arith)
            ∙ words-mapped sb ip v i e k (omega arith)
      ];
    }

pub bmap-Maps :
    (sb : Superblock) (bn : ℕ) (ip : Inode) (v : Volume) {a : ℕ} {ip' : Inode} {v' : Volume}
    → IsVolume sb v
    → IsInode sb v ip
    → Run sb bn ip v a ip' v'
    → Maps sb bn ip v a ip' v'
bmap-Maps sb bn ip v i j (direct_run l e) = direct-Maps sb bn ip v i j l e
bmap-Maps sb bn ip v i j (indirect_run l e t) = indirect-Maps sb bn ip v i j l e t

pub bmap_range :
    (sb : Superblock) (bn : ℕ) (ip : Inode) (v : Volume)
    → maxfile ≤ bn
    → bmap sb bn ip v ≡ panic "bmap: out of range"
unfolding bmap
bmap_range sb bn ip v h = ground arith

same_addr : (i : ℕ) (ip : Inode) → set_addr i (ip.addrs i) ip ≡ ip
same_addr i ip =
    ap (λ (f : ℕ → ℕ). record ip { addrs = f })
      (fun_ext (λ k. elim (ℕ_discrete i k) [
        | yes p ↦ rw (← p) (update_self ip.addrs i (ip.addrs i))
        | no n ↦ update_ne ip.addrs i (ip.addrs i) k n
      ]))

ensure-present : (sb : Superblock) (a : ℕ) (v : Volume) → a ≢ 0 → ensure sb a v ≡ ok (a, v)
unfolding ensure
ensure-present sb a v n = ground arith

bmap_word-present :
    (sb : Superblock) (at i : ℕ) (v : Volume)
    → word_at (v.blocks at) i ≢ 0
    → bmap_word sb at i v ≡ ok (word_at (v.blocks at) i, v)
unfolding bmap_word
bmap_word-present sb at i v n =
    let t : (word_at (v.blocks at) i == 0) ≡ false = ground arith in rw t

-- A block that the file has is found without a change of anything.
pub bmap-present :
    (sb : Superblock) (bn : ℕ) (ip : Inode) (v : Volume)
    → bn < maxfile
    → mapped v ip bn ≢ 0
    → bmap sb bn ip v ≡ ok (mapped v ip bn, ip, v)
bmap-present sb bn ip v m n = elim (dec_lt bn ndirect) [
  | yes l ↦
      let e = mapped-direct v ip bn l in
      bmap_direct sb bn ip v l (ensure-present sb (ip.addrs bn) v (λ z. n (e ∙ z)))
      ∙ ap (λ (x : ℕ × Inode). ok (x.0, x.1, v))
          (ap₂ (λ (x : ℕ) (y : Inode). (x, y)) (sym e) (same_addr bn ip))
  | no l ↦ elim (ℕ_discrete (ip.addrs ndirect) 0) [
    | yes z ↦ absurd (n (mapped-none v ip bn (omega arith) z))
    | no z ↦
        let e = mapped-indirect v ip bn (ip.addrs ndirect) (omega arith) refl z in
        bmap_indirect sb bn ip v (omega arith) m (ensure-present sb (ip.addrs ndirect) v z)
          (bmap_word-present sb (ip.addrs ndirect) (bn - ndirect) v (λ w. n (e ∙ w)))
        ∙ ap (λ (x : ℕ × Inode). ok (x.0, x.1, v))
            (ap₂ (λ (x : ℕ) (y : Inode). (x, y)) (sym e) (same_addr ndirect ip))
  ]
]
