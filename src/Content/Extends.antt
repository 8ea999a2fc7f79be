-- ===== src/Content/Extends.antt =====
-- fs.c: what bmap does to the blocks of a file and to other data blocks.
use sys_prog_assessment.Prelude.{
  ℕ, ◌-◌, ◌<◌, ◌≤◌, ◌≡◌, ◌≢◌, refl, sym, ◌∙◌, arith, ◌⊎◌, inl, inr, update_self, update_ne,
  ℕ_discrete, false, Bool-cases, ok, dec_lt,
}
use sys_prog_assessment.Blocks.{Superblock, Volume, zero_block, in_use}
use sys_prog_assessment.Blocks.Words.{put_word}
use sys_prog_assessment.Blocks.Alloc.{IsVolume}
use sys_prog_assessment.Blocks.Data.{
  IsData, balloc-keeps, balloc-IsData, balloc-fresh, balloc-zeroes, log_change-IsData,
}
use sys_prog_assessment.Content.{Inode, ndirect, maxfile, set_addr, bmap}
use sys_prog_assessment.Content.Mapped.{
  mapped, IsInode, Ensured, present, allocated, Ensured-Grown, Listed, listed, added,
}
use sys_prog_assessment.Content.Bmap.{
  mapped-direct, mapped-none, words-mapped, bmap-Maps, bmap_range,
}
use sys_prog_assessment.Content.Run.{Run, direct_run, indirect_run, bmap-Run}

-- No data block of the volume has this number.
abbrev pub IsFresh : Superblock → Volume → ℕ → Type 0
IsFresh sb v a = (c : ℕ) → IsData sb v c → c ≢ a

-- The block was there already, or it is a new one full of zeroes.
pub data Origin (sb : Superblock) (bn : ℕ) (ip : Inode) (v : Volume) (a : ℕ) (ip' : Inode)
    (v' : Volume) : Type 0 where
  old_block : mapped v ip bn ≡ a → ip'.addrs ndirect ≡ ip.addrs ndirect → Origin sb bn ip v a ip' v'
  new_block :
      mapped v ip bn ≡ 0
      → IsFresh sb v a
      → v'.blocks a ≡ zero_block
      → IsData sb v' a
      → a ≢ ip'.addrs ndirect
      → Origin sb bn ip v a ip' v'

pub record Extends (sb : Superblock) (bn : ℕ) (ip : Inode) (v : Volume) (a : ℕ) (ip' : Inode)
    (v' : Volume) : Type 0 where
  pub stays : (c : ℕ) → IsData sb v c → IsData sb v' c
  pub kept : (c : ℕ) → IsData sb v c → c ≢ ip.addrs ndirect → v'.blocks c ≡ v.blocks c
  pub origin : Origin sb bn ip v a ip' v'
  pub indirect :
      (ip'.addrs ndirect ≡ ip.addrs ndirect)
      ⊎ ((ip.addrs ndirect ≡ 0) × IsFresh sb v (ip'.addrs ndirect))

pub direct-Extends :
    (sb : Superblock) (bn : ℕ) (ip : Inode) (v : Volume) {b : ℕ} {v' : Volume}
    → IsVolume sb v
    → IsInode sb v ip
    → bn < ndirect
    → Ensured sb (ip.addrs bn) v b v'
    → Extends sb bn ip v b (set_addr bn b ip) v'
direct-Extends sb bn ip v i h l (present n) =
    let far = update_ne ip.addrs bn (ip.addrs bn) ndirect (omega arith) in
    record {
      stays = λ c d. d;
      kept = λ c d n. refl;
      origin = old_block (mapped-direct v ip bn l) far;
      indirect = inl far;
    }
direct-Extends sb bn ip v i h l (allocated {b = b} {v' = v'} z e) =
    let far = update_ne ip.addrs bn b ndirect (omega arith) in
    let (own, n, i') = balloc-IsData sb v v' b i e in
    record {
      stays = λ c d. (balloc-keeps sb v v' b c i e d).1;
      kept = λ c d n. (balloc-keeps sb v v' b c i e d).0;
      origin =
          new_block (mapped-direct v ip bn l ∙ z) (λ c d. balloc-fresh sb v v' b c e d)
            (balloc-zeroes sb v v' b i e) own
            (λ p. elim (ℕ_discrete (ip.addrs ndirect) 0) [
              | yes q ↦ n (p ∙ far ∙ q)
              | no q ↦
                  balloc-fresh sb v v' b (ip.addrs ndirect) e (h ndirect (omega arith) q)
                    (sym (p ∙ far))
            ]);
      indirect = inl far;
    }

-- The indirect block: there already, or new.
indirect-Fresh :
    (sb : Superblock) (ip : Inode) (v : Volume) {at : ℕ} {w : Volume}
    → Ensured sb (ip.addrs ndirect) v at w
    → (at ≡ ip.addrs ndirect) ⊎ ((ip.addrs ndirect ≡ 0) × IsFresh sb v at)
indirect-Fresh sb ip v (present n) = inl refl
indirect-Fresh sb ip v (allocated {b = b} {v' = v'} z e) =
    inr (z, λ c d. balloc-fresh sb v v' b c e d)

indirect-kept :
    (sb : Superblock) (ip : Inode) (v : Volume) {at : ℕ} {w : Volume} (c : ℕ)
    → Ensured sb (ip.addrs ndirect) v at w
    → IsData sb v c
    → c ≢ ip.addrs ndirect
    → c ≢ at
indirect-kept sb ip v c e d n p = elim (indirect-Fresh sb ip v e) [
  | inl q ↦ n (p ∙ q)
  | inr (z, f) ↦ f c d p
]

pub indirect-Extends :
    (sb : Superblock) (bn : ℕ) (ip : Inode) (v : Volume) {at b : ℕ} {w v' : Volume}
    → IsVolume sb v
    → IsInode sb v ip
    → ndirect ≤ bn
    → Ensured sb (ip.addrs ndirect) v at w
    → Listed sb at (bn - ndirect) w b v'
    → Extends sb bn ip v b (set_addr ndirect at ip) v'
indirect-Extends sb bn ip v {at = at} {w = w} i h l e (listed {b = b} f n) =
    let (g, d, m) = Ensured-Grown sb (ip.addrs ndirect) v i e (h ndirect (omega arith)) in
    let near : (set_addr ndirect at ip).addrs ndirect ≡ at = update_self ip.addrs ndirect at in
    let was = sym (words-mapped sb ip v i e bn l) ∙ f in
    record {
      stays = g.stays;
      kept = λ c k q. g.kept c k;
      origin = old_block was (elim (indirect-Fresh sb ip v e) [
        | inl q ↦ near ∙ q
        | inr (z, q) ↦ absurd (n (sym was ∙ mapped-none v ip bn l z))
      ]);
      indirect = elim (indirect-Fresh sb ip v e) [
        | inl q ↦ inl (near ∙ q)
        | inr (z, q) ↦ inr (z, λ c k p. q c k (p ∙ near))
      ];
    }
indirect-Extends sb bn ip v {at = at} {w = w} i h l e (added {b = b} {v' = u} f k) =
    let (g, d, m) = Ensured-Grown sb (ip.addrs ndirect) v i e (h ndirect (omega arith)) in
    let near : (set_addr ndirect at ip).addrs ndirect ≡ at = update_self ip.addrs ndirect at in
    let (own, n, i') = balloc-IsData sb w u b g.volume k in
    let x : (ℕ → ℕ) = put_word (bn - ndirect) b (u.blocks at) in
    let at_data = (balloc-keeps sb w u b at g.volume k d).1 in
    let apart : b ≢ at = λ p. balloc-fresh sb w u b at k d (sym p) in
    record {
      stays = λ c j.
          log_change-IsData sb u at c x at_data
            ((balloc-keeps sb w u b c g.volume k (g.stays c j)).1);
      kept = λ c j q.
          update_ne u.blocks at x c (λ p. indirect-kept sb ip v c e j q (sym p))
          ∙ (balloc-keeps sb w u b c g.volume k (g.stays c j)).0
          ∙ g.kept c j;
      origin =
          new_block (sym (words-mapped sb ip v i e bn l) ∙ f)
            (λ c j. balloc-fresh sb w u b c k (g.stays c j))
            (update_ne u.blocks at x b (λ p. apart (sym p)) ∙ balloc-zeroes sb w u b g.volume k)
            (log_change-IsData sb u at b x at_data own) (λ p. apart (p ∙ near));
      indirect = elim (indirect-Fresh sb ip v e) [
        | inl q ↦ inl (near ∙ q)
        | inr (z, q) ↦ inr (z, λ c j p. q c j (p ∙ near))
      ];
    }

pub bmap-Extends :
    (sb : Superblock) (bn : ℕ) (ip : Inode) (v : Volume) {a : ℕ} {ip' : Inode} {v' : Volume}
    → IsVolume sb v
    → IsInode sb v ip
    → Run sb bn ip v a ip' v'
    → Extends sb bn ip v a ip' v'
bmap-Extends sb bn ip v i j (direct_run l e) = direct-Extends sb bn ip v i j l e
bmap-Extends sb bn ip v i j (indirect_run l e t) = indirect-Extends sb bn ip v i j l e t

unmarked :
    (sb : Superblock) (v v' : Volume) (a : ℕ)
    → IsFresh sb v a
    → IsData sb v' a
    → in_use sb v a ≡ false
unmarked sb v v' a f d = elim (Bool-cases (in_use sb v a)) [
  | inl marked ↦ absurd (f a (record { within = d.within; used = marked; apart = d.apart }) refl)
  | inr free ↦ free
]

-- The block that the file had, or a block that nobody had.
Origin-cases :
    (sb : Superblock) (bn : ℕ) (ip : Inode) (v : Volume) {a : ℕ} {ip' : Inode} {v' : Volume}
    → Origin sb bn ip v a ip' v'
    → (mapped v ip bn ≡ a)
      ⊎ (mapped v ip bn ≡ 0)
        × (in_use sb v a ≡ false)
        × (a ≢ ip'.addrs ndirect)
        × (v'.blocks a ≡ zero_block)
        × IsData sb v' a
Origin-cases sb bn ip v (old_block p far) = inl p
Origin-cases sb bn ip v {a = a} {v' = v'} (new_block z f zeroes d apart) =
    inr (z, unmarked sb v v' a f d, apart, zeroes, d)

-- Where bmap returns a block for the block `bn` of a file, this is the one that the file had there, or,
-- where it had none, a block that was not marked as in use, is not the indirect block, is marked now
-- and holds zeroes. It is not 0, the file has it at `bn` from then on, and every other block `k` of
-- the file is where it was. A data block `c` other than the indirect block keeps its contents. The
-- volume and the inode stay in order.
pub bmap_lem :
    (sb : Superblock) (bn k c a : ℕ) (ip ip' : Inode) (v v' : Volume)
    → IsVolume sb v
    → IsInode sb v ip
    → bmap sb bn ip v ≡ ok (a, ip', v')
    → bn ≢ k
    → IsData sb v c
    → c ≢ ip.addrs ndirect
    → ((mapped v ip bn ≡ a)
        ⊎ (mapped v ip bn ≡ 0)
          × (in_use sb v a ≡ false)
          × (a ≢ ip'.addrs ndirect)
          × (v'.blocks a ≡ zero_block)
          × IsData sb v' a)
      × (a ≢ 0)
      × (mapped v' ip' bn ≡ a)
      × (mapped v' ip' k ≡ mapped v ip k)
      × (v'.blocks c ≡ v.blocks c)
      × IsVolume sb v'
      × IsInode sb v' ip'
bmap_lem sb bn k c a ip ip' v v' i j h n d q = elim (dec_lt bn maxfile) [
  | yes l ↦
      let r = bmap-Run sb bn ip v {r = (a, ip', v')} l h in
      let m = bmap-Maps sb bn ip v i j r in
      let x = bmap-Extends sb bn ip v i j r in
      (
        Origin-cases sb bn ip v x.origin,
        m.nonzero,
        m.here,
        m.others k n,
        x.kept c d q,
        m.volume,
        m.inode,
      )
  | no l ↦ cc (sym (bmap_range sb bn ip v (omega arith)) ∙ h)
]
