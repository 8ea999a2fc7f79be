-- ===== src/Truncate/Whole.antt =====
-- fs.c: a whole call of itrunc.
use sys_prog_assessment.Prelude.{
  ℕ, suc, ◌+◌, ◌<◌, ◌≤◌, ◌≡◌, ◌≢◌, refl, sym, ap, ◌∙◌, subst, arith, true, false, ◌==◌, ltb,
  if◌then◌else◌, update_self, update_ne, dec_lt, ok,
}
use sys_prog_assessment.Blocks.{Superblock, Volume, bfree}
use sys_prog_assessment.Blocks.Alloc.{IsVolume}
use sys_prog_assessment.Blocks.Data.{IsData}
use sys_prog_assessment.Blocks.Words.{word_at}
use sys_prog_assessment.Content.{Inode, ndirect, nindirect, maxfile, set_addr}
use sys_prog_assessment.Content.Mapped.{mapped}
use sys_prog_assessment.Content.File.{IsFile}
use sys_prog_assessment.Truncate.{trunc_words, trunc_indirect}
use sys_prog_assessment.Truncate.Free.{
  cleared, Freed, CanFree, none-Freed, step-IsVolume, step-bfree, step-Freed, later-CanFree,
  Freed-append,
}
use sys_prog_assessment.Truncate.Trunc.{words-Freed}

-- The blocks of a file, and its indirect block after them.
abbrev pub owned : Volume → Inode → ℕ → ℕ
owned v ip k = if ltb k maxfile then mapped v ip k else ip.addrs ndirect

pub owned-mapped : (v : Volume) (ip : Inode) (k : ℕ) → k < maxfile → owned v ip k ≡ mapped v ip k
owned-mapped v ip k h = let t : ltb k maxfile ≡ true = ground arith in rw t

pub owned-indirect :
    (v : Volume) (ip : Inode) (k : ℕ) → maxfile ≤ k → owned v ip k ≡ ip.addrs ndirect
owned-indirect v ip k h = let t : ltb k maxfile ≡ false = ground arith in rw t

module _ (sb : Superblock) (ip : Inode) (v : Volume) (f : IsFile sb v ip) where
  pub owned-IsData : (k : ℕ) → owned v ip k ≢ 0 → IsData sb v (owned v ip k)
  owned-IsData k n = elim (dec_lt k maxfile) [
    | yes l ↦
        let e = owned-mapped v ip k l in subst (IsData sb v) (sym e) (f.blocks k l (λ z. n (e ∙ z)))
    | no l ↦
        let e = owned-indirect v ip k (omega arith) in
        subst (IsData sb v) (sym e) (f.inode ndirect (omega arith) (λ z. n (e ∙ z)))
  ]

  owned-distinct :
      (j k : ℕ)
      → j < maxfile + 1
      → k < maxfile + 1
      → owned v ip j ≢ 0
      → owned v ip j ≡ owned v ip k
      → j ≡ k
  owned-distinct j k h l n e = elim (dec_lt j maxfile) [
    | yes x ↦ elim (dec_lt k maxfile) [
      | yes y ↦
          f.distinct j k x y (λ z. n (owned-mapped v ip j x ∙ z))
            (sym (owned-mapped v ip j x) ∙ e ∙ owned-mapped v ip k y)
      | no y ↦
          let at = owned-indirect v ip k (omega arith) in
          absurd (f.apart j x (λ z. n (e ∙ at ∙ z)) (sym (owned-mapped v ip j x) ∙ e ∙ at))
    ]
    | no x ↦ elim (dec_lt k maxfile) [
      | yes y ↦
          let at = owned-indirect v ip j (omega arith) in
          absurd (f.apart k y (λ z. n (at ∙ z)) (sym (owned-mapped v ip k y) ∙ sym e ∙ at))
      | no y ↦ omega arith
    ]
  ]

  pub owned-CanFree : (n : ℕ) → n ≤ maxfile + 1 → CanFree sb (owned v ip) 0 n v
  owned-CanFree n h = record {
    data_blocks = λ k x y. owned-IsData k;
    distinct = λ j k x y z w. owned-distinct j k (omega arith) (omega arith);
  }

zeroes-Freed :
    (sb : Superblock) (f : ℕ → ℕ) (i n : ℕ) (v : Volume)
    → IsVolume sb v
    → ((k : ℕ) → i ≤ k → k < i + n → f k ≡ 0)
    → Freed sb f i n v v
zeroes-Freed sb f i n v vol h = record {
  volume = vol;
  freed = λ k x y q. absurd (q (h k x y));
  others = λ c x. refl;
  stays = λ c d x. d;
  kept = λ c x. refl;
}

part-CanFree :
    (sb : Superblock) (f : ℕ → ℕ) (i n m : ℕ) (v : Volume)
    → CanFree sb f i (n + m) v
    → CanFree sb f i n v
part-CanFree sb f i n m v c = record {
  data_blocks = λ k x y. c.data_blocks k x (omega arith);
  distinct = λ j k x y z w. c.distinct j k x (omega arith) z (omega arith);
}

pub indirect_none :
    (sb : Superblock) (ip : Inode) (v : Volume)
    → ip.addrs ndirect ≡ 0
    → trunc_indirect sb ip v ≡ ok (ip, v)
unfolding trunc_indirect
indirect_none sb ip v e = let t : (ip.addrs ndirect == 0) ≡ true = ground arith in rw t

indirect_some :
    (sb : Superblock) (ip : Inode) (v w u : Volume)
    → ip.addrs ndirect ≢ 0
    → trunc_words nindirect 0 (v.blocks (ip.addrs ndirect)) sb v ≡ ok w
    → bfree (ip.addrs ndirect) sb w ≡ ok u
    → trunc_indirect sb ip v ≡ ok (set_addr ndirect 0 ip, u)
unfolding trunc_indirect
indirect_some sb ip v w u z e h =
    let t : (ip.addrs ndirect == 0) ≡ false = ground arith in rw (trunc_indirect, t, e, h)

-- What the second part of itrunc does to the inode and the volume.
pub record Unlinked (sb : Superblock) (f : ℕ → ℕ) (ip : Inode) (v : Volume) (ip' : Inode)
    (v' : Volume) : Type 0 where
  pub freed : Freed sb f ndirect (nindirect + 1) v v'
  pub same : ip' ≡ record ip { addrs = ip'.addrs }
  pub gone : ip'.addrs ndirect ≡ 0
  pub others : (k : ℕ) → ndirect ≢ k → ip'.addrs k ≡ ip.addrs k

module _ (sb : Superblock) (f : ℕ → ℕ) (ip : Inode) (v : Volume) (vol : IsVolume sb v)
    (c : CanFree sb f ndirect (nindirect + 1) v) (last : f maxfile ≡ ip.addrs ndirect) where
  pub Unlinked-none :
      ((k : ℕ) → ndirect ≤ k → k < ndirect + (nindirect + 1) → f k ≡ 0)
      → ip.addrs ndirect ≡ 0
      → Unlinked sb f ip v ip v
  Unlinked-none h z = record {
    freed = zeroes-Freed sb f ndirect (nindirect + 1) v vol h;
    same = refl;
    gone = z;
    others = λ k l. refl;
  }

  pub Unlinked-some :
      ip.addrs ndirect ≢ 0
      → ((k : ℕ) → k < nindirect → word_at (v.blocks (ip.addrs ndirect)) (0 + k) ≡ f (ndirect + k))
      → (v' : Volume) × (trunc_indirect sb ip v ≡ ok (set_addr ndirect 0 ip, v'))
        × Unlinked sb f ip v (set_addr ndirect 0 ip) v'
  Unlinked-some z h =
      let at = ip.addrs ndirect in
      let (w, e, g) =
        words-Freed nindirect 0 ndirect f (v.blocks at) sb v vol
          (part-CanFree sb f ndirect nindirect 1 v c) h in
      let d : CanFree sb f maxfile (suc 0) w = later-CanFree sb f ndirect nindirect 1 v w c g in
      let nonzero : f maxfile ≢ 0 = λ q. z (sym last ∙ q) in
      let u = cleared (f maxfile) sb w in
      let freed_last : bfree at sb w ≡ ok u =
        ap (λ b. bfree b sb w) (sym last) ∙ step-bfree sb f maxfile 0 w d g.volume nonzero in
      let one : Freed sb f maxfile 1 w u =
        step-Freed sb f maxfile 0 w d g.volume nonzero u
          (none-Freed sb f (maxfile + 1) u (step-IsVolume sb f maxfile 0 w d g.volume nonzero)) in
      (
        u,
        indirect_some sb ip v w u z e freed_last,
        record {
          freed = Freed-append sb f ndirect nindirect 1 v w c g u one;
          same = refl;
          gone = update_self ip.addrs ndirect 0;
          others = λ k l. update_ne ip.addrs ndirect 0 k l;
        },
      )
