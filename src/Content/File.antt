-- ===== src/Content/File.antt =====
-- fs.c: the invariant of a file: its blocks hold data, and they differ from one another, from the
-- indirect block and from the block of its inode.
use sys_prog_assessment.Prelude.{
  ℕ, ◌<◌, ◌≡◌, ◌≢◌, refl, sym, ap, subst, ◌∙◌, arith, inl, inr, ◌==◌, if◌then◌else◌, ok, ℕ_discrete,
}
use sys_prog_assessment.Blocks.{Superblock, Volume, zero_block}
use sys_prog_assessment.Blocks.Alloc.{IsVolume}
use sys_prog_assessment.Blocks.Data.{IsData}
use sys_prog_assessment.Content.{Inode, ndirect, maxfile, iblock, bmap}
use sys_prog_assessment.Content.Mapped.{mapped, IsInode, Maps}
use sys_prog_assessment.Content.Bmap.{bmap-Maps}
use sys_prog_assessment.Content.Run.{direct_run, indirect_run, Run, bmap-Run}
use sys_prog_assessment.Content.Extends.{old_block, new_block, Extends, bmap-Extends}

pub record IsFile (sb : Superblock) (v : Volume) (ip : Inode) : Type 0 where
  pub volume : IsVolume sb v
  pub inode : IsInode sb v ip
  pub blocks : (k : ℕ) → k < maxfile → mapped v ip k ≢ 0 → IsData sb v (mapped v ip k)
  pub distinct :
      (j k : ℕ)
      → j < maxfile
      → k < maxfile
      → mapped v ip j ≢ 0
      → mapped v ip j ≡ mapped v ip k
      → j ≡ k
  pub apart : (k : ℕ) → k < maxfile → ip.addrs ndirect ≢ 0 → mapped v ip k ≢ ip.addrs ndirect
  pub home : IsData sb v (iblock ip.inum sb)
  pub home_nonzero : iblock ip.inum sb ≢ 0
  pub home_apart : (k : ℕ) → k < maxfile → mapped v ip k ≢ iblock ip.inum sb
  pub home_indirect : ip.addrs ndirect ≢ iblock ip.inum sb

module _ (sb : Superblock) (bn : ℕ) (ip : Inode) (v : Volume) (a : ℕ) (ip' : Inode) (v' : Volume)
    (f : IsFile sb v ip) (inside : bn < maxfile) (m : Maps sb bn ip v a ip' v')
    (x : Extends sb bn ip v a ip' v') (same_inum : ip'.inum ≡ ip.inum) where
  -- The block of the file is data, and it is no other data block of the file.
  found-IsData : IsData sb v' a
  found-IsData = elim x.origin [
    | old_block p q ↦
        rw (← p) (x.stays (mapped v ip bn) (f.blocks bn inside (λ z. m.nonzero (sym p ∙ z))))
    | new_block p q r d n ↦ d
  ]

  found-ne : (k : ℕ) → k < maxfile → bn ≢ k → mapped v ip k ≢ 0 → mapped v ip k ≢ a
  found-ne k l n z e = elim x.origin [
    | old_block p q ↦ n (sym (f.distinct k bn l inside z (e ∙ sym p)))
    | new_block p q r d c ↦ q (mapped v ip k) (f.blocks k l z) e
  ]

  found-apart : ip'.addrs ndirect ≢ 0 → a ≢ ip'.addrs ndirect
  found-apart z e = elim x.origin [
    | old_block p q ↦ f.apart bn inside (λ y. z (q ∙ y)) (p ∙ e ∙ q)
    | new_block p q r d c ↦ c e
  ]

  found-home : a ≢ iblock ip.inum sb
  found-home e = elim x.origin [
    | old_block p q ↦ f.home_apart bn inside (p ∙ e)
    | new_block p q r d c ↦ q (iblock ip.inum sb) f.home (sym e)
  ]

  kept-indirect :
      (k : ℕ)
      → k < maxfile
      → mapped v ip k ≢ 0
      → ip'.addrs ndirect ≢ 0
      → mapped v ip k ≢ ip'.addrs ndirect
  kept-indirect k l n z e = elim x.indirect [
    | inl q ↦ f.apart k l (λ y. z (q ∙ y)) (e ∙ q)
    | inr (y, q) ↦ q (mapped v ip k) (f.blocks k l n) e
  ]

  home-indirect : ip'.addrs ndirect ≢ iblock ip.inum sb
  home-indirect e = elim x.indirect [
    | inl q ↦ f.home_indirect (sym q ∙ e)
    | inr (y, q) ↦ q (iblock ip.inum sb) f.home (sym e)
  ]

  old-nonzero : (k : ℕ) → bn ≢ k → mapped v' ip' k ≢ 0 → mapped v ip k ≢ 0
  old-nonzero k q n z = n (m.others k q ∙ z)

  new-IsData : (k : ℕ) → k < maxfile → mapped v' ip' k ≢ 0 → IsData sb v' (mapped v' ip' k)
  new-IsData k l n = elim (ℕ_discrete bn k) [
    | yes p ↦
        subst (λ j. IsData sb v' (mapped v' ip' j)) p
          (subst (IsData sb v') (sym m.here) found-IsData)
    | no q ↦
        subst (IsData sb v') (sym (m.others k q))
          (x.stays (mapped v ip k) (f.blocks k l (old-nonzero k q n)))
  ]

  new-distinct :
      (j k : ℕ)
      → j < maxfile
      → k < maxfile
      → mapped v' ip' j ≢ 0
      → mapped v' ip' j ≡ mapped v' ip' k
      → j ≡ k
  new-distinct j k lj lk n e = elim (ℕ_discrete bn j) [
    | yes p ↦ elim (ℕ_discrete bn k) [
      | yes q ↦ sym p ∙ q
      | no q ↦
          let same : mapped v ip k ≡ a =
            sym (m.others k q) ∙ sym e ∙ ap (mapped v' ip') (sym p) ∙ m.here in
          absurd (found-ne k lk q (λ z. n (e ∙ m.others k q ∙ z)) same)
    ]
    | no p ↦ elim (ℕ_discrete bn k) [
      | yes q ↦
          let same : mapped v ip j ≡ a =
            sym (m.others j p) ∙ e ∙ ap (mapped v' ip') (sym q) ∙ m.here in
          absurd (found-ne j lj p (old-nonzero j p n) same)
      | no q ↦ f.distinct j k lj lk (old-nonzero j p n) (sym (m.others j p) ∙ e ∙ m.others k q)
    ]
  ]

  new-apart : (k : ℕ) → k < maxfile → ip'.addrs ndirect ≢ 0 → mapped v' ip' k ≢ ip'.addrs ndirect
  new-apart k l n e = elim (ℕ_discrete bn k) [
    | yes p ↦ found-apart n (sym m.here ∙ ap (mapped v' ip') p ∙ e)
    | no q ↦ kept-indirect k l (λ z. n (sym e ∙ m.others k q ∙ z)) n (sym (m.others k q) ∙ e)
  ]

  new-home : (k : ℕ) → k < maxfile → mapped v' ip' k ≢ iblock ip.inum sb
  new-home k l e = elim (ℕ_discrete bn k) [
    | yes p ↦ found-home (sym m.here ∙ ap (mapped v' ip') p ∙ e)
    | no q ↦ f.home_apart k l (sym (m.others k q) ∙ e)
  ]

  same_home : iblock ip'.inum sb ≡ iblock ip.inum sb
  same_home = ap (λ i. iblock i sb) same_inum

  extended-IsFile : IsFile sb v' ip'
  extended-IsFile = record {
    volume = m.volume;
    inode = m.inode;
    blocks = new-IsData;
    distinct = new-distinct;
    apart = new-apart;
    home = subst (IsData sb v') (sym same_home) (x.stays (iblock ip.inum sb) f.home);
    home_nonzero = λ z. f.home_nonzero (sym same_home ∙ z);
    home_apart = λ k l e. new-home k l (e ∙ same_home);
    home_indirect = λ e. home-indirect (e ∙ same_home);
  }

-- The bytes of the block `k` of the file: zeroes where there is no block.
unfoldable pub content : Volume → Inode → ℕ → ℕ → ℕ
content v ip k = if mapped v ip k == 0 then zero_block else v.blocks (mapped v ip k)

pub content-at :
    (v : Volume) (ip : Inode) (k : ℕ) {a : ℕ}
    → mapped v ip k ≡ a
    → a ≢ 0
    → content v ip k ≡ v.blocks a
unfolding content
content-at v ip k {a = a} e n = rw e (ground arith)

pub content-none :
    (v : Volume) (ip : Inode) (k : ℕ) → mapped v ip k ≡ 0 → content v ip k ≡ zero_block
unfolding content
content-none v ip k e = rw e

same_inum :
    (sb : Superblock) (bn : ℕ) (ip : Inode) (v : Volume) {a : ℕ} {ip' : Inode} {v' : Volume}
    → Run sb bn ip v a ip' v'
    → (ip'.inum ≡ ip.inum) × (ip'.size ≡ ip.size) × (ip'.kind ≡ ip.kind)
same_inum sb bn ip v (direct_run l e) = (refl, refl, refl)
same_inum sb bn ip v (indirect_run l e t) = (refl, refl, refl)

-- What `bmap` does to a file in order: it stays so, and its contents are what they were.
pub record Found (sb : Superblock) (bn : ℕ) (ip : Inode) (v : Volume) (a : ℕ) (ip' : Inode)
    (v' : Volume) : Type 0 where
  pub file : IsFile sb v' ip'
  pub here : mapped v' ip' bn ≡ a
  pub nonzero : a ≢ 0
  pub data_block : IsData sb v' a
  pub beside : ip'.addrs ndirect ≢ 0 → a ≢ ip'.addrs ndirect
  pub others : (k : ℕ) → bn ≢ k → mapped v' ip' k ≡ mapped v ip k
  pub contents : (k : ℕ) → k < maxfile → content v' ip' k ≡ content v ip k
  pub size : ip'.size ≡ ip.size
  pub kind : ip'.kind ≡ ip.kind

module _ (sb : Superblock) (bn : ℕ) (ip : Inode) (v : Volume) (a : ℕ) (ip' : Inode) (v' : Volume)
    (f : IsFile sb v ip) (inside : bn < maxfile) (m : Maps sb bn ip v a ip' v')
    (x : Extends sb bn ip v a ip' v') where
  kept-block :
      (k : ℕ)
      → k < maxfile
      → mapped v ip k ≢ 0
      → v'.blocks (mapped v ip k) ≡ v.blocks (mapped v ip k)
  kept-block k l n = elim (ℕ_discrete (ip.addrs ndirect) 0) [
    | yes z ↦ x.kept (mapped v ip k) (f.blocks k l n) (λ p. n (p ∙ z))
    | no z ↦ x.kept (mapped v ip k) (f.blocks k l n) (f.apart k l z)
  ]

  content-same :
      (k : ℕ) → k < maxfile → mapped v' ip' k ≡ mapped v ip k → content v' ip' k ≡ content v ip k
  content-same k l e = elim (ℕ_discrete (mapped v ip k) 0) [
    | yes z ↦ content-none v' ip' k (e ∙ z) ∙ sym (content-none v ip k z)
    | no z ↦ content-at v' ip' k e z ∙ kept-block k l z ∙ sym (content-at v ip k refl z)
  ]

  content-kept : (k : ℕ) → k < maxfile → content v' ip' k ≡ content v ip k
  content-kept k l = elim (ℕ_discrete bn k) [
    | no q ↦ content-same k l (m.others k q)
    | yes p ↦ elim x.origin [
      | old_block q r ↦
          content-same k l (ap (mapped v' ip') (sym p) ∙ m.here ∙ sym q ∙ ap (mapped v ip) p)
      | new_block q r z d c ↦
          content-at v' ip' k (ap (mapped v' ip') (sym p) ∙ m.here) m.nonzero
          ∙ z
          ∙ sym (content-none v ip k (ap (mapped v ip) (sym p) ∙ q))
    ]
  ]

pub bmap-Found :
    (sb : Superblock) (bn : ℕ) (ip : Inode) (v : Volume) {a : ℕ} {ip' : Inode} {v' : Volume}
    → IsFile sb v ip
    → bn < maxfile
    → bmap sb bn ip v ≡ ok (a, ip', v')
    → Found sb bn ip v a ip' v'
bmap-Found sb bn ip v {a = a} {ip' = ip'} {v' = v'} f l h =
    let r = bmap-Run sb bn ip v {r = (a, ip', v')} l h in
    let m = bmap-Maps sb bn ip v f.volume f.inode r in
    let x = bmap-Extends sb bn ip v f.volume f.inode r in
    let (s, z, t) = same_inum sb bn ip v r in
    record {
      file = extended-IsFile sb bn ip v a ip' v' f l m x s;
      here = m.here;
      nonzero = m.nonzero;
      data_block = found-IsData sb bn ip v a ip' v' f l m x s;
      beside = found-apart sb bn ip v a ip' v' f l m x s;
      others = m.others;
      contents = content-kept sb bn ip v a ip' v' f l m x;
      size = z;
      kind = t;
    }
