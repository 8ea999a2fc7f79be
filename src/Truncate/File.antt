-- ===== src/Truncate/File.antt =====
-- fs.c: itrunc of a file in order.
use sys_prog_assessment.Prelude.{
  ℕ, ◌+◌, ◌<◌, ◌≤◌, ◌≡◌, ◌≢◌, refl, sym, ap, ◌∙◌, fun_ext, arith, ◌⊎◌, inl, inr, ℕ_discrete, dec_lt,
  ok, false,
}
use sys_prog_assessment.Blocks.{Superblock, Volume, in_use}
use sys_prog_assessment.Blocks.Data.{IsData, in_use-change}
use sys_prog_assessment.Blocks.Words.{word_at}
use sys_prog_assessment.Content.{Inode, ndirect, nindirect, maxfile, set_addr, iblock}
use sys_prog_assessment.Content.Mapped.{mapped}
use sys_prog_assessment.Content.Bmap.{mapped-direct, mapped-none, mapped-indirect}
use sys_prog_assessment.Content.File.{IsFile}
use sys_prog_assessment.Readwrite.{iupdate, ilock_load}
use sys_prog_assessment.Readwrite.Dinode.{Fits, ilock_load-iupdate}
use sys_prog_assessment.Truncate.{trunc_direct, trunc_indirect, itrunc}
use sys_prog_assessment.Truncate.Free.{Freed, later-CanFree, Freed-append}
use sys_prog_assessment.Truncate.Trunc.{direct-Freed, Emptied}
use sys_prog_assessment.Truncate.Whole.{
  owned, owned-mapped, owned-indirect, owned-IsData, owned-CanFree, indirect_none, Unlinked,
  Unlinked-none, Unlinked-some,
}

module _ (sb : Superblock) (ip : Inode) (v : Volume) (f : IsFile sb v ip) where
  abbrev blocks_of : ℕ → ℕ
  blocks_of = owned v ip

  direct_owned : (k : ℕ) → k < ndirect → ip.addrs k ≡ blocks_of k
  direct_owned k l = sym (owned-mapped v ip k (omega arith) ∙ mapped-direct v ip k l)

  none_owned :
      ip.addrs ndirect ≡ 0 → (k : ℕ) → ndirect ≤ k → k < ndirect + (nindirect + 1) → blocks_of k ≡ 0
  none_owned z k h l = elim (dec_lt k maxfile) [
    | yes x ↦ owned-mapped v ip k x ∙ mapped-none v ip k h z
    | no x ↦ owned-indirect v ip k (omega arith) ∙ z
  ]

  words_owned :
      ip.addrs ndirect ≢ 0
      → (k : ℕ) → k < nindirect
      → word_at (v.blocks (ip.addrs ndirect)) (0 + k) ≡ blocks_of (ndirect + k)
  words_owned z k l =
      ap (word_at (v.blocks (ip.addrs ndirect))) (omega arith)
      ∙ sym (mapped-indirect v ip (ndirect + k) (ip.addrs ndirect) (omega arith) refl z)
      ∙ sym (owned-mapped v ip (ndirect + k) (omega arith))

  -- After the first loop the second part goes through.
  second_part :
      (ip' : Inode) (v' : Volume)
      → Freed sb blocks_of 0 ndirect v v'
      → Emptied 0 ndirect ip ip'
      → (ip'' : Inode) × (v'' : Volume) × (trunc_indirect sb ip' v' ≡ ok (ip'', v''))
        × Unlinked sb blocks_of ip' v' ip'' v''
  second_part ip' v' g m =
      let c =
        later-CanFree sb blocks_of 0 ndirect (nindirect + 1) v v'
          (owned-CanFree sb ip v f (ndirect + (nindirect + 1)) (omega arith)) g in
      let far : ip'.addrs ndirect ≡ ip.addrs ndirect = m.after ndirect (omega arith) in
      let last : blocks_of maxfile ≡ ip'.addrs ndirect =
        owned-indirect v ip maxfile (omega arith) ∙ sym far in
      elim (ℕ_discrete (ip.addrs ndirect) 0) [
        | yes z ↦ (
          ip',
          v',
          indirect_none sb ip' v' (far ∙ z),
          Unlinked-none sb blocks_of ip' v' g.volume c last (none_owned z) (far ∙ z),
        )
        | no z ↦
            let d = f.inode ndirect (omega arith) z in
            let same : v'.blocks (ip'.addrs ndirect) ≡ v.blocks (ip.addrs ndirect) =
              ap v'.blocks far ∙ g.kept (ip.addrs ndirect) d.apart in
            let (u, e, r) =
              Unlinked-some sb blocks_of ip' v' g.volume c last (λ q. z (sym far ∙ q))
                (λ k l. ap (λ x. word_at x (0 + k)) same ∙ words_owned z k l) in
            (set_addr ndirect 0 ip', u, e, r)
      ]

itrunc_runs :
    (sb : Superblock) (ip ip₁ ip₂ : Inode) (v v₁ v₂ : Volume)
    → trunc_direct ndirect 0 sb ip v ≡ ok (ip₁, v₁)
    → trunc_indirect sb ip₁ v₁ ≡ ok (ip₂, v₂)
    → itrunc sb ip v ≡ ok (record ip₂ { size = 0 }, iupdate sb (record ip₂ { size = 0 }) v₂)
unfolding itrunc
itrunc_runs sb ip ip₁ ip₂ v v₁ v₂ e h = rw (itrunc, e, h)

iupdate_mark :
    (sb : Superblock) (ip : Inode) (v : Volume) (c : ℕ)
    → IsData sb v (iblock ip.inum sb)
    → c < sb.size
    → in_use sb (iupdate sb ip v) c ≡ in_use sb v c
unfolding iupdate
iupdate_mark sb ip v c d h = in_use-change sb v (iblock ip.inum sb) c _ d h

module _ (sb : Superblock) (ip : Inode) (v : Volume) (f : IsFile sb v ip) where
  -- The block of the inode is none of the blocks of the file.
  home_apart : (k : ℕ) → owned v ip k ≢ iblock ip.inum sb
  home_apart k e = elim (dec_lt k maxfile) [
    | yes l ↦ f.home_apart k l (sym (owned-mapped v ip k l) ∙ e)
    | no l ↦ f.home_indirect (sym (owned-indirect v ip k (omega arith)) ∙ e)
  ]

  emptied_map :
      (ip' : Inode) (v' : Volume)
      → ((k : ℕ) → k ≤ ndirect → ip'.addrs k ≡ 0)
      → (k : ℕ) → mapped v' ip' k ≡ 0
  emptied_map ip' v' h k = elim (dec_lt k ndirect) [
    | yes l ↦ mapped-direct v' ip' k l ∙ h k (omega arith)
    | no l ↦ mapped-none v' ip' k (omega arith) (h ndirect (omega arith))
  ]

-- A file without blocks, with the other fields of the inode.
abbrev pub emptied : Inode → Inode
emptied ip = record ip { size = 0; addrs = λ k. 0 }

emptied-eq :
    (ip ip₁ ip₂ : Inode)
    → ip₁ ≡ record ip { addrs = ip₁.addrs }
    → ip₂ ≡ record ip₁ { addrs = ip₂.addrs }
    → ((k : ℕ) → ip₂.addrs k ≡ 0)
    → record ip₂ { size = 0 } ≡ emptied ip
emptied-eq ip ip₁ ip₂ p q z =
    ap (λ (x : Inode). record x { size = 0 }) q
    ∙ ap (λ (x : Inode). record x { size = 0; addrs = ip₂.addrs }) p
    ∙ ap (λ (a : ℕ → ℕ). record ip { size = 0; addrs = a }) (fun_ext z)

emptied-Fits : (ip : Inode) → Fits ip → Fits (emptied ip)
emptied-Fits ip f = record {
  kind = f.kind;
  major = f.major;
  minor = f.minor;
  nlink = f.nlink;
  size = omega arith;
  addrs = λ i. omega arith;
  no_more = λ i h. refl;
}

-- itrunc of a file in order, with or without blocks, does not panic. It returns the inode with the size
-- 0 and without blocks, its other fields as they were, and ilock then loads this inode from the disk,
-- where its fields fit their words and its type is not 0. Each block that the file had, the indirect
-- one too (the last of `owned`), is free, and every other block `c` of the disk is marked as it was.
pub itrunc_lem :
    (sb : Superblock) (ip : Inode) (v : Volume) (j k c : ℕ)
    → IsFile sb v ip
    → Fits ip
    → ip.kind ≢ 0
    → k ≤ maxfile
    → c < sb.size
    → ((i : ℕ) → owned v ip i ≢ 0 → owned v ip i ≢ c)
    → (v' : Volume) × (itrunc sb ip v ≡ ok (emptied ip, v'))
      × (mapped v' (emptied ip) j ≡ 0)
      × (ilock_load sb ip.inum v' ≡ ok (emptied ip))
      × ((owned v ip k ≡ 0) ⊎ (in_use sb v' (owned v ip k) ≡ false))
      × (in_use sb v' c ≡ in_use sb v c)
itrunc_lem sb ip v j k c f fits plain l h q =
    let own = owned-CanFree sb ip v f (maxfile + 1) (omega arith) in
    let (ip₁, v₁, e₁, g₁, m) =
      direct-Freed ndirect 0 (owned v ip) sb ip v f.volume
        (owned-CanFree sb ip v f ndirect (omega arith))
        (λ i x y. direct_owned sb ip v f i (omega arith)) in
    let (ip₂, v₂, e₂, u) = second_part sb ip v f ip₁ v₁ g₁ m in
    let g : Freed sb (owned v ip) 0 (maxfile + 1) v v₂ =
      Freed-append sb (owned v ip) 0 ndirect (nindirect + 1) v v₁ own g₁ v₂ u.freed in
    let home : IsData sb v₂ (iblock ip.inum sb) =
      g.stays (iblock ip.inum sb) f.home (λ i x y z. home_apart sb ip v f i) in
    let last = emptied ip in
    let same : record ip₂ { size = 0 } ≡ last =
      emptied-eq ip ip₁ ip₂ m.same u.same (no_addrs ip₁ ip₂ m u) in
    (
      iupdate sb last v₂,
      itrunc_runs sb ip ip₁ ip₂ v v₁ v₂ e₁ e₂ ∙ ap (λ x. ok (x, iupdate sb x v₂)) same,
      emptied_map sb ip v f last (iupdate sb last v₂) (λ i x. refl) j,
      (ilock_load-iupdate sb last v₂ (ip.inum + 1) (emptied-Fits ip fits) plain
          (λ e. omega (arith, e))).0,
      elim (ℕ_discrete (owned v ip k) 0) [
        | yes z ↦ inl z
        | no n ↦ inr (
            iupdate_mark sb last v₂ (owned v ip k) home ((owned-IsData sb ip v f k n).within)
            ∙ g.freed k (omega arith) (omega arith) n)
      ],
      iupdate_mark sb last v₂ c home h ∙ g.others c (λ i x y z. q i z),
    )
  where
    no_addrs :
        (ip₁ ip₂ : Inode) {v₁ v₂ : Volume}
        → Emptied 0 ndirect ip ip₁
        → Unlinked sb (owned v ip) ip₁ v₁ ip₂ v₂
        → (i : ℕ) → ip₂.addrs i ≡ 0
    no_addrs ip₁ ip₂ m u i = elim (ℕ_discrete ndirect i) [
      | yes p ↦ ap ip₂.addrs (sym p) ∙ u.gone
      | no p ↦ u.others i p ∙ elim (dec_lt i ndirect) [
        | yes x ↦ m.gone i (omega arith) (omega arith)
        | no x ↦ m.after i (omega arith) ∙ fits.no_more i (omega arith)
      ]
    ]
