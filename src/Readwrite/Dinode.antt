-- ===== src/Readwrite/Dinode.antt =====
-- fs.c: the words of an inode on the disk.
use sys_prog_assessment.Prelude.{
  ℕ, zero, suc, ◌+◌, ◌/◌, ◌%◌, ◌^◌, ◌<◌, ◌≤◌, ◌≡◌, ◌≢◌, refl, sym, ap, fun_ext, ◌∙◌, arith, ◌==◌,
  leb, if◌then◌else◌, update, update_self, update_ne, ◌⊎◌, ℕ_discrete, dec_le, true, false, ok,
  panic,
}
use sys_prog_assessment.Blocks.{Superblock, Volume}
use sys_prog_assessment.Blocks.Words.{
  word_at, put_word, word_at-put_word_self, word_at-put_word_other,
}
use sys_prog_assessment.Content.{Inode, ndirect, ipb, iblock}
use sys_prog_assessment.Readwrite.{
  dinode, halves, store_addrs, put_dinode, iupdate, get_dinode, ilock_load,
}

-- The fields of an inode fit the words that hold them, and there are no more addresses.
pub record Fits (ip : Inode) : Type 0 where
  pub kind : ip.kind < 65536
  pub major : ip.major < 65536
  pub minor : ip.minor < 65536
  pub nlink : ip.nlink < 65536
  pub size : ip.size < 2 ^ 32
  pub addrs : (i : ℕ) → ip.addrs i < 2 ^ 32
  pub no_more : (i : ℕ) → ndirect < i → ip.addrs i ≡ 0

store_addrs-before :
    (n at : ℕ) (a x : ℕ → ℕ) (j : ℕ) → j < at → word_at (store_addrs n at a x) j ≡ word_at x j
unfolding store_addrs
store_addrs-before zero at a x j h = refl
store_addrs-before (suc n) at a x j h =
    word_at-put_word_other (at + n) j (a n) (store_addrs n at a x) (omega arith)
    ∙ store_addrs-before n at a x j h

store_addrs-at :
    (n at : ℕ) (a x : ℕ → ℕ) (j : ℕ)
    → j < n
    → a j < 2 ^ 32
    → word_at (store_addrs n at a x) (at + j) ≡ a j
unfolding store_addrs
store_addrs-at zero at a x j h l = absurd (omega arith)
store_addrs-at (suc n) at a x j h l = elim (ℕ_discrete n j) [
  | yes p ↦
      ap (λ k. word_at (put_word (at + n) (a n) (store_addrs n at a x)) (at + k)) (sym p)
      ∙ word_at-put_word_self (at + n) (a n) (store_addrs n at a x) (omega (arith, l, ap a p))
      ∙ ap a p
  | no q ↦
      word_at-put_word_other (at + n) (at + j) (a n) (store_addrs n at a x) (omega arith)
      ∙ store_addrs-at n at a x j (omega arith) l
]

module _ (ip : Inode) (x : ℕ → ℕ) (f : Fits ip) where
  abbrev base : ℕ
  base = dinode ip.inum

  first_word : word_at (put_dinode ip x) base ≡ halves ip.kind ip.major
  unfolding put_dinode
  first_word =
      store_addrs-before (ndirect + 1) (base + 3) ip.addrs _ base (omega arith)
      ∙ word_at-put_word_other (base + 2) base ip.size _ (omega arith)
      ∙ word_at-put_word_other (base + 1) base (halves ip.minor ip.nlink) _ (omega arith)
      ∙ word_at-put_word_self base (halves ip.kind ip.major) x (omega (arith, f.kind, f.major))

  second_word : word_at (put_dinode ip x) (base + 1) ≡ halves ip.minor ip.nlink
  unfolding put_dinode
  second_word =
      store_addrs-before (ndirect + 1) (base + 3) ip.addrs _ (base + 1) (omega arith)
      ∙ word_at-put_word_other (base + 2) (base + 1) ip.size _ (omega arith)
      ∙ word_at-put_word_self (base + 1) (halves ip.minor ip.nlink) _
          (omega (arith, f.minor, f.nlink))

  third_word : word_at (put_dinode ip x) (base + 2) ≡ ip.size
  unfolding put_dinode
  third_word =
      store_addrs-before (ndirect + 1) (base + 3) ip.addrs _ (base + 2) (omega arith)
      ∙ word_at-put_word_self (base + 2) ip.size _ f.size

  addr_words :
      (i : ℕ) → (if leb i ndirect then word_at (put_dinode ip x) (base + 3 + i) else 0) ≡ ip.addrs i
  unfolding put_dinode
  addr_words i = elim (dec_le i ndirect) [
    | yes l ↦
        let t : leb i ndirect ≡ true = ground arith in
        rw t (store_addrs-at (ndirect + 1) (base + 3) ip.addrs _ i (omega arith) (f.addrs i))
    | no l ↦ let t : leb i ndirect ≡ false = ground arith in rw t (sym (f.no_more i (omega arith)))
  ]

  fields :
      (k m j l s : ℕ) (a : ℕ → ℕ)
      → k ≡ ip.kind
      → m ≡ ip.major
      → j ≡ ip.minor
      → l ≡ ip.nlink
      → s ≡ ip.size
      → a ≡ ip.addrs
      → Path Inode
          (record {
            inum = ip.inum;
            kind = k;
            major = m;
            minor = j;
            nlink = l;
            size = s;
            addrs = a;
          })
          ip
  fields k m j l s a p q r t u w = cc

  pub get_dinode-put_dinode : get_dinode ip.inum (put_dinode ip x) ≡ ip
  unfolding get_dinode
  get_dinode-put_dinode =
      fields _ _ _ _ _ _ (omega (arith, first_word, f.kind)) (omega (arith, first_word, f.kind))
        (omega (arith, second_word, f.minor)) (omega (arith, second_word, f.minor)) third_word
        (fun_ext addr_words)

store_addrs-outside :
    (n at : ℕ) (a x : ℕ → ℕ) (j : ℕ)
    → (j < at) ⊎ (at + n ≤ j)
    → word_at (store_addrs n at a x) j ≡ word_at x j
unfolding store_addrs
store_addrs-outside zero at a x j h = refl
store_addrs-outside (suc n) at a x j h =
    word_at-put_word_other (at + n) j (a n) (store_addrs n at a x) (omega (arith, h))
    ∙ store_addrs-outside n at a x j (ground (arith, h))

put_dinode-outside :
    (ip : Inode) (x : ℕ → ℕ) (j : ℕ)
    → j / 16 ≢ ip.inum % ipb
    → word_at (put_dinode ip x) j ≡ word_at x j
unfolding put_dinode
put_dinode-outside ip x j n =
    store_addrs-outside (ndirect + 1) (dinode ip.inum + 3) ip.addrs _ j (ground arith)
    ∙ word_at-put_word_other (dinode ip.inum + 2) j ip.size _ (omega arith)
    ∙ word_at-put_word_other (dinode ip.inum + 1) j (halves ip.minor ip.nlink) _ (omega arith)
    ∙ word_at-put_word_other (dinode ip.inum) j (halves ip.kind ip.major) x (omega arith)

abbrev with_addrs : ℕ → (ℕ → ℕ) → (ℕ → ℕ) → Inode
with_addrs inum y a = record {
  inum = inum;
  kind = word_at y (dinode inum) % 65536;
  major = word_at y (dinode inum) / 65536;
  minor = word_at y (dinode inum + 1) % 65536;
  nlink = word_at y (dinode inum + 1) / 65536;
  size = word_at y (dinode inum + 2);
  addrs = a;
}

same_dinode :
    (inum : ℕ) (x y : ℕ → ℕ)
    → ((j : ℕ) → j / 16 ≡ inum % ipb → word_at x j ≡ word_at y j)
    → get_dinode inum x ≡ get_dinode inum y
unfolding get_dinode
same_dinode inum x y h =
    rw
      (
        h (dinode inum) (omega arith),
        h (dinode inum + 1) (omega arith),
        h (dinode inum + 2) (omega arith),
      )
      (ap (with_addrs inum y) (
        fun_ext (λ i. elim (dec_le i ndirect) [
          | yes l ↦
              let t : leb i ndirect ≡ true = ground arith in
              rw t (h (dinode inum + 3 + i) (omega arith))
          | no l ↦ let t : leb i ndirect ≡ false = ground arith in rw t
        ])))

ilock_load-other :
    (sb : Superblock) (ip : Inode) (v : Volume) (j : ℕ)
    → ip.inum ≢ j
    → ilock_load sb j (iupdate sb ip v) ≡ ilock_load sb j v
unfolding ilock_load iupdate
ilock_load-other sb ip v j n =
    let home = iblock ip.inum sb in
    let x = put_dinode ip (v.blocks home) in
    ap (λ (y : Inode). if y.kind == 0 then panic "ilock: no type" else ok y)
      (elim (ℕ_discrete home (iblock j sb)) [
        | no q ↦ ap (get_dinode j) (update_ne v.blocks home x (iblock j sb) q)
        | yes p ↦
            ap (λ k. get_dinode j (update v.blocks home x k)) (sym p)
            ∙ ap (get_dinode j) (update_self v.blocks home x)
            ∙ same_dinode j x (v.blocks home)
                (λ w e. put_dinode-outside ip (v.blocks home) w (omega arith))
            ∙ ap (λ k. get_dinode j (v.blocks k)) p
      ])

-- ilock of an inode after iupdate loads what iupdate stored, where the fields fit their words and the
-- type is not 0, and what it loads for another inode `j` is as before.
pub ilock_load-iupdate :
    (sb : Superblock) (ip : Inode) (v : Volume) (j : ℕ)
    → Fits ip
    → ip.kind ≢ 0
    → ip.inum ≢ j
    → (ilock_load sb ip.inum (iupdate sb ip v) ≡ ok ip)
      × (ilock_load sb j (iupdate sb ip v) ≡ ilock_load sb j v)
unfolding ilock_load iupdate
ilock_load-iupdate sb ip v j f n other =
    let home = iblock ip.inum sb in
    let x = put_dinode ip (v.blocks home) in
    let e : get_dinode ip.inum ((iupdate sb ip v).blocks home) ≡ ip =
      ap (get_dinode ip.inum) (update_self v.blocks home x)
      ∙ get_dinode-put_dinode ip (v.blocks home) f in
    let t : (ip.kind == 0) ≡ false = ground arith in
    (
      ap (λ (y : Inode). if y.kind == 0 then panic "ilock: no type" else ok y) e ∙ rw t,
      ilock_load-other sb ip v j other,
    )
