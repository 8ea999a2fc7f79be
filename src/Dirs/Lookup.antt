-- ===== src/Dirs/Lookup.antt =====
-- fs.c: dirlookup finds the first entry in use with the name.
use sys_prog_assessment.Prelude.{
  ℕ, zero, suc, ◌+◌, ◌-◌, ◌*◌, ◌/◌, ◌%◌, ◌<◌, ◌≤◌, ◌≡◌, ◌≢◌, refl, sym, ap, ◌∙◌, arith, true, false,
  ◌==◌, ltb, min, Bool-cases, inl, inr, ◌⊎◌, dec_lt, ℕ_discrete, ok, Option, none, some, lt→ltb,
}
use sys_prog_assessment.Blocks.{bsize, Superblock, Volume}
use sys_prog_assessment.Content.{Inode}
use sys_prog_assessment.Content.Mapped.{mapped}
use sys_prog_assessment.Readwrite.{Device, readi, overwrite, t_dev}
use sys_prog_assessment.Readwrite.Write.{byte, most}
use sys_prog_assessment.Readwrite.Read.{readi_lem}
use sys_prog_assessment.Dirs.{t_dir, dirent_size, dirent_inum, is_entry, dirlookup_loop, dirlookup}
use sys_prog_assessment.Dirs.Entry.{dirent_inum-eq, is_entry-eq}

-- The bytes of the entry at an offset of a directory.
abbrev pub entry : Volume → Inode → ℕ → ℕ → ℕ
entry v dp off i = byte v dp (off + i)

-- What a lookup says, and what it says of the entry at `k`: there is none, and `k` is behind the end or
-- the entry at `k` is not the one; or the first one is at `j`, at `k` or before it.
abbrev pub Verdict : Volume → Inode → (ℕ → ℕ) → Option (ℕ × ℕ) → ℕ → Type 0
Verdict v dp name r k =
    ((r ≡ none) × ((dp.size ≤ k) ⊎ (is_entry name (entry v dp k) ≡ false)))
    ⊎ ((j : ℕ) × (r ≡ some (dirent_inum (entry v dp j), j))
        × (j < dp.size)
        × (j % dirent_size ≡ 0)
        × (is_entry name (entry v dp j) ≡ true)
        × ((j ≤ k) ⊎ (is_entry name (entry v dp k) ≡ false)))

-- The entries from `off` on are not the one, or the first one is at `j`.
abbrev Looked : Volume → Inode → (ℕ → ℕ) → ℕ → Option (ℕ × ℕ) → Type 0
Looked v dp name off r =
    ((r ≡ none)
      × ((k : ℕ)
          → off ≤ k
          → k < dp.size
          → k % dirent_size ≡ 0
          → is_entry name (entry v dp k) ≡ false))
    ⊎ ((j : ℕ) × (r ≡ some (dirent_inum (entry v dp j), j))
        × (off ≤ j)
        × (j < dp.size)
        × (j % dirent_size ≡ 0)
        × (is_entry name (entry v dp j) ≡ true)
        × ((k : ℕ) → off ≤ k → k < j → k % dirent_size ≡ 0 → is_entry name (entry v dp k) ≡ false))

-- One entry more that is not the one.
Looked-later :
    (v : Volume) (dp : Inode) (name : ℕ → ℕ) (off : ℕ) (r : Option (ℕ × ℕ))
    → off % dirent_size ≡ 0
    → is_entry name (entry v dp off) ≡ false
    → Looked v dp name (off + dirent_size) r
    → Looked v dp name off r
Looked-later v dp name off r a h (inl (e, u)) =
    inl
      (e, λ k x y z. elim (ℕ_discrete off k) [ yes q ↦ rw (← q) h | no q ↦ u k (omega arith) y z ])
Looked-later v dp name off r a h (inr (j, e, l, m, z, b, u)) = inr (
  j,
  e,
  omega arith,
  m,
  z,
  b,
  λ k x y w. elim (ℕ_discrete off k) [ yes q ↦ rw (← q) h | no q ↦ u k (omega arith) y w ],
)

Looked-Verdict :
    (v : Volume) (dp : Inode) (name : ℕ → ℕ) (r : Option (ℕ × ℕ)) (k : ℕ)
    → k % dirent_size ≡ 0
    → Looked v dp name 0 r
    → Verdict v dp name r k
Looked-Verdict v dp name r k z (inl (e, u)) =
    inl (
      e,
      elim (dec_lt k dp.size) [ yes l ↦ inr (u k (omega arith) l z) | no l ↦ inl (omega arith) ],
    )
Looked-Verdict v dp name r k z (inr (j, e, a, m, w, b, u)) = inr (
  j,
  e,
  m,
  w,
  b,
  elim (dec_lt k j) [ yes x ↦ inr (u k (omega arith) x z) | no x ↦ inl (omega arith) ],
)

module _ {S : Type 0} (devsw : ℕ → Device S) (sb : Superblock) (dp : Inode) (name : ℕ → ℕ)
    (v : Volume) (s : S) where
  loop-end :
      (fuel : ℕ) (de : ℕ → ℕ) (off : ℕ)
      → dp.size ≤ off
      → dirlookup_loop fuel devsw sb dp name de off v s ≡ ok (none, dp, v, s)
  unfolding dirlookup_loop
  loop-end zero de off h = refl
  loop-end (suc fuel) de off h =
      let t : ltb off dp.size ≡ false = ground arith in rw (dirlookup_loop, t)

  module _ (fuel : ℕ) (de : ℕ → ℕ) (off : ℕ) (de' : ℕ → ℕ) (inside : off < dp.size)
      (read : readi devsw sb dp de off dirent_size v s ≡ ok (some dirent_size, de', dp, v, s)) where
    loop-hit :
        is_entry name de' ≡ true
        → dirlookup_loop (suc fuel) devsw sb dp name de off v s
          ≡ ok (some (dirent_inum de', off), dp, v, s)
    unfolding dirlookup_loop
    loop-hit h = rw (dirlookup_loop, lt→ltb off dp.size inside, read, h)

    loop-miss :
        is_entry name de' ≡ false
        → dirlookup_loop (suc fuel) devsw sb dp name de off v s
          ≡ dirlookup_loop fuel devsw sb dp name de' (off + dirent_size) v s
    unfolding dirlookup_loop
    loop-miss h = rw (dirlookup_loop, lt→ltb off dp.size inside, read, h)

  module _ (plain : dp.kind ≢ t_dev) (small : dp.size ≤ most) (even : dp.size % dirent_size ≡ 0)
      (there : (o : ℕ) → o < dp.size → mapped v dp (o / bsize) ≢ 0) where
    read_entry :
        (de : ℕ → ℕ) (off : ℕ)
        → off + dirent_size ≤ dp.size
        → (de' : ℕ → ℕ) × (readi devsw sb dp de off dirent_size v s
            ≡ ok (some dirent_size, de', dp, v, s))
          × ((i : ℕ) → i < dirent_size → de' i ≡ entry v dp off i)
    read_entry de off h =
        let all : min dirent_size (dp.size - off) ≡ dirent_size = omega arith in
        let (de', e, g) =
          readi_lem devsw sb dp de off dirent_size v s plain (omega arith) small (omega arith)
            (λ o x y. there o (omega arith)) in
        (
          de',
          e ∙ ap (λ n. ok (some n, de', dp, v, s)) all,
          λ i l.
              g i
              ∙ ap (λ n. overwrite 0 n (λ j. byte v dp (off + j)) de i) all
              ∙ ground (arith, all),
        )

    loop-Looked :
        (fuel : ℕ) (de : ℕ → ℕ) (off : ℕ)
        → off % dirent_size ≡ 0
        → dp.size < off + dirent_size * fuel + 1
        → (r : Option (ℕ × ℕ)) × (dirlookup_loop fuel devsw sb dp name de off v s
            ≡ ok (r, dp, v, s))
          × Looked v dp name off r
    loop-Looked zero de off a b =
        (none, loop-end zero de off (omega arith), inl (refl, λ k x y z. absurd (omega arith)))
    loop-Looked (suc fuel) de off a b = elim (dec_lt off dp.size) [
      | no l ↦ (
        none,
        loop-end (suc fuel) de off (omega arith),
        inl (refl, λ k x y z. absurd (omega arith)),
      )
      | yes l ↦
          let (de', e, g) = read_entry de off (omega arith) in
          let hit = is_entry-eq name de' (entry v dp off) g in
          elim (Bool-cases (is_entry name de')) [
            | inl h ↦ (
              some (dirent_inum de', off),
              loop-hit fuel de off de' l e h,
              inr (
                off,
                ap (λ n. some (n, off)) (dirent_inum-eq de' (entry v dp off) g),
                omega arith,
                l,
                a,
                sym hit ∙ h,
                λ k x y z. absurd (omega arith),
              ),
            )
            | inr h ↦
                let (r, f, u) =
                  loop-Looked fuel de' (off + dirent_size) (omega arith) (omega arith) in
                (
                  r,
                  loop-miss fuel de off de' l e h ∙ f,
                  Looked-later v dp name off r a (sym hit ∙ h) u,
                )
          ]
    ]

-- dirlookup of a directory of whole entries that has all its blocks does not panic and changes nothing.
-- It returns the number and the offset, a multiple of the size of an entry, of the first entry in use
-- with the name, or nothing where there is none: whatever entry `k` is taken, it is at `k` or before, or
-- the entry at `k` is unused or has another name, or `k` is behind the end of the directory.
pub dirlookup_lem :
    {S : Type 0} (devsw : ℕ → Device S) (sb : Superblock) (dp : Inode) (name de : ℕ → ℕ)
    (v : Volume) (s : S) (k : ℕ)
    → dp.kind ≡ t_dir
    → dp.size ≤ most
    → dp.size % dirent_size ≡ 0
    → ((o : ℕ) → o < dp.size → mapped v dp (o / bsize) ≢ 0)
    → k % dirent_size ≡ 0
    → (r : Option (ℕ × ℕ)) × (dirlookup devsw sb dp name de v s ≡ ok (r, dp, v, s))
      × Verdict v dp name r k
unfolding dirlookup
dirlookup_lem devsw sb dp name de v s k d small even there z =
    let plain : dp.kind ≢ t_dev = λ e. omega (arith, e, d) in
    let t : (dp.kind == t_dir) ≡ true = ground (arith, d) in
    let (r, f, u) =
      loop-Looked devsw sb dp name v s plain small even there (dp.size + 1) de 0 (omega arith)
        (omega arith) in
    (r, rw t f, Looked-Verdict v dp name r k z u)
