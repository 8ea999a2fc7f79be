-- ===== src/Readwrite/Write.antt =====
-- fs.c: writei changes the bytes of the file that it is asked to, and no others.
use sys_prog_assessment.Prelude.{
  ℕ, ◌+◌, ◌-◌, ◌*◌, ◌/◌, ◌%◌, ◌<◌, ◌≤◌, ◌≡◌, ◌≢◌, refl, sym, ap, ◌∙◌, arith, ltb, leb, ◌&&◌, false,
  ℕ_discrete, dec_lt, Bool-cases, inl, inr,
}
use sys_prog_assessment.Blocks.{bsize, Superblock, Volume, log_change}
use sys_prog_assessment.Content.{Inode, maxfile}
use sys_prog_assessment.Content.Mapped.{mapped}
use sys_prog_assessment.Content.File.{IsFile, content, content-at, Found}
use sys_prog_assessment.Readwrite.{overwrite}
use sys_prog_assessment.Readwrite.Change.{
  mapped-change, change-IsFile, content-change, content-changed,
}

-- The byte of a file at an offset.
unfoldable pub byte : Volume → Inode → ℕ → ℕ
byte v ip o = content v ip (o / bsize) (o % bsize)

abbrev pub most : ℕ
most = maxfile * bsize

pub overwrite-lt :
    (at m : ℕ) (src x : ℕ → ℕ) (i : ℕ)
    → ((j : ℕ) → src j < 256)
    → ((j : ℕ) → x j < 256)
    → overwrite at m src x i < 256
overwrite-lt at m src x i h k = elim (Bool-cases (leb at i && ltb i (at + m))) [
  | inl e ↦ rw e (h (i - at))
  | inr e ↦ rw e (k i)
]

-- The `m` bytes `src` are written to the file from the offset `off` on.
pub record Wrote (sb : Superblock) (off m : ℕ) (src : ℕ → ℕ) (ip : Inode) (v : Volume) (ip' : Inode)
    (v' : Volume) : Type 0 where
  pub file : IsFile sb v' ip'
  pub bytes : (o : ℕ) → o < most → byte v' ip' o ≡ overwrite off m src (byte v ip) o
  pub filled : (o : ℕ) → off ≤ o → o < off + m → mapped v' ip' (o / bsize) ≢ 0
  pub stays : (k : ℕ) → mapped v ip k ≢ 0 → mapped v' ip' k ≢ 0
  pub size : ip'.size ≡ ip.size
  pub kind : ip'.kind ≡ ip.kind

pub Wrote-none :
    (sb : Superblock) (off m : ℕ) (src : ℕ → ℕ) (ip : Inode) (v : Volume)
    → IsFile sb v ip
    → m ≡ 0
    → Wrote sb off m src ip v ip v
Wrote-none sb off m src ip v f z = record {
  file = f;
  bytes = λ o l. ground (arith, z);
  filled = λ o l k. absurd (omega (arith, z));
  stays = λ k n. n;
  size = refl;
  kind = refl;
}

overwrite_twice :
    (off m l t : ℕ) (src x y : ℕ → ℕ) (o : ℕ)
    → x o ≡ overwrite off m (λ i. src (t + i)) y o
    → overwrite (off + m) l (λ i. src (t + m + i)) x o
      ≡ overwrite off (m + l) (λ i. src (t + i)) y o
overwrite_twice off m l t src x y o e = elim (dec_lt o (off + m)) [
  | yes k ↦ ground (arith, e)
  | no k ↦
      let place : t + m + (o - (off + m)) ≡ t + (o - off) = omega arith in
      let far : x o ≡ y o = ground (arith, e) in rw (place, far) (ground arith)
]

pub Wrote-append :
    (sb : Superblock) (off m l t : ℕ) (src : ℕ → ℕ) (ip ip' ip'' : Inode) (v v' v'' : Volume)
    → Wrote sb off m (λ i. src (t + i)) ip v ip' v'
    → Wrote sb (off + m) l (λ i. src (t + m + i)) ip' v' ip'' v''
    → Wrote sb off (m + l) (λ i. src (t + i)) ip v ip'' v''
Wrote-append sb off m l t src ip ip' ip'' v v' v'' p q = record {
  file = q.file;
  bytes =
      λ o h. q.bytes o h ∙ overwrite_twice off m l t src (byte v' ip') (byte v ip) o (p.bytes o h);
  filled = λ o h k. elim (dec_lt o (off + m)) [
    | yes j ↦ q.stays (o / bsize) (p.filled o h j)
    | no j ↦ q.filled o (omega arith) (omega arith)
  ];
  stays = λ k n. q.stays k (p.stays k n);
  size = q.size ∙ p.size;
  kind = q.kind ∙ p.kind;
}

module _ (sb : Superblock) (off m : ℕ) (src : ℕ → ℕ) (ip : Inode) (v : Volume) (a : ℕ) (ip' : Inode)
    (v' : Volume) (inside : off < most) (fits : m ≤ bsize - off % bsize)
    (small : (j : ℕ) → src j < 256) (g : Found sb (off / bsize) ip v a ip' v') where
  abbrev pub new_bytes : ℕ → ℕ
  new_bytes = overwrite (off % bsize) m src (v'.blocks a)

  new_bytes-lt : (j : ℕ) → new_bytes j < 256
  new_bytes-lt j = overwrite-lt (off % bsize) m src (v'.blocks a) j small (g.file.volume.bytes a)

  abbrev pub written : Volume
  written = log_change a new_bytes v'

  same_map : (k : ℕ) → mapped written ip' k ≡ mapped v' ip' k
  same_map k = mapped-change sb ip' v' a new_bytes g.file g.data_block g.beside new_bytes-lt k

  here_byte :
      (o : ℕ)
      → o < most
      → off / bsize ≡ o / bsize
      → byte written ip' o ≡ overwrite off m src (byte v ip) o
  unfolding byte
  here_byte o l e =
      let at : mapped v' ip' (o / bsize) ≡ a = ap (mapped v' ip') (sym e) ∙ g.here in
      let old : v'.blocks a (o % bsize) ≡ content v ip (o / bsize) (o % bsize) =
        ap (λ (x : ℕ → ℕ). x (o % bsize))
          (sym (content-at v' ip' (o / bsize) at g.nonzero)
            ∙ g.contents (o / bsize) (omega arith)) in
      let place : o % bsize - off % bsize ≡ o - off = omega arith in
      let test : (leb (off % bsize) (o % bsize) && ltb (o % bsize) (off % bsize + m))
          ≡ (leb off o && ltb o (off + m)) =
        ground arith in
      ap (λ (x : ℕ → ℕ). x (o % bsize))
        (content-changed sb ip' v' a new_bytes g.file g.data_block g.beside new_bytes-lt (o / bsize)
          at g.nonzero)
      ∙ rw (test, place, old)

  other_byte :
      (o : ℕ)
      → o < most
      → off / bsize ≢ o / bsize
      → byte written ip' o ≡ overwrite off m src (byte v ip) o
  unfolding byte
  other_byte o l n =
      let same : mapped v' ip' (o / bsize) ≡ mapped v ip (o / bsize) = g.others (o / bsize) n in
      let apart : mapped v' ip' (o / bsize) ≢ a = λ p. n (
        g.file.distinct (off / bsize) (o / bsize) (omega arith) (omega arith)
          (λ z. g.nonzero (sym g.here ∙ z)) (g.here ∙ sym p)) in
      let outside : (leb off o && ltb o (off + m)) ≡ false = ground arith in
      ap (λ (x : ℕ → ℕ). x (o % bsize))
        (content-change sb ip' v' a new_bytes g.file g.data_block g.beside new_bytes-lt (o / bsize)
            apart
          ∙ g.contents (o / bsize) (omega arith))
      ∙ rw outside

  pub step-Wrote : Wrote sb off m src ip v ip' written
  step-Wrote = record {
    file = change-IsFile sb ip' v' a new_bytes g.file g.data_block g.beside new_bytes-lt;
    bytes = λ o l. elim (ℕ_discrete (off / bsize) (o / bsize)) [
      | yes p ↦ here_byte o l p
      | no n ↦ other_byte o l n
    ];
    filled = λ o h k z.
        let same : off / bsize ≡ o / bsize = omega arith in
        g.nonzero (sym g.here ∙ ap (mapped v' ip') same ∙ sym (same_map (o / bsize)) ∙ z);
    stays = λ k n z. elim (ℕ_discrete (off / bsize) k) [
      | yes p ↦ g.nonzero (sym g.here ∙ ap (mapped v' ip') p ∙ sym (same_map k) ∙ z)
      | no q ↦ n (sym (g.others k q) ∙ sym (same_map k) ∙ z)
    ];
    size = g.size;
    kind = g.kind;
  }
