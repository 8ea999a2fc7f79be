-- ===== src/Readwrite/Writei.antt =====
-- fs.c: the loop of writei and its call.
use sys_prog_assessment.Prelude.{
  ℕ, zero, suc, ◌+◌, ◌-◌, ◌/◌, ◌%◌, ◌<◌, ◌≤◌, ◌≡◌, ◌≢◌, refl, sym, ap, fun_ext, subst, ◌∙◌, arith,
  ltb, ◌&&◌, if◌then◌else◌, true, false, dec_lt, ok, panic, Outcome-cases, some, String, lt→ltb,
  Bool-cases, inl, inr, ok_inj,
}
use sys_prog_assessment.Blocks.{bsize, Superblock, Volume, log_change}
use sys_prog_assessment.Content.{Inode, bmap}
use sys_prog_assessment.Content.Mapped.{mapped}
use sys_prog_assessment.Content.File.{IsFile, bmap-Found}
use sys_prog_assessment.Readwrite.{iupdate, overwrite, chunk, write_loop, finish_write}
use sys_prog_assessment.Readwrite.Change.{
  resize, mapped-resize, content-resize, resize-IsFile, iupdate-IsFile, mapped-iupdate,
  content-iupdate,
}
use sys_prog_assessment.Readwrite.Write.{byte, most, Wrote, Wrote-none, Wrote-append, step-Wrote}

pub write_loop-done :
    (fuel : ℕ) (sb : Superblock) (tot n off : ℕ) (src : ℕ → ℕ) (ip : Inode) (v : Volume)
    → n ≤ tot
    → write_loop fuel sb tot n off src ip v ≡ ok (off, ip, v)
unfolding write_loop
write_loop-done zero sb tot n off src ip v h = refl
write_loop-done (suc fuel) sb tot n off src ip v h =
    let t : ltb tot n ≡ false = ground arith in rw t

module _ (fuel : ℕ) (sb : Superblock) (tot n off : ℕ) (src : ℕ → ℕ) (ip : Inode) (v : Volume)
    (more : tot < n) where
  pub write_loop-step :
      {a : ℕ} {ip' : Inode} {v' : Volume}
      → bmap sb (off / bsize) ip v ≡ ok (a, ip', v')
      → write_loop (suc fuel) sb tot n off src ip v
        ≡ write_loop fuel sb (tot + chunk (n - tot) off) n (off + chunk (n - tot) off) src ip' (
            log_change a
              (overwrite (off % bsize) (chunk (n - tot) off) (λ i. src (tot + i)) (v'.blocks a))
              v')
  unfolding write_loop
  write_loop-step e = rw (lt→ltb tot n more, e)

  pub write_loop-panic :
      {s : String}
      → bmap sb (off / bsize) ip v ≡ panic s
      → write_loop (suc fuel) sb tot n off src ip v ≡ panic s
  unfolding write_loop
  write_loop-panic e = rw (lt→ltb tot n more, e)

write_loop-none :
    (fuel : ℕ) (sb : Superblock) (tot n off : ℕ) (src : ℕ → ℕ) (ip : Inode) (v : Volume) {off' : ℕ}
    {ip' : Inode} {v' : Volume}
    → IsFile sb v ip
    → n ≤ tot
    → write_loop fuel sb tot n off src ip v ≡ ok (off', ip', v')
    → (off' ≡ off + (n - tot)) × Wrote sb off (n - tot) (λ i. src (tot + i)) ip v ip' v'
write_loop-none fuel sb tot n off src ip v {off' = off'} {ip' = ip'} {v' = v'} f h e =
    let left : n - tot ≡ 0 = omega arith in
    let same : Path (ℕ × Inode × Volume) (off, ip, v) (off', ip', v') =
      ok_inj (off, ip, v) (off', ip', v')
        (sym (write_loop-done fuel sb tot n off src ip v h) ∙ e) in
    let place : off ≡ off' = ap (λ (r : ℕ × Inode × Volume). r.0) same in
    (
      omega (arith, place, left),
      subst (λ (r : ℕ × Inode × Volume). Wrote sb off (n - tot) (λ i. src (tot + i)) ip v r.1 r.2)
          same (Wrote-none sb off (n - tot) (λ i. src (tot + i)) ip v f left),
    )

-- The loop with rounds enough writes all that is left.
pub write_loop-Wrote :
    (fuel : ℕ) (sb : Superblock) (tot n off : ℕ) (src : ℕ → ℕ) (ip : Inode) (v : Volume) {off' : ℕ}
    {ip' : Inode} {v' : Volume}
    → IsFile sb v ip
    → tot ≤ n
    → n ≤ tot + fuel
    → off + (n - tot) ≤ most
    → ((j : ℕ) → src j < 256)
    → write_loop fuel sb tot n off src ip v ≡ ok (off', ip', v')
    → (off' ≡ off + (n - tot)) × Wrote sb off (n - tot) (λ i. src (tot + i)) ip v ip' v'
write_loop-Wrote zero sb tot n off src ip v f h k l small e =
    write_loop-none zero sb tot n off src ip v f (omega arith) e
write_loop-Wrote (suc fuel) sb tot n off src ip v {off' = off'} {ip' = ip'} {v' = v'} f h k l small
      e =
    elim (dec_lt tot n) [
      | no q ↦ write_loop-none (suc fuel) sb tot n off src ip v f (omega arith) e
      | yes p ↦ elim (Outcome-cases (bmap sb (off / bsize) ip v)) [
        | inr (s, z) ↦ cc (sym (write_loop-panic fuel sb tot n off src ip v p z) ∙ e)
        | inl ((a, ip₁, v₁), z) ↦
            let m = chunk (n - tot) off in
            let g = bmap-Found sb (off / bsize) ip v f (omega arith) z in
            let one =
              step-Wrote sb off m (λ i. src (tot + i)) ip v a ip₁ v₁ (omega arith) (omega arith)
                (λ i. small (tot + i)) g in
            let (last, rest) =
              write_loop-Wrote fuel sb (tot + m) n (off + m) src ip₁ _ one.file (omega arith)
                (omega arith) (omega arith) small
                (sym (write_loop-step fuel sb tot n off src ip v p z) ∙ e) in
            let all = Wrote-append sb off m (n - (tot + m)) tot src ip ip₁ ip' v _ v' one rest in
            (
              omega (arith, last),
              subst (λ k. Wrote sb off k (λ i. src (tot + i)) ip v ip' v') (omega arith) all,
            )
      ]
    ]

pub all-Wrote :
    (sb : Superblock) (n off : ℕ) (src : ℕ → ℕ) (ip : Inode) (v : Volume) {off' : ℕ} {ip' : Inode}
    {v' : Volume}
    → IsFile sb v ip
    → off + n ≤ most
    → ((j : ℕ) → src j < 256)
    → write_loop n sb 0 n off src ip v ≡ ok (off', ip', v')
    → (off' ≡ off + n) × Wrote sb off n src ip v ip' v'
all-Wrote sb n off src ip v {ip' = ip'} {v' = v'} f l small e =
    let (end, w) =
      write_loop-Wrote n sb 0 n off src ip v f (omega arith) (omega arith) (omega arith) small e in
    let same : (λ i. src (0 + i)) ≡ src = fun_ext (λ i. ap src (omega arith)) in
    (
      omega (arith, end),
      subst (λ x. Wrote sb off n x ip v ip' v') same
          (subst (λ k. Wrote sb off k (λ i. src (0 + i)) ip v ip' v') (omega arith) w),
    )

-- What writei leaves where it succeeds.
pub record Written (sb : Superblock) (src : ℕ → ℕ) (off n : ℕ) (ip : Inode) (v : Volume)
    (ip' : Inode) (v' : Volume) : Type 0 where
  pub file : IsFile sb v' ip'
  pub bytes : (o : ℕ) → o < most → byte v' ip' o ≡ overwrite off n src (byte v ip) o
  pub filled : (o : ℕ) → off ≤ o → o < off + n → mapped v' ip' (o / bsize) ≢ 0
  pub size : ip'.size ≡ (if ltb ip.size (off + n) then off + n else ip.size)
  pub kind : ip'.kind ≡ ip.kind

module _ (sb : Superblock) (src : ℕ → ℕ) (off n : ℕ) (ip : Inode) (v : Volume) (ip' : Inode)
    (v' : Volume) (w : Wrote sb off n src ip v ip' v') where
  shorter : (ltb ip.size (off + n)) ≡ false → Written sb src off n ip v ip' v'
  shorter h = record {
    file = w.file;
    bytes = w.bytes;
    filled = w.filled;
    size = w.size ∙ rw h;
    kind = w.kind;
  }

  abbrev longer_inode : Inode
  longer_inode = resize (off + n) ip'

  longer-IsFile : IsFile sb v' longer_inode
  longer-IsFile = resize-IsFile sb v' ip' (off + n) w.file

  longer_bytes :
      (o : ℕ)
      → o < most
      → byte (iupdate sb longer_inode v') longer_inode o ≡ overwrite off n src (byte v ip) o
  unfolding byte
  longer_bytes o l =
      ap (λ (x : ℕ → ℕ). x (o % bsize))
        (content-iupdate sb v' longer_inode longer-IsFile (o / bsize) (omega arith)
          ∙ content-resize v' ip' (off + n) (o / bsize))
      ∙ (unfold byte in w.bytes o l)

  longer :
      (ltb ip.size (off + n)) ≡ true
      → Written sb src off n ip v longer_inode (iupdate sb longer_inode v')
  longer h = record {
    file = iupdate-IsFile sb v' longer_inode longer-IsFile;
    bytes = longer_bytes;
    filled = λ o l k z. w.filled o l k (
        sym (mapped-resize v' ip' (off + n) (o / bsize))
        ∙ sym (mapped-iupdate sb v' longer_inode longer-IsFile (o / bsize))
        ∙ z);
    size = rw h;
    kind = w.kind;
  }

  pub finish-Written :
      {S : Type 0} (s : S)
      → off ≤ ip.size
      → (ip₁ : Inode) × (v₁ : Volume) × (finish_write sb n (off + n) ip' v' s
          ≡ (some n, ip₁, v₁, s))
        × Written sb src off n ip v ip₁ v₁
  unfolding finish_write
  finish-Written s b = elim (Bool-cases (ltb ip.size (off + n))) [
    | inl e ↦
        let t : (ltb 0 n && ltb ip'.size (off + n)) ≡ true = rw w.size (ground (arith, e)) in
        (longer_inode, iupdate sb longer_inode v', rw t, longer e)
    | inr e ↦
        let t : (ltb 0 n && ltb ip'.size (off + n)) ≡ false = rw w.size (ground (arith, e)) in
        (ip', v', rw t, shorter e)
  ]
