-- ===== src/Log/Commit.antt =====
-- The images that a commit and a recovery leave on the disk, one for each crash.
use sys_prog_assessment.Prelude.{
  ℕ, ◌+◌, ◌<◌, ◌≡◌, refl, ap, ◌∙◌, ◌⊎◌, inl, inr, false, List, [], length, update, update_self,
  update_ne, contains, arith, All, All-map,
}
use sys_prog_assessment.Log.{
  Disk, Machine, boot, header_of, header_block, write_head, write_log, install_trans,
  recover_from_log, commit_writes,
}
use sys_prog_assessment.Log.Header.{header_of-header_block}
use sys_prog_assessment.Log.Region.{
  Home, AllHome, Slots, Slots-update, IsClean, IsCommitted, IsClean-update_start,
}
use sys_prog_assessment.Log.Install.{Installed, install_from-Installed, Written, write_from-Written}

-- Where a crash around the commit of `bs` can leave the disk: before the write of the header, after
-- it, or after the write that empties it.
pub data Safe (start size : ℕ) (bs : List ℕ) (old new d : Disk) : Type 0 where
  before : IsClean start size old d → Safe start size bs old new d
  during : IsCommitted start size bs new d → Safe start size bs old new d
  after : IsClean start size new d → Safe start size bs old new d

module _ (start size : ℕ) (bs : List ℕ) (old new : Disk) (fits : length bs < size)
    (at_home : AllHome start size bs) where
  abbrev IsSafe : Disk → Type 0
  IsSafe = Safe start size bs old new

  clear :
      (v : Disk) (m : Machine)
      → ((b : ℕ) → Home start size b → m.disk b ≡ v b)
      → IsClean start size v (write_head start [] m).disk
  unfolding write_head
  clear v m h =
      let x = header_block [] (m.cache start) in
      IsClean-update_start {v = v} {d = m.disk} (update m.cache start x start) (omega arith)
        (ap header_of (update_self m.cache start x) ∙ header_of-header_block [] (m.cache start)) h

  images-write_head :
      (xs : List ℕ) (m : Machine)
      → IsSafe (write_head start xs m).disk
      → All IsSafe m.images
      → All IsSafe (write_head start xs m).images
  unfolding write_head
  images-write_head xs m s h = (s, h)

  -- `install_trans` and the write of the empty header, from a committed disk.
  finish :
      (m : Machine)
      → Slots new m.cache (start + 1) bs
      → IsCommitted start size bs new m.disk
      → All IsSafe m.images
      → IsClean start size new (write_head start [] (install_trans start bs m)).disk
        × All IsSafe (write_head start [] (install_trans start bs m)).images
  finish m cached c h =
      let m' = install_trans start bs m in
      let done : Installed start size bs new fits IsSafe bs m m' =
        unfold install_trans in
        install_from-Installed start size bs new fits IsSafe bs (start + 1) m (omega arith)
          (omega arith) at_home cached (λ d k. during k) c h in
      let last = clear new m' (λ b home. done.blocks b home (λ absent. c.others b home absent)) in
      (last, images-write_head [] m' (after last) done.images)

  -- The write of the header commits.
  mark :
      (m m' : Machine)
      → Written start size old new (start + 1) bs m m'
      → ((b : ℕ) → Home start size b → contains b bs ≡ false → old b ≡ new b)
      → Slots new (write_head start bs m').cache (start + 1) bs
        × IsCommitted start size bs new (write_head start bs m').disk
  unfolding write_head
  mark m m' w logged =
      let x = header_block bs (m'.cache start) in
      let y = update m'.cache start x start in
      (
        Slots-update new m'.cache start x (start + 1) bs (inl (omega arith)) w.cached,
        record {
          marked =
              ap header_of (update_self m'.disk start y ∙ update_self m'.cache start x)
              ∙ header_of-header_block bs (m'.cache start);
          slots = Slots-update new m'.disk start y (start + 1) bs (inl (omega arith)) w.stored;
          others = λ b home absent.
              update_ne m'.disk start y b (omega arith)
              ∙ w.clean.holds b home
              ∙ logged b home absent;
        },
      )

  pub commit_writes-Safe :
      (m : Machine)
      → ((b : ℕ) → Home start size b → m.cache b ≡ new b)
      → ((b : ℕ) → Home start size b → contains b bs ≡ false → old b ≡ new b)
      → IsClean start size old m.disk
      → All (IsClean start size old) m.images
      → IsClean start size new (commit_writes start bs m).disk
        × All IsSafe (commit_writes start bs m).images
  commit_writes-Safe m fresh logged c h =
      let m' = write_log start bs m in
      let w : Written start size old new (start + 1) bs m m' =
        unfold write_log in
        write_from-Written start size old new bs (start + 1) m (omega arith) (omega arith) at_home
          fresh c h in
      let (cached, committed) = mark m m' w logged in
      unfold commit_writes in
      finish (write_head start bs m') cached committed (
        images-write_head bs m' (during committed)
          (All-map (IsClean start size old) IsSafe (λ d k. before k) m'.images w.images))

  recover_lem :
      (d : Disk) (xs : List ℕ)
      → header_of (d start) ≡ xs
      → recover_from_log start (boot d) ≡ write_head start [] (install_trans start xs (boot d))
  unfolding recover_from_log
  recover_lem d xs e = ap (λ l. write_head start [] (install_trans start l (boot d))) e

  install_nothing : (m : Machine) → install_trans start [] m ≡ m
  unfolding install_trans
  install_nothing m = refl

  -- What a recovery from `d` leads to.
  abbrev Recovers : Machine → Type 0
  Recovers m = (IsClean start size old m.disk ⊎ IsClean start size new m.disk) × All IsSafe m.images

  -- A recovery from a safe disk ends with the old or the new contents, and its images are safe.
  pub recover-Safe : (d : Disk) → IsSafe d → Recovers (recover_from_log start (boot d))
  recover-Safe d (before c) =
      let last = clear old (boot d) c.holds in
      rw (recover_lem d [] c.unmarked, install_nothing (boot d))
        (inl last, images-write_head [] (boot d) (before last) tt)
  recover-Safe d (during c) =
      let done = finish (boot d) c.slots c tt in rw (recover_lem d bs c.marked) (inr done.0, done.1)
  recover-Safe d (after c) =
      let last = clear new (boot d) c.holds in
      rw (recover_lem d [] c.unmarked, install_nothing (boot d))
        (inr last, images-write_head [] (boot d) (after last) tt)
