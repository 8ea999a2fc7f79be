-- ===== src/Log/Crash.antt =====
-- Atomicity and durability of a commit, under any number of crashes.
use sys_prog_assessment.Prelude.{
  ℕ, ◌<◌, ◌≡◌, refl, ◌⊎◌, inl, inr, false, List, [], ◌∷◌, length, contains, arith, All, ap, All-at,
  Member, inl, inr, ltb, Bool-cases,
}
use sys_prog_assessment.Log.{Disk, Machine, boot, Log, header_of, recover_from_log, commit}
use sys_prog_assessment.Log.Region.{Home, AllHome, IsClean}
use sys_prog_assessment.Log.Commit.{Safe, after, commit_writes-Safe, recover-Safe}

-- Crashes in recoveries, one after the other: each reboot finds one of the images that the recovery
-- before it made.
pub data Crashes (start : ℕ) (d : Disk) : Disk → Type 0 where
  none : Crashes start d d
  again :
      {e f : Disk}
      → Crashes start d e
      → Member f (recover_from_log start (boot e)).images
      → Crashes start d f

-- The blocks outside the log hold `v`, once a recovery from `d` has run to its end.
abbrev pub RecoversTo : ℕ → ℕ → Disk → Disk → Type 0
RecoversTo start size d v =
    (b : ℕ) → Home start size b → (recover_from_log start (boot d)).disk b ≡ v b

-- A log and a machine before a commit: the transaction fits, is outside the log, and holds every
-- block whose cached contents are not on the disk; the header on the disk is empty.
pub record IsReady (l : Log) (m : Machine) : Type 0 where
  pub fits : length l.lh < l.size
  pub at_home : AllHome l.start l.size l.lh
  pub empty_header : header_of (m.disk l.start) ≡ []
  pub logged : (b : ℕ) → Home l.start l.size b → contains b l.lh ≡ false → m.disk b ≡ m.cache b
  pub no_images : m.images ≡ []

module _ (start size : ℕ) (bs : List ℕ) (old new : Disk) (fits : length bs < size)
    (at_home : AllHome start size bs) where
  Crashes-Safe :
      {d e : Disk} → Safe start size bs old new d → Crashes start d e → Safe start size bs old new e
  Crashes-Safe s none = s
  Crashes-Safe s (again {e} c m) =
      All-at (Safe start size bs old new)
        ((recover-Safe start size bs old new fits at_home e (Crashes-Safe s c)).1) m

  Safe-recovers :
      (d : Disk)
      → Safe start size bs old new d
      → RecoversTo start size d old ⊎ RecoversTo start size d new
  Safe-recovers d s = go ((recover-Safe start size bs old new fits at_home d s).0)
    where
      go :
          IsClean start size old (recover_from_log start (boot d)).disk
            ⊎ IsClean start size new (recover_from_log start (boot d)).disk
          → RecoversTo start size d old ⊎ RecoversTo start size d new
      go (inl c) = inl c.holds
      go (inr c) = inr c.holds

nil_of_no_length : (xs : List ℕ) → ltb 0 (length xs) ≡ false → xs ≡ []
nil_of_no_length [] h = refl
nil_of_no_length (x ∷ xs) h = ground arith

All-of_nil : (P : Disk → Type 0) (xs : List Disk) → xs ≡ [] → All P xs
All-of_nil P xs e = rw e tt

commit-Safe :
    (l : Log) (m : Machine)
    → IsReady l m
    → IsClean l.start l.size m.cache (commit l m).1.disk
      × All (Safe l.start l.size l.lh m.disk m.cache) (commit l m).1.images
unfolding commit
commit-Safe l m r = elim (Bool-cases (ltb 0 (length l.lh))) [
  | inl some_blocks ↦ rw some_blocks (
      commit_writes-Safe l.start l.size l.lh m.disk m.cache r.fits r.at_home m (λ b _. refl)
        r.logged (record { unmarked = r.empty_header; holds = λ b _. refl })
        (All-of_nil (IsClean l.start l.size m.disk) m.images r.no_images))
  | inr no_blocks ↦ rw no_blocks (
    record {
      unmarked = r.empty_header;
      holds = λ b home. r.logged b home (ap (contains b) (nil_of_no_length l.lh no_blocks));
    },
    All-of_nil (Safe l.start l.size l.lh m.disk m.cache) m.images r.no_images,
  )
]

lh-commit : (l : Log) (m : Machine) → (commit l m).0.lh ≡ []
unfolding commit
lh-commit l m = elim (Bool-cases (ltb 0 (length l.lh))) [
  | inl some_blocks ↦ rw some_blocks
  | inr no_blocks ↦ rw no_blocks (nil_of_no_length l.lh no_blocks)
]

-- A commit is atomic: wherever a crash stops it, and however often the recovery crashes in turn, the
-- recovery that gets through leaves outside the log either all the blocks as they were on the disk
-- before the commit, or all as they were in the cache.
pub commit_atomic :
    (l : Log) (m : Machine) {d e : Disk}
    → IsReady l m
    → Member d (commit l m).1.images
    → Crashes l.start d e
    → RecoversTo l.start l.size e m.disk ⊎ RecoversTo l.start l.size e m.cache
commit_atomic l m {d} {e} r i c =
    Safe-recovers l.start l.size l.lh m.disk m.cache r.fits r.at_home e (
      Crashes-Safe l.start l.size l.lh m.disk m.cache r.fits r.at_home
        (All-at (Safe l.start l.size l.lh m.disk m.cache) ((commit-Safe l m r).1) i) c)

-- A commit is durable: once it has returned, the disk holds the cached blocks outside the log, and
-- however often the machine crashes and recovers it still does.
pub commit_durable :
    (l : Log) (m : Machine) {e : Disk}
    → IsReady l m
    → Crashes l.start (commit l m).1.disk e
    → ((commit l m).0.lh ≡ []) × RecoversTo l.start l.size e m.cache
commit_durable l m {e} r c = (
  lh-commit l m,
  either (Safe-recovers l.start l.size l.lh m.cache m.cache r.fits r.at_home e safe),
)
  where
    safe : Safe l.start l.size l.lh m.cache m.cache e
    safe =
        Crashes-Safe l.start l.size l.lh m.cache m.cache r.fits r.at_home
          (after ((commit-Safe l m r).0)) c

    either :
        RecoversTo l.start l.size e m.cache ⊎ RecoversTo l.start l.size e m.cache
        → RecoversTo l.start l.size e m.cache
    either (inl h) = h
    either (inr h) = h
