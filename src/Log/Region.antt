-- ===== src/Log/Region.antt =====
-- What a disk can hold around a commit: the part of the disk outside the log, and the three kinds of
-- images that a crash can leave.
use sys_prog_assessment.Prelude.{
  ℕ, ◌+◌, ◌≤◌, ◌<◌, ◌≡◌, ap, ◌∙◌, ◌⊎◌, inl, inr, false, List, [], ◌∷◌, length, update, update_self,
  update_ne, contains, arith, ℕ_discrete, subst,
}
use sys_prog_assessment.Log.{Block, Disk, header_of}

-- The block is outside the log, which takes `size` blocks from `start` on.
abbrev pub Home : ℕ → ℕ → ℕ → Type 0
Home start size b = (b < start) ⊎ (start + size ≤ b)

abbrev pub AllHome : ℕ → ℕ → List ℕ → Type 0
AllHome start size [] = Unit
AllHome start size (b ∷ bs) = Home start size b × AllHome start size bs

-- The log slots from `slot` on hold the contents `new` of the blocks of the list.
abbrev pub Slots : Disk → Disk → ℕ → List ℕ → Type 0
Slots new view slot [] = Unit
Slots new view slot (b ∷ bs) = (view slot ≡ new b) × Slots new view (slot + 1) bs

pub Slots-update :
    (new view : Disk) (b : ℕ) (x : Block) (slot : ℕ) (bs : List ℕ)
    → (b < slot) ⊎ (slot + length bs ≤ b)
    → Slots new view slot bs
    → Slots new (update view b x) slot bs
Slots-update new view b x slot [] h s = tt
Slots-update new view b x slot (c ∷ cs) h s = (
  update_ne view b x slot (omega arith) ∙ s.0,
  Slots-update new view b x (slot + 1) cs (omega arith) s.1,
)

-- The header is empty, and outside the log the disk holds `v`.
pub record IsClean (start size : ℕ) (v d : Disk) : Type 0 where
  pub unmarked : header_of (d start) ≡ []
  pub holds : (b : ℕ) → Home start size b → d b ≡ v b

-- The header lists `bs`, the slots hold their new contents, and so do all other blocks their places.
pub record IsCommitted (start size : ℕ) (bs : List ℕ) (new d : Disk) : Type 0 where
  pub marked : header_of (d start) ≡ bs
  pub slots : Slots new d (start + 1) bs
  pub others : (b : ℕ) → Home start size b → contains b bs ≡ false → d b ≡ new b

-- A write inside the log, but not to its header, is not seen from outside.
pub IsClean-update_slot :
    {start size : ℕ} {v d : Disk} (slot : ℕ) (x : Block)
    → start < slot
    → slot < start + size
    → IsClean start size v d
    → IsClean start size v (update d slot x)
IsClean-update_slot {start} {size} {v} {d} slot x h g c = record {
  unmarked = ap header_of (update_ne d slot x start (omega arith)) ∙ c.unmarked;
  holds = λ b home. update_ne d slot x b (omega arith) ∙ c.holds b home;
}

-- Writing an empty header over a disk that holds `v` outside the log.
pub IsClean-update_start :
    {start size : ℕ} {v d : Disk} (x : Block)
    → 0 < size
    → header_of x ≡ []
    → ((b : ℕ) → Home start size b → d b ≡ v b)
    → IsClean start size v (update d start x)
IsClean-update_start {start} {size} {v} {d} x pos e h = record {
  unmarked = ap header_of (update_self d start x) ∙ e;
  holds = λ b home. update_ne d start x b (omega arith) ∙ h b home;
}

-- Installing the new contents of a block keeps the image committed.
pub IsCommitted-update :
    {start size : ℕ} {bs : List ℕ} {new d : Disk} (b : ℕ) (x : Block)
    → length bs < size
    → Home start size b
    → x ≡ new b
    → IsCommitted start size bs new d
    → IsCommitted start size bs new (update d b x)
IsCommitted-update {start} {size} {bs} {new} {d} b x fits home e c = record {
  marked = ap header_of (update_ne d b x start (omega arith)) ∙ c.marked;
  slots = Slots-update new d b x (start + 1) bs (outside home) c.slots;
  others = λ a at_home absent. elim (ℕ_discrete b a) [
    | yes same ↦ subst (λ k. update d b x k ≡ new k) same (update_self d b x ∙ e)
    | no other ↦ update_ne d b x a other ∙ c.others a at_home absent
  ];
}
  where
    outside : Home start size b → (b < start + 1) ⊎ (start + 1 + length bs ≤ b)
    outside (inl low) = inl (omega arith)
    outside (inr high) = inr (omega arith)
