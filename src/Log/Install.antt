-- ===== src/Log/Install.antt =====
-- The loops of `install_trans` and `write_log`: what every image in between is, and what the last is.
use sys_prog_assessment.Prelude.{
  ℕ, ◌+◌, ◌≤◌, ◌<◌, ◌≡◌, refl, ◌∙◌, ◌⊎◌, inl, inr, false, List, [], ◌∷◌, length, update,
  update_self, update_ne, contains, arith, ℕ_discrete, All, subst,
}
use sys_prog_assessment.Log.{Disk, Machine, bwrite, modify, install_from, write_from}
use sys_prog_assessment.Log.Region.{
  Home, AllHome, Slots, Slots-update, IsClean, IsCommitted, IsCommitted-update, IsClean-update_slot,
}

module _ (start size : ℕ) (bs : List ℕ) (new : Disk) (fits : length bs < size)
    (Q : Disk → Type 0) where
  abbrev Committed : Disk → Type 0
  Committed = IsCommitted start size bs new

  -- What holds after `install_from` of `rest`.
  pub record Installed (rest : List ℕ) (m m' : Machine) : Type 0 where
    pub committed : Committed m'.disk
    pub images : All Q m'.images
    pub blocks :
        (b : ℕ)
        → Home start size b
        → (contains b rest ≡ false → m.disk b ≡ new b)
        → m'.disk b ≡ new b

  pub install_from-Installed :
      (rest : List ℕ) (slot : ℕ) (m : Machine)
      → start < slot
      → slot + length rest ≤ start + size
      → AllHome start size rest
      → Slots new m.cache slot rest
      → ((d : Disk) → Committed d → Q d)
      → Committed m.disk
      → All Q m.images
      → Installed rest m (install_from slot rest m)
  unfolding install_from
  install_from-Installed [] slot m low high home cached safe c h = record {
    committed = c;
    images = h;
    blocks = λ b at_home k. k refl;
  }
  install_from-Installed (b ∷ rest) slot m low high home cached safe c h =
      let x = m.cache slot in
      let m' = bwrite b (modify b x m) in
      let value = update_self m.cache b x ∙ cached.0 in
      let c' = IsCommitted-update b (update m.cache b x b) fits home.0 value c in
      let done =
        install_from-Installed rest (slot + 1) m' (omega arith) (omega arith) home.1
          (Slots-update new m.cache b x (slot + 1) rest (away home.0) cached.1) safe c'
          (safe _ c', h) in
      record {
        committed = done.committed;
        images = done.images;
        blocks = λ a at_home k. done.blocks a at_home (λ absent. step a value k absent);
      }
    where
      away : Home start size b → (b < slot + 1) ⊎ (slot + 1 + length rest ≤ b)
      away (inl below) = inl (omega arith)
      away (inr above) = inr (omega arith)

      step :
          (a : ℕ)
          → update m.cache b (m.cache slot) b ≡ new b
          → (contains a (b ∷ rest) ≡ false → m.disk a ≡ new a)
          → contains a rest ≡ false
          → update m.disk b (update m.cache b (m.cache slot) b) a ≡ new a
      step a value k absent = elim (ℕ_discrete b a) [
        | yes same ↦
            subst (λ j. update m.disk b (update m.cache b (m.cache slot) b) j ≡ new j) same
              (update_self m.disk b (update m.cache b (m.cache slot) b) ∙ value)
        | no other ↦
            update_ne m.disk b (update m.cache b (m.cache slot) b) a other ∙ k (ground arith)
      ]

module _ (start size : ℕ) (old new : Disk) where
  abbrev Clean : Disk → Type 0
  Clean = IsClean start size old

  -- What holds after `write_from` of `rest` to the slots from `slot` on.
  pub record Written (slot : ℕ) (rest : List ℕ) (m m' : Machine) : Type 0 where
    pub clean : Clean m'.disk
    pub images : All Clean m'.images
    pub cached : Slots new m'.cache slot rest
    pub stored : Slots new m'.disk slot rest
    pub below : (b : ℕ) → b < slot → (m'.cache b ≡ m.cache b) × (m'.disk b ≡ m.disk b)
    pub home : (b : ℕ) → Home start size b → m'.cache b ≡ m.cache b

  pub write_from-Written :
      (rest : List ℕ) (slot : ℕ) (m : Machine)
      → start < slot
      → slot + length rest ≤ start + size
      → AllHome start size rest
      → ((b : ℕ) → Home start size b → m.cache b ≡ new b)
      → Clean m.disk
      → All Clean m.images
      → Written slot rest m (write_from slot rest m)
  unfolding write_from
  write_from-Written [] slot m low high home fresh c h = record {
    clean = c;
    images = h;
    cached = tt;
    stored = tt;
    below = λ b _. (refl, refl);
    home = λ b _. refl;
  }
  write_from-Written (b ∷ rest) slot m low high home fresh c h =
      let x = m.cache b in
      let y = update m.cache slot x slot in
      let m' = bwrite slot (modify slot x m) in
      let c' = IsClean-update_slot slot y low (omega arith) c in
      let keeps =
        λ (a : ℕ) (at_home : Home start size a). update_ne m.cache slot x a (omega arith) in
      let done =
        write_from-Written rest (slot + 1) m' (omega arith) (omega arith) home.1
          (λ a at_home. keeps a at_home ∙ fresh a at_home) c' (c', h) in
      let value = update_self m.cache slot x ∙ fresh b home.0 in
      let here = done.below slot (omega arith) in
      record {
        clean = done.clean;
        images = done.images;
        cached = (here.0 ∙ value, done.cached);
        stored = (here.1 ∙ update_self m.disk slot y ∙ value, done.stored);
        below = λ a h'.
            let (in_cache, on_disk) = done.below a (omega arith) in
            (
              in_cache ∙ update_ne m.cache slot x a (omega arith),
              on_disk ∙ update_ne m.disk slot y a (omega arith),
            );
        home = λ a at_home. done.home a at_home ∙ keeps a at_home;
      }
