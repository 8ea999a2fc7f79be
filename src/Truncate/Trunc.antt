-- ===== src/Truncate/Trunc.antt =====
-- fs.c: itrunc frees the blocks of a file, and no others.
use sys_prog_assessment.Prelude.{
  ℕ, zero, suc, ◌+◌, ◌<◌, ◌≤◌, ◌≡◌, ◌≢◌, refl, sym, ap, ◌∙◌, arith, true, false, ◌==◌, update,
  update_self, update_ne, ℕ_discrete, ok,
}
use sys_prog_assessment.Blocks.{Superblock, Volume, bfree}
use sys_prog_assessment.Blocks.Alloc.{IsVolume}
use sys_prog_assessment.Blocks.Words.{word_at}
use sys_prog_assessment.Content.{Inode, set_addr}
use sys_prog_assessment.Truncate.{trunc_direct, trunc_words}
use sys_prog_assessment.Truncate.Free.{
  cleared, Freed, CanFree, none-Freed, skip-CanFree, skip-Freed, step-CanFree, step-IsVolume,
  step-bfree, step-Freed,
}

words_skip :
    (n j : ℕ) (a : ℕ → ℕ) (sb : Superblock) (v : Volume)
    → word_at a j ≡ 0
    → trunc_words (suc n) j a sb v ≡ trunc_words n (j + 1) a sb v
unfolding trunc_words
words_skip n j a sb v e = rw (trunc_words, e)

words_free :
    (n j : ℕ) (a : ℕ → ℕ) (sb : Superblock) (v v' : Volume)
    → word_at a j ≢ 0
    → bfree (word_at a j) sb v ≡ ok v'
    → trunc_words (suc n) j a sb v ≡ trunc_words n (j + 1) a sb v'
unfolding trunc_words
words_free n j a sb v v' z h =
    let t : (word_at a j == 0) ≡ false = ground arith in rw (trunc_words, t, h)

-- The loop over the indirect block frees what its words list.
pub words-Freed :
    (n j i : ℕ) (f a : ℕ → ℕ) (sb : Superblock) (v : Volume)
    → IsVolume sb v
    → CanFree sb f i n v
    → ((k : ℕ) → k < n → word_at a (j + k) ≡ f (i + k))
    → (v' : Volume) × (trunc_words n j a sb v ≡ ok v') × Freed sb f i n v v'
unfolding trunc_words
words-Freed zero j i f a sb v vol c h = (v, refl, none-Freed sb f i v vol)
words-Freed (suc n) j i f a sb v vol c h =
    let first : word_at a j ≡ f i =
      ap (word_at a) (omega arith) ∙ h 0 (omega arith) ∙ ap f (omega arith) in
    let rest : ((k : ℕ) → k < n → word_at a (j + 1 + k) ≡ f (i + 1 + k)) =
      λ k l. ap (word_at a) (omega arith) ∙ h (k + 1) (omega arith) ∙ ap f (omega arith) in
    elim (ℕ_discrete (f i) 0) [
      | yes z ↦
          let (v', e, g) =
            words-Freed n (j + 1) (i + 1) f a sb v vol (skip-CanFree sb f i n v c) rest in
          (v', words_skip n j a sb v (first ∙ z) ∙ e, skip-Freed sb f i n v c v' z g)
      | no z ↦
          let w = cleared (f i) sb v in
          let (v', e, g) =
            words-Freed n (j + 1) (i + 1) f a sb w (step-IsVolume sb f i n v c vol z)
              (step-CanFree sb f i n v c vol z) rest in
          (
            v',
            words_free n j a sb v w (λ q. z (sym first ∙ q))
                  (ap (λ b. bfree b sb v) first ∙ step-bfree sb f i n v c vol z)
                ∙ e,
            step-Freed sb f i n v c vol z v' g,
          )
    ]

direct_skip :
    (n i : ℕ) (sb : Superblock) (ip : Inode) (v : Volume)
    → ip.addrs i ≡ 0
    → trunc_direct (suc n) i sb ip v ≡ trunc_direct n (i + 1) sb ip v
unfolding trunc_direct
direct_skip n i sb ip v e = let t : (ip.addrs i == 0) ≡ true = ground arith in rw (trunc_direct, t)

direct_free :
    (n i : ℕ) (sb : Superblock) (ip : Inode) (v v' : Volume)
    → ip.addrs i ≢ 0
    → bfree (ip.addrs i) sb v ≡ ok v'
    → trunc_direct (suc n) i sb ip v ≡ trunc_direct n (i + 1) sb (set_addr i 0 ip) v'
unfolding trunc_direct
direct_free n i sb ip v v' z h =
    let t : (ip.addrs i == 0) ≡ false = ground arith in rw (trunc_direct, t, h)

-- What the first loop leaves of the inode.
pub record Emptied (i n : ℕ) (ip ip' : Inode) : Type 0 where
  pub same : ip' ≡ record ip { addrs = ip'.addrs }
  pub gone : (k : ℕ) → i ≤ k → k < i + n → ip'.addrs k ≡ 0
  pub after : (k : ℕ) → i + n ≤ k → ip'.addrs k ≡ ip.addrs k
  pub before : (k : ℕ) → k < i → ip'.addrs k ≡ ip.addrs k

pub direct-Freed :
    (n i : ℕ) (f : ℕ → ℕ) (sb : Superblock) (ip : Inode) (v : Volume)
    → IsVolume sb v
    → CanFree sb f i n v
    → ((k : ℕ) → i ≤ k → k < i + n → ip.addrs k ≡ f k)
    → (ip' : Inode) × (v' : Volume) × (trunc_direct n i sb ip v ≡ ok (ip', v'))
      × Freed sb f i n v v'
      × Emptied i n ip ip'
unfolding trunc_direct
direct-Freed zero i f sb ip v vol c h = (
  ip,
  v,
  refl,
  none-Freed sb f i v vol,
  record {
    same = refl;
    gone = λ k x y. absurd (omega arith);
    after = λ k x. refl;
    before = λ k x. refl;
  },
)
direct-Freed (suc n) i f sb ip v vol c h =
    let first = h i (omega arith) (omega arith) in
    elim (ℕ_discrete (f i) 0) [
      | yes z ↦
          let (ip', v', e, g, m) =
            direct-Freed n (i + 1) f sb ip v vol (skip-CanFree sb f i n v c)
              (λ k x y. h k (omega arith) (omega arith)) in
          (
            ip',
            v',
            direct_skip n i sb ip v (first ∙ z) ∙ e,
            skip-Freed sb f i n v c v' z g,
            record {
              same = m.same;
              gone = λ k x y. elim (ℕ_discrete i k) [
                | yes p ↦ m.before k (omega arith) ∙ ap ip.addrs (sym p) ∙ first ∙ z
                | no p ↦ m.gone k (omega arith) (omega arith)
              ];
              after = λ k x. m.after k (omega arith);
              before = λ k x. m.before k (omega arith);
            },
          )
      | no z ↦
          let w = cleared (f i) sb v in
          let freed_here : bfree (ip.addrs i) sb v ≡ ok w =
            ap (λ b. bfree b sb v) first ∙ step-bfree sb f i n v c vol z in
          let (ip', v', e, g, m) =
            direct-Freed n (i + 1) f sb (set_addr i 0 ip) w (step-IsVolume sb f i n v c vol z)
              (step-CanFree sb f i n v c vol z)
              (λ k x y. update_ne ip.addrs i 0 k (omega arith) ∙ h k (omega arith) (omega arith)) in
          (
            ip',
            v',
            direct_free n i sb ip v w (λ q. z (sym first ∙ q)) freed_here ∙ e,
            step-Freed sb f i n v c vol z v' g,
            record {
              same = m.same;
              gone = λ k x y. elim (ℕ_discrete i k) [
                | yes p ↦
                    m.before k (omega arith)
                    ∙ ap (update ip.addrs i 0) (sym p)
                    ∙ update_self ip.addrs i 0
                | no p ↦ m.gone k (omega arith) (omega arith)
              ];
              after = λ k x. m.after k (omega arith) ∙ update_ne ip.addrs i 0 k (omega arith);
              before = λ k x. m.before k (omega arith) ∙ update_ne ip.addrs i 0 k (omega arith);
            },
          )
    ]
