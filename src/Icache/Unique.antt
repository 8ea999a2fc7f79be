-- ===== src/Icache/Unique.antt =====
-- fs.c: an inode has at most one slot in use.
use sys_prog_assessment.Prelude.{
  ℕ, zero, suc, ◌+◌, ◌-◌, ◌<◌, ◌≤◌, ◌≡◌, ◌≢◌, refl, sym, ap, subst, ◌∙◌, arith, true, false, ◌==◌,
  ◌&&◌, Bool-cases, inl, inr, ◌⊎◌, ℕ_discrete, Outcome, ok, panic, Outcome-cases, ok_inj, Option,
  none, some, update, update_self, update_ne,
}
use sys_prog_assessment.Blocks.{Superblock, Volume}
use sys_prog_assessment.Content.{Inode}
use sys_prog_assessment.Truncate.{itrunc}
use sys_prog_assessment.Icache.{
  ninode, Slot, caches_inode, Search, cached, absent, remember, search_from, add_ref, recycled,
  iget, idup, unref, invalid, iput,
}

abbrev pub IsUnique : (ℕ → Slot) → Type 0
IsUnique slots =
    (dev inum i j : ℕ)
    → i < ninode
    → j < ninode
    → caches_inode dev inum (slots i) ≡ true
    → caches_inode dev inum (slots j) ≡ true
    → i ≡ j

-- A slot that is remembered as empty is below `n`, and it is not in use.
abbrev Empty : ℕ → (ℕ → Slot) → Option ℕ → Type 0
Empty n slots none = Unit
Empty n slots (some e) = (e < n) × ((slots e).ref ≡ 0)

abbrev Searched : ℕ → ℕ → ℕ → ℕ → (ℕ → Slot) → Search → Type 0
Searched i n dev inum slots (cached k) = (k < i + n) × (caches_inode dev inum (slots k) ≡ true)
Searched i n dev inum slots (absent e) =
    Empty (i + n) slots e × ((k : ℕ) → i ≤ k → k < i + n → caches_inode dev inum (slots k) ≡ false)

remember-Empty :
    (i n : ℕ) (slots : ℕ → Slot) (e : Option ℕ)
    → i < n
    → Empty n slots e
    → Empty n slots (remember e i (slots i))
remember-Empty i n slots (some e) l h = h
remember-Empty i n slots none l h = elim (Bool-cases ((slots i).ref == 0)) [
  | inl e ↦ rw e (l, ground (arith, e))
  | inr e ↦ rw e tt
]

search-Searched :
    (n i m : ℕ) (e : Option ℕ) (dev inum : ℕ) (slots : ℕ → Slot)
    → i + n ≡ m
    → Empty m slots e
    → Searched i n dev inum slots (search_from n i e dev inum slots)
unfolding search_from
search-Searched zero i m e dev inum slots p h =
    (subst (λ x. Empty x slots e) (sym p) h, λ k x y. absurd (omega arith))
search-Searched (suc n) i m e dev inum slots p h =
    elim (Bool-cases (caches_inode dev inum (slots i))) [
      | inl q ↦ rw q (omega arith, q)
      | inr q ↦ rw q (
          widen (search_from n (i + 1) (remember e i (slots i)) dev inum slots) q (
            search-Searched n (i + 1) m (remember e i (slots i)) dev inum slots (omega (arith, p))
              (remember-Empty i m slots e (omega (arith, p)) h)))
    ]
  where
    widen :
        (s : Search)
        → caches_inode dev inum (slots i) ≡ false
        → Searched (i + 1) n dev inum slots s
        → Searched i (suc n) dev inum slots s
    widen (cached k) q r = (omega (arith, r.0), r.1)
    widen (absent o) q r = (
      subst (λ x. Empty x slots o) (omega arith) r.0,
      λ k x y. elim (ℕ_discrete i k) [
        | yes z ↦ rw (← z) q
        | no z ↦ r.1 k (omega arith) (omega arith)
      ],
    )

-- What iget does: it counts a reference to the slot of the inode, or takes a slot that is not in use.
data Got (dev inum : ℕ) (slots : ℕ → Slot) : ℕ → (ℕ → Slot) → Type 0 where
  again :
      {i : ℕ}
      → i < ninode
      → caches_inode dev inum (slots i) ≡ true
      → Got dev inum slots i (update slots i (add_ref (slots i)))
  fresh :
      {i : ℕ}
      → i < ninode
      → (slots i).ref ≡ 0
      → ((k : ℕ) → k < ninode → caches_inode dev inum (slots k) ≡ false)
      → Got dev inum slots i (update slots i (recycled dev inum (slots i)))

iget-Got :
    (dev inum : ℕ) (slots slots' : ℕ → Slot) (i : ℕ)
    → iget dev inum slots ≡ ok (i, slots')
    → Got dev inum slots i slots'
unfolding iget
iget-Got dev inum slots slots' i h =
    inner (search_from ninode 0 none dev inum slots)
      (search-Searched ninode 0 ninode none dev inum slots refl tt) h
  where
    inner :
        (s : Search)
        → Searched 0 ninode dev inum slots s
        → Path
            (Outcome (ℕ × (ℕ → Slot)))
            (elim s [
              | cached k ↦ ok (k, update slots k (add_ref (slots k)))
              | absent e ↦ elim e [
                | none ↦ panic "iget: no inodes"
                | some k ↦ ok (k, update slots k (recycled dev inum (slots k)))
              ]
            ])
            (ok (i, slots'))
        → Got dev inum slots i slots'
    inner (cached k) r e =
        subst (λ (x : ℕ × (ℕ → Slot)). Got dev inum slots x.0 x.1)
          (ok_inj (k, update slots k (add_ref (slots k))) (i, slots') e)
          (again (omega (arith, r.0)) r.1)
    inner (absent none) r e = cc
    inner (absent (some k)) r e =
        subst (λ (x : ℕ × (ℕ → Slot)). Got dev inum slots x.0 x.1)
          (ok_inj (k, update slots k (recycled dev inum (slots k))) (i, slots') e)
          (fresh (omega (arith, r.0.0)) r.0.1 (λ j l. r.1 j (omega arith) (omega arith)))

changed-IsUnique :
    (slots : ℕ → Slot) (i : ℕ) (x : Slot)
    → IsUnique slots
    → ((d n k : ℕ)
        → caches_inode d n x ≡ true
        → k < ninode
        → i ≢ k
        → caches_inode d n (slots k) ≡ false)
    → IsUnique (update slots i x)
changed-IsUnique slots i x u h d n j k lj lk a b = elim (ℕ_discrete i j) [
  | yes p ↦ elim (ℕ_discrete i k) [
    | yes q ↦ sym p ∙ q
    | no q ↦
        let at : update slots i x j ≡ x = ap (update slots i x) (sym p) ∙ update_self slots i x in
        let other : update slots i x k ≡ slots k = update_ne slots i x k q in
        cc (
          sym (h d n k (ap (caches_inode d n) (sym at) ∙ a) lk q)
          ∙ ap (caches_inode d n) (sym other)
          ∙ b)
  ]
  | no p ↦
      let here : update slots i x j ≡ slots j = update_ne slots i x j p in
      elim (ℕ_discrete i k) [
        | yes q ↦
            let at : update slots i x k ≡ x =
              ap (update slots i x) (sym q) ∙ update_self slots i x in
            cc (
              sym (h d n j (ap (caches_inode d n) (sym at) ∙ b) lj p)
              ∙ ap (caches_inode d n) (sym here)
              ∙ a)
        | no q ↦
            let other : update slots i x k ≡ slots k = update_ne slots i x k q in
            u d n j k lj lk (ap (caches_inode d n) (sym here) ∙ a)
              (ap (caches_inode d n) (sym other) ∙ b)
      ]
]

-- A change after which the slot is in use for no inode for which it was not.
weaker-IsUnique :
    (slots : ℕ → Slot) (i : ℕ) (x : Slot)
    → IsUnique slots
    → i < ninode
    → ((d n : ℕ) → caches_inode d n x ≡ true → caches_inode d n (slots i) ≡ true)
    → IsUnique (update slots i x)
weaker-IsUnique slots i x u l h = changed-IsUnique slots i x u (λ d n k a lk q.
    elim (Bool-cases (caches_inode d n (slots k))) [
      | inl b ↦ absurd (q (u d n i k l lk (h d n a) b))
      | inr b ↦ b
    ])

recycled_inode :
    (dev inum d n : ℕ) (s : Slot)
    → caches_inode d n (recycled dev inum s) ≡ true
    → (dev ≡ d) × (inum ≡ n)
recycled_inode dev inum d n s h = (ground (arith, h), ground (arith, h))

Got-IsUnique :
    (dev inum : ℕ) (slots : ℕ → Slot) {i : ℕ} {slots' : ℕ → Slot}
    → IsUnique slots
    → Got dev inum slots i slots'
    → IsUnique slots'
Got-IsUnique dev inum slots u (again {i = i} l c) =
    weaker-IsUnique slots i (add_ref (slots i)) u l (λ d n a. ground (arith, c, a))
Got-IsUnique dev inum slots u (fresh {i = i} l z h) =
    changed-IsUnique slots i (recycled dev inum (slots i)) u (λ d n k a lk q.
      let (p, r) = recycled_inode dev inum d n (slots i) a in rw (← p, ← r) (h k lk))

idup-IsUnique :
    (slots : ℕ → Slot) (i : ℕ)
    → IsUnique slots
    → i < ninode
    → 0 < (slots i).ref
    → IsUnique (idup i slots)
unfolding idup
idup-IsUnique slots i u l r =
    weaker-IsUnique slots i (add_ref (slots i)) u l (λ d n a. ground (arith, r, a))

unref-IsUnique :
    (slots : ℕ → Slot) (i : ℕ)
    → IsUnique slots
    → i < ninode
    → IsUnique (update slots i (unref (slots i)))
unref-IsUnique slots i u l =
    weaker-IsUnique slots i (unref (slots i)) u l (λ d n a. ground (arith, a))

-- A slot that has lost its last reference is in use for no inode.
invalid-IsUnique :
    (slots : ℕ → Slot) (i : ℕ) (ip : Inode)
    → IsUnique slots
    → (slots i).ref ≡ 1
    → IsUnique (update slots i (unref (invalid ip (slots i))))
invalid-IsUnique slots i ip u r =
    changed-IsUnique slots i (unref (invalid ip (slots i))) u (λ d n k a lk q.
      let none_left : (slots i).ref - 1 ≡ 0 = omega (arith, r) in
      cc (unused d n (invalid ip (slots i)) none_left))
  where
    unused : (d n : ℕ) (s : Slot) → s.ref - 1 ≡ 0 → caches_inode d n (unref s) ≡ false
    unused d n s h = ground (arith, h)

iput-IsUnique :
    (sb : Superblock) (i : ℕ) (slots : ℕ → Slot) (v : Volume) {r : (ℕ → Slot) × Volume}
    → IsUnique slots
    → i < ninode
    → iput sb i slots v ≡ ok r
    → IsUnique r.0
unfolding iput
iput-IsUnique sb i slots v {r = r} u l h =
    elim (Bool-cases ((slots i).valid && (slots i).content.nlink == 0 && (slots i).ref == 1)) [
      | inr e ↦
          subst (λ (x : (ℕ → Slot) × Volume). IsUnique x.0)
            (ok_inj (update slots i (unref (slots i)), v) r (rw e at h))
            (unref-IsUnique slots i u l)
      | inl e ↦ elim (Outcome-cases (itrunc sb (slots i).content v)) [
        | inr (s, z) ↦ cc (rw (e, z) at h)
        | inl (t, z) ↦
            let one : (slots i).ref ≡ 1 = ground (arith, e) in
            subst (λ (x : (ℕ → Slot) × Volume). IsUnique x.0) (ok_inj _ r (rw (e, z) at h))
              (invalid-IsUnique slots i (record t.0 { kind = 0 }) u one)
      ]
    ]

-- What happens to the cache: it begins without references, iget is called for any inode, and idup and
-- iput for slots that have references.
pub data Reach (sb : Superblock) : (ℕ → Slot) → Type 0 where
  boot : {slots : ℕ → Slot} → ((i : ℕ) → (slots i).ref ≡ 0) → Reach sb slots
  got :
      (dev inum i : ℕ) (slots : ℕ → Slot) {slots' : ℕ → Slot}
      → Reach sb slots
      → iget dev inum slots ≡ ok (i, slots')
      → Reach sb slots'
  duplicated :
      (slots : ℕ → Slot) (i : ℕ)
      → Reach sb slots
      → i < ninode
      → 0 < (slots i).ref
      → Reach sb (idup i slots)
  put :
      (slots : ℕ → Slot) (i : ℕ) (v : Volume) (slots' : ℕ → Slot) (v' : Volume)
      → Reach sb slots
      → i < ninode
      → 0 < (slots i).ref
      → iput sb i slots v ≡ ok (slots', v')
      → Reach sb slots'

Reach-IsUnique : (sb : Superblock) {slots : ℕ → Slot} → Reach sb slots → IsUnique slots
Reach-IsUnique sb (boot {slots = slots} h) = λ d n i j li lj a b. absurd (ground (arith, h i, a))
Reach-IsUnique sb (got dev inum i slots {slots' = slots'} w e) =
    Got-IsUnique dev inum slots (Reach-IsUnique sb w) (iget-Got dev inum slots slots' i e)
Reach-IsUnique sb (duplicated slots i w l r) = idup-IsUnique slots i (Reach-IsUnique sb w) l r
Reach-IsUnique sb (put slots i v slots' v' w l p e) =
    iput-IsUnique sb i slots v {r = (slots', v')} (Reach-IsUnique sb w) l e

-- Got slots hold the inode, and they were free or held it before.
Got-caches :
    (dev inum : ℕ) (slots : ℕ → Slot) {i : ℕ} {slots' : ℕ → Slot}
    → Got dev inum slots i slots'
    → (i < ninode)
      × (caches_inode dev inum (slots' i) ≡ true)
      × (((slots i).ref ≡ 0) ⊎ (caches_inode dev inum (slots i) ≡ true))
Got-caches dev inum slots (again {i = i} l c) = (
  l,
  ap (caches_inode dev inum) (update_self slots i (add_ref (slots i))) ∙ ground (arith, c),
  inr c,
)
Got-caches dev inum slots (fresh {i = i} l z h) = (
  l,
  ap (caches_inode dev inum) (update_self slots i (recycled dev inum (slots i))) ∙ ground arith,
  inl z,
)

-- In every cache that iget, idup and iput lead to, the slot that iget returns is in use for the inode,
-- it was for it before or was not in use, and no other slot `j` is in use for the inode.
pub iget_lem :
    (sb : Superblock) (slots slots' : ℕ → Slot) (dev inum i j : ℕ)
    → Reach sb slots
    → iget dev inum slots ≡ ok (i, slots')
    → j < ninode
    → i ≢ j
    → (caches_inode dev inum (slots' i) ≡ true)
      × (((slots i).ref ≡ 0) ⊎ (caches_inode dev inum (slots i) ≡ true))
      × (caches_inode dev inum (slots' j) ≡ false)
iget_lem sb slots slots' dev inum i j w h l n =
    let (a, b, c) = Got-caches dev inum slots (iget-Got dev inum slots slots' i h) in
    (
      b,
      c,
      elim (Bool-cases (caches_inode dev inum (slots' j))) [
        | inl d ↦ absurd (n (Reach-IsUnique sb (got dev inum i slots w h) dev inum i j a l b d))
        | inr d ↦ d
      ],
    )
