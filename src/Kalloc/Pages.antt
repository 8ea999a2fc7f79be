-- ===== src/Kalloc/Pages.antt =====
-- kalloc.c: which pages are free, which are in use, and that no page is both.
use sys_prog_assessment.Prelude.{
  ℕ, ◌+◌, ◌%◌, ◌≤◌, ◌<◌, ◌≡◌, ◌≢◌, refl, arith, false, update, update_self, ◌==◌, List, [], ◌∷◌,
  All, contains, ok,
}
use sys_prog_assessment.Kalloc.{Kmem, pgsize, junk, refused, kfree, kalloc}

-- The list from `v` on, with its pages: a page is not the null pointer and starts at a page border.
unfoldable pub Linked : (ℕ → ℕ) → ℕ → List ℕ → Type 0
Linked m v [] = v ≡ 0
Linked m v (w ∷ ws) =
    (v ≡ w) × (0 < w) × (w % pgsize ≡ 0) × (contains w ws ≡ false) × Linked m (m w) ws

-- The free pages of the allocator, and the pages in use.
abbrev pub Owns : Kmem → List ℕ → List ℕ → Type 0
Owns k free used = Linked k.memory k.freelist free × All (λ v. contains v free ≡ false) used

-- A store into a page that is not free leaves the list as it is.
pub Linked-update :
    (m : ℕ → ℕ) (a x p v : ℕ) (ws : List ℕ)
    → p ≤ a
    → a < p + pgsize
    → p % pgsize ≡ 0
    → contains p ws ≡ false
    → Linked m v ws
    → Linked (update m a x) v ws
unfolding Linked
Linked-update m a x p v [] h k l n f = f
Linked-update m a x p v (w ∷ ws) h k l n (e, b, c, d, f) =
    let other : p ≢ w = ground arith in
    let rest = Linked-update m a x p (m w) ws h k l (ground arith) f in
    let same : update m a x w ≡ m w = ground arith in (e, b, c, d, rw same rest)

Linked-junk :
    (m : ℕ → ℕ) (p v : ℕ) (ws : List ℕ)
    → p % pgsize ≡ 0
    → contains p ws ≡ false
    → Linked m v ws
    → Linked (junk p m) v ws
unfolding Linked junk
Linked-junk m p v [] l n f = f
Linked-junk m p v (w ∷ ws) l n (e, b, c, d, f) =
    let other : p ≢ w = ground arith in
    let rest = Linked-junk m p (m w) ws l (ground arith) f in
    let same : junk p m w ≡ m w = ground arith in (e, b, c, d, rw same rest)

add-NotFree :
    (v : ℕ) (free used : List ℕ)
    → contains v used ≡ false
    → All (λ w. contains w free ≡ false) used
    → All (λ w. contains w (v ∷ free) ≡ false) used
add-NotFree v free [] n h = tt
add-NotFree v free (w ∷ used) n (h, hs) =
    (ground (arith, h), add-NotFree v free used (ground arith) hs)

drop-NotFree :
    (v : ℕ) (free used : List ℕ)
    → All (λ w. contains w (v ∷ free) ≡ false) used
    → All (λ w. contains w free ≡ false) used × (contains v used ≡ false)
drop-NotFree v free [] h = (tt, refl)
drop-NotFree v free (w ∷ used) (h, hs) =
    let (a, b) = drop-NotFree v free used hs in ((ground (arith, h), a), ground (arith, h, b))

-- kfree of a page that is neither free nor in use any more puts it at the front of the free list.
pub kfree-Owns :
    (end_kernel v : ℕ) (k : Kmem) (free used : List ℕ)
    → refused end_kernel v ≡ false
    → contains v free ≡ false
    → contains v used ≡ false
    → Owns k free used
    → (k' : Kmem) × (kfree end_kernel v k ≡ ok k') × Owns k' (v ∷ free) used
unfolding kfree Linked
kfree-Owns end_kernel v k free used r n o (f, h) =
    let border : v % pgsize ≡ 0 = ground arith in
    let above : 0 < v = ground arith in
    let kept = Linked-junk k.memory v k.freelist free border n f in
    let kept' =
      Linked-update (junk v k.memory) v k.freelist v k.freelist free (omega arith) (omega arith)
        border n kept in
    (
      record { freelist = v; memory = update (junk v k.memory) v k.freelist },
      rw r,
      (
        (refl, above, border, n, rw (update_self (junk v k.memory) v k.freelist) kept'),
        add-NotFree v free used o h,
      ),
    )

-- kalloc takes the page at the front, which is not in use, or returns the null pointer.
pub kalloc-Owns :
    (k : Kmem) (v : ℕ) (free used : List ℕ)
    → Owns k (v ∷ free) used
    → ((kalloc k).0 ≡ v) × Owns (kalloc k).1 free (v ∷ used) × (contains v used ≡ false) × (0 < v)
unfolding kalloc Linked
kalloc-Owns k v free used ((e, b, c, d, f), h) =
    let (a, o) = drop-NotFree v free used h in
    let some_page : (k.freelist == 0) ≡ false = ground arith in
    (e, (rw (some_page, e) f, (d, a)), o, b)

pub kalloc_none : (k : Kmem) (used : List ℕ) → Owns k [] used → (kalloc k).0 ≡ 0
unfolding kalloc Linked
kalloc_none k used (e, h) = e

abbrev pub Distinct : List ℕ → Type 0
Distinct [] = Unit
Distinct (v ∷ vs) = (contains v vs ≡ false) × Distinct vs
