-- ===== src/Proc/Table.antt =====
-- The loops over the process table: what they find, and what they change slot by slot.
use sys_prog_assessment.Prelude.{
  ℕ, zero, suc, ◌+◌, ◌≤◌, ◌<◌, ◌≡◌, refl, ◌∙◌, Bool, true, false, ◌&&◌, none, some, ◌==◌, ltb, leb,
  if◌then◌else◌, arith, inl, inr, Bool-cases,
}
use sys_prog_assessment.Proc.{Proc, Ptable, nproc, modify, for_procs, find, wake, wakeup1, Chan}

-- What `find` says of the slot that it returns.
pub record Found (n i : ℕ) (test : Proc → Bool) (t : Ptable) (j : ℕ) : Type 0 where
  pub low : i ≤ j
  pub high : j < i + n
  pub passes : test (t.proc j) ≡ true
  pub first : (k : ℕ) → i ≤ k → k < j → test (t.proc k) ≡ false

pub find-Found :
    (n i : ℕ) (test : Proc → Bool) (t : Ptable) {j : ℕ}
    → find n i test t ≡ some j
    → Found n i test t j
unfolding find
find-Found zero i test t e = absurd (cc)
find-Found (suc n) i test t {j} e = elim (Bool-cases (test (t.proc i))) [
  | inl yes_here ↦
      let same : i ≡ j = ground arith in
      record {
        low = omega arith;
        high = omega arith;
        passes = ground arith;
        first = λ k a b. absurd (omega arith);
      }
  | inr not_here ↦
      let rest = find-Found n (i + 1) test t {j = j} (ground arith) in
      record {
        low = omega (arith, rest.low);
        high = omega (arith, rest.high);
        passes = rest.passes;
        first = λ k a b. elim (Bool-cases (i == k)) [
          | inl same ↦ ground arith
          | inr other ↦ rest.first k (ground arith) b
        ];
      }
]

pub find-none :
    (n i : ℕ) (test : Proc → Bool) (t : Ptable)
    → find n i test t ≡ none
    → (k : ℕ) → i ≤ k
    → k < i + n
    → test (t.proc k) ≡ false
unfolding find
find-none zero i test t e k a b = absurd (omega arith)
find-none (suc n) i test t e k a b = elim (Bool-cases (test (t.proc i))) [
  | inl yes_here ↦ absurd (ground arith)
  | inr not_here ↦ elim (Bool-cases (i == k)) [
    | inl same ↦ ground arith
    | inr other ↦ find-none n (i + 1) test t (ground arith) k (ground arith) (omega arith)
  ]
]

-- A search that the first slot to pass is known of.
pub find_at :
    (n i : ℕ) (test : Proc → Bool) (t : Ptable) (j : ℕ)
    → Found n i test t j
    → find n i test t ≡ some j
unfolding find
find_at zero i test t j f = absurd (omega (arith, f.low, f.high))
find_at (suc n) i test t j f = elim (Bool-cases (i == j)) [
  | inl same ↦ ground (arith, f.passes)
  | inr other ↦ rw (f.first i (omega arith) (ground (arith, f.low))) (
      find_at n (i + 1) test t j (record {
        low = ground (arith, f.low);
        high = omega (arith, f.high);
        passes = f.passes;
        first = λ k a b. f.first k (omega arith) b;
      }))
]

pub for_procs_keeps {ℓ} :
    (P : Ptable → Type ℓ) (body : ℕ → Ptable → Ptable)
    → ((i : ℕ) (t : Ptable) → P t → P (body i t))
    → (n i : ℕ) (t : Ptable) → P t
    → P (for_procs n i body t)
unfolding for_procs
for_procs_keeps P body keep zero i t h = h
for_procs_keeps P body keep (suc n) i t h =
    for_procs_keeps P body keep n (i + 1) (body i t) (keep i t h)

proc-for_procs :
    (g : Proc → Proc) (n i : ℕ) (t : Ptable) (j : ℕ)
    → (for_procs n i (λ k. modify k g) t).proc j
      ≡ (if leb i j && ltb j (i + n) then g (t.proc j) else t.proc j)
unfolding for_procs
proc-for_procs g zero i t j = ground arith
proc-for_procs g (suc n) i t j = proc-for_procs g n (i + 1) (modify i g t) j ∙ ground arith

-- `wakeup1` makes runnable exactly the processes that sleep on the channel.
pub proc-wakeup1 :
    (c : Chan) (t : Ptable) (j : ℕ) → j < nproc → (wakeup1 c t).proc j ≡ wake c (t.proc j)
unfolding wakeup1
proc-wakeup1 c t j h = proc-for_procs (wake c) nproc 0 t j ∙ ground arith

pub rest-wakeup1 :
    (c : Chan) (t : Ptable)
    → ((wakeup1 c t).nextpid ≡ t.nextpid) × ((wakeup1 c t).initproc ≡ t.initproc)
unfolding wakeup1
rest-wakeup1 c t =
    for_procs_keeps (λ (u : Ptable). (u.nextpid ≡ t.nextpid) × (u.initproc ≡ t.initproc))
      (λ i. modify i (wake c)) (λ i u h. h) nproc 0 t (refl, refl)
