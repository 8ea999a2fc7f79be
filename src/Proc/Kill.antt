-- ===== src/Proc/Kill.antt =====
-- `kill` looks at the pids of all slots, of those that hold no process too.
use sys_prog_assessment.Prelude.{
  ℕ, ◌≡◌, ◌≢◌, refl, ◌∙◌, true, none, some, ◌==◌, if◌then◌else◌, arith,
}
use sys_prog_assessment.Proc.{
  Proc, runnable, Ptable, nproc, modify, is_unused, is_sleeping, kill, allocproc, fork_child, fork,
}
use sys_prog_assessment.Proc.Table.{Found, find_at}

abbrev struck : Proc → Proc
struck p = record p { killed = true; state = if is_sleeping p.state then runnable else p.state }

kill-Found :
    (pid : ℕ) (t : Ptable) (i : ℕ)
    → Found nproc 0 (λ p. p.pid == pid) t i
    → kill pid t ≡ (true, modify i struck t)
unfolding kill
kill-Found pid t i f = rw (find_at nproc 0 (λ p. p.pid == pid) t i f, kill)

-- The slot that `kill` marked is still the first unused one.
Found-struck :
    (t : Ptable) (i : ℕ)
    → Found nproc 0 (λ p. is_unused p.state) t i
    → Found nproc 0 (λ p. is_unused p.state) (modify i struck t) i
Found-struck t i f = record {
  low = f.low;
  high = f.high;
  passes = ground (arith, f.passes);
  first = λ k a b. ground (arith, f.first k a b);
}

alloc-Found :
    (k : ℕ) (t : Ptable) (i : ℕ)
    → Found nproc 0 (λ p. is_unused p.state) t i
    → ((allocproc (some k) t).0 ≡ some i)
      × (((allocproc (some k) t).1.proc i).killed ≡ (t.proc i).killed)
unfolding allocproc
alloc-Found k t i f =
    rw (find_at nproc 0 (λ p. is_unused p.state) t i f, allocproc) (refl, ground arith)

fork-Found :
    (cur k d : ℕ) (t : Ptable) (i : ℕ)
    → Found nproc 0 (λ p. is_unused p.state) t i
    → let (child, t') = fork cur (some k) (some d) t in
      (child ≢ none) × ((t'.proc i).killed ≡ (t.proc i).killed) × ((t'.proc i).state ≡ runnable)
unfolding fork
fork-Found cur k d t i f =
    let (slot, dead) = alloc-Found k t i f in
    rw (slot, fork) (unfold fork_child in (λ h. cc, ground arith, ground arith))

-- Where the first slot with a pid is the first slot that holds no process, as with pid 0 in a table
-- that has been filled from the front, `kill` of that pid reports success and marks the slot, and
-- the process that `fork` makes next is killed from its start.
pub born_killed :
    (pid cur k d i : ℕ) (t : Ptable)
    → Found nproc 0 (λ p. p.pid == pid) t i
    → Found nproc 0 (λ p. is_unused p.state) t i
    → let (success, t') = kill pid t in
      let (child, t'') = fork cur (some k) (some d) t' in
      (success ≡ true)
      × (child ≢ none)
      × ((t''.proc i).killed ≡ true)
      × ((t''.proc i).state ≡ runnable)
born_killed pid cur k d i t f u =
    let (some_child, dead, ready) = fork-Found cur k d (modify i struck t) i (Found-struck t i u) in
    rw (kill-Found pid t i f) (refl, some_child, dead ∙ ground arith, ready)
