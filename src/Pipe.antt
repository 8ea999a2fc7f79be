-- ===== src/Pipe.antt =====
-- pipe.c: a ring of PIPESIZE bytes between two file descriptors. A call runs under the lock of its
-- pipe until it returns or sleeps, so each such stretch is one function here.
pub mod Ring
pub mod Fifo
pub mod Wake
mod Tests
use sys_prog_assessment.Prelude.{
  ℕ, zero, suc, ◌+◌, ◌%◌, Bool, true, false, not, ◌&&◌, ◌||◌, List, [], ◌∷◌, update, u32, ◌==◌,
  if◌then◌else◌,
}

abbrev pub pipesize : ℕ
pipesize = 512

-- `struct pipe` without its lock. `buf` is `data`: it is only indexed modulo PIPESIZE.
pub record Pipe : Type 0 where
  pub buf : ℕ → ℕ
  pub nread : ℕ
  pub nwrite : ℕ
  pub readopen : Bool
  pub writeopen : Bool

-- The channels `&p->nread` and `&p->nwrite` that `wakeup` is called on.
pub data Chan : Type 0 where
  on_nread on_nwrite : Chan

-- How a stretch of `pipewrite` ends: all bytes are copied, -1 is returned, or the process sleeps on
-- `&p->nwrite` with the bytes that are left.
pub data Write : Type 0 where
  done : Write
  failed : Write
  asleep : List ℕ → Write

-- How a stretch of `piperead` ends.
pub data Read : Type 0 where
  got : List ℕ → Read
  failed : Read
  asleep : Read

abbrev pub full : Pipe → Bool
full p = p.nwrite == u32 (p.nread + pipesize)

abbrev pub empty : Pipe → Bool
empty p = p.nread == p.nwrite

-- The fields that `pipealloc` sets; the bytes of the page are what `kalloc` left there.
unfoldable pub pipealloc : (ℕ → ℕ) → Pipe
pipealloc page = record { buf = page; nread = 0; nwrite = 0; readopen = true; writeopen = true }

-- `p->data[p->nwrite++ % PIPESIZE] = c`
unfoldable pub put : Pipe → ℕ → Pipe
put p c = record p { buf = update p.buf (p.nwrite % pipesize) c; nwrite = u32 (p.nwrite + 1) }

-- The `for` of `pipewrite` with the `while` inside it. The process goes on here when it is woken.
unfoldable pub pipewrite : Bool → Pipe → List ℕ → Pipe × Write × List Chan
unfolding put
pipewrite killed p [] = (p, done, on_nread ∷ [])
pipewrite killed p (c ∷ cs) =
    if full p
    then (if not p.readopen || killed then (p, failed, []) else (p, asleep (c ∷ cs), on_nread ∷ []))
    else pipewrite killed (put p c) cs

-- `addr[i] = p->data[p->nread++ % PIPESIZE]`
unfoldable pub skip : Pipe → Pipe
skip p = record p { nread = u32 (p.nread + 1) }

-- The `for` of `piperead`, with the rounds that are left: the bytes copied out, and the pipe.
unfoldable pub copy_out : ℕ → Pipe → List ℕ × Pipe
unfolding skip
copy_out zero p = ([], p)
copy_out (suc n) p =
    let rest = copy_out n (skip p) in
    if empty p then ([], p) else (p.buf (p.nread % pipesize) ∷ rest.0, rest.1)

unfoldable pub piperead : Bool → Pipe → ℕ → Pipe × Read × List Chan
unfolding copy_out
piperead killed p n =
    if empty p && p.writeopen
    then (if killed then (p, failed, []) else (p, asleep, []))
    else ((copy_out n p).1, got (copy_out n p).0, on_nwrite ∷ [])

-- The Boolean says whether the page of the pipe is freed.
unfoldable pub pipeclose : Pipe → Bool → Pipe × Bool × List Chan
pipeclose p writable =
    let p' : Pipe =
      (if writable then record p { writeopen = false } else record p { readopen = false }) in
    (p', not p'.readopen && not p'.writeopen, (if writable then on_nread ∷ [] else on_nwrite ∷ []))
