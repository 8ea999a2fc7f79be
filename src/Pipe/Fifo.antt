-- ===== src/Pipe/Fifo.antt =====
-- A pipe is a bounded first-in first-out queue, for each call and for any interleaving of calls.
use sys_prog_assessment.Prelude.{
  ℕ, zero, suc, ◌+◌, ◌-◌, ◌≡◌, refl, ap, ap₂, ◌%◌, ◌∙◌, sym, true, false, not, ◌||◌, ◌&&◌, inl, inr,
  List, [], ◌∷◌, ◌++◌, append-nil, append_assoc, length, take-append-drop, take-nil, drop-nil, take,
  drop, Bool, arith, leb, if◌then◌else◌, Bool-cases,
}
use sys_prog_assessment.Pipe.{
  Pipe, pipesize, full, empty, put, skip, Chan, Write, Read, pipewrite, copy_out, piperead,
}
use sys_prog_assessment.Pipe.Ring.{
  IsValid, contents, count, length-contents, contents-put, put-IsValid, contents-skip, skip-IsValid,
  contents_of_empty,
}

-- What a write of `cs` reports where `room` bytes are free, and `gone` says that nobody will read.
abbrev pub write_result : Bool → ℕ → List ℕ → Write
write_result gone room cs =
    if leb (length cs) room
    then Write.done
    else (if gone then Write.failed else Write.asleep (drop room cs))

-- The queue's side of a write: what fits is appended.
abbrev pub write_queue : Bool → List ℕ → List ℕ → Write × List ℕ
write_queue gone cs q =
    (write_result gone (pipesize - length q) cs, q ++ take (pipesize - length q) cs)

-- The queue's side of a read of `n` bytes, with `open` for the write end.
abbrev pub read_queue : Bool → Bool → ℕ → List ℕ → Read × List ℕ
read_queue killed open_end n [] =
    if open_end then (if killed then Read.failed else Read.asleep, []) else (Read.got [], [])
read_queue killed open_end n (x ∷ xs) = (Read.got (take n (x ∷ xs)), drop n (x ∷ xs))

record Wrote (killed : Bool) (p : Pipe) (cs : List ℕ) (room : ℕ) (out : Pipe × Write × List Chan)
    : Type 0 where
  valid : IsValid out.0
  bytes : contents out.0 ≡ contents p ++ take room cs
  result : out.1 ≡ write_result (not p.readopen || killed) room cs

count-put : (p : Pipe) (c : ℕ) → IsValid p → full p ≡ false → count (put p c) ≡ count p + 1
unfolding put
count-put p c v h = ground arith

readopen-put : (p : Pipe) (c : ℕ) → (put p c).readopen ≡ p.readopen
unfolding put
readopen-put p c = refl

full_at : (p : Pipe) → 0 + count p ≡ pipesize → IsValid p → full p ≡ true
full_at p e v = ground arith

not_full_at : (p : Pipe) (room : ℕ) → suc room + count p ≡ pipesize → IsValid p → full p ≡ false
not_full_at p room e v = ground arith

pipewrite-Wrote :
    (killed : Bool) (cs : List ℕ) (p : Pipe) (room : ℕ)
    → room + count p ≡ pipesize
    → IsValid p
    → Wrote killed p cs room (pipewrite killed p cs)
unfolding pipewrite
pipewrite-Wrote killed [] p zero e v = record {
  valid = v;
  bytes = sym (append-nil (contents p));
  result = refl;
}
pipewrite-Wrote killed [] p (suc room) e v = record {
  valid = v;
  bytes = sym (append-nil (contents p));
  result = ground arith;
}
pipewrite-Wrote killed (c ∷ cs) p zero e v =
    rw (full_at p e v) (ground (arith, append-nil (contents p)))
pipewrite-Wrote killed (c ∷ cs) p (suc room) e v =
    let stays = not_full_at p room e v in
    let rest =
      pipewrite-Wrote killed cs (put p c) room (omega (arith, count-put p c v stays))
        (put-IsValid p c v stays) in
    rw stays (record {
      valid = rest.valid;
      bytes =
          rest.bytes
          ∙ ap (λ q. q ++ take room cs) (contents-put p c v stays)
          ∙ append_assoc (contents p) (c ∷ []) (take room cs);
      result = rest.result ∙ rw (readopen-put p c) (ground arith);
    })

-- `pipewrite` keeps the counters in order, appends to the queue the bytes that fit, and otherwise
-- returns, fails or sleeps as the queue's write says.
pub pipewrite_lem :
    (killed : Bool) (cs : List ℕ) (p : Pipe)
    → IsValid p
    → let (p', r, _) = pipewrite killed p cs in
      IsValid p' × ((r, contents p') ≡ write_queue (not p.readopen || killed) cs (contents p))
pipewrite_lem killed cs p v =
    let w = pipewrite-Wrote killed cs p (pipesize - count p) (omega arith) v in
    (w.valid, rw (length-contents p) (ap₂ (λ a b. (a, b)) w.result w.bytes))

copy_out_lem :
    (n : ℕ) (p : Pipe)
    → IsValid p
    → let (bytes, p') = copy_out n p in
      IsValid p' × (bytes ≡ take n (contents p)) × (contents p' ≡ drop n (contents p))
unfolding copy_out
copy_out_lem zero p v = (v, refl, refl)
copy_out_lem (suc n) p v = elim (Bool-cases (empty p)) [
  | inl nothing ↦ rw (nothing, contents_of_empty p v nothing) (v, refl, refl)
  | inr some_left ↦
      let rest = copy_out_lem n (skip p) (skip-IsValid p v some_left) in
      rw (some_left, contents-skip p v some_left)
        (rest.0, ap (λ l. p.buf (p.nread % pipesize) ∷ l) rest.1, rest.2)
]

read_queue_of_some :
    (killed : Bool) (n : ℕ) (p : Pipe)
    → IsValid p
    → empty p ≡ false
    → read_queue killed p.writeopen n (contents p)
      ≡ (Read.got (take n (contents p)), drop n (contents p))
read_queue_of_some killed n p v h = rw (contents-skip p v h)

-- The three ways through `piperead`: wait, read nothing at the end of the stream, or copy.
piperead_of_empty :
    (killed open_end : Bool) (n : ℕ) (p : Pipe)
    → p.writeopen ≡ open_end
    → IsValid p
    → empty p ≡ true
    → let (p', r, _) = piperead killed p n in
      IsValid p' × ((r, contents p') ≡ read_queue killed open_end n [])
unfolding piperead
piperead_of_empty true true n p o v h =
    let waits : (empty p && p.writeopen) ≡ true = ground arith in
    rw waits (v, rw (contents_of_empty p v h))
piperead_of_empty false true n p o v h =
    let waits : (empty p && p.writeopen) ≡ true = ground arith in
    rw waits (v, rw (contents_of_empty p v h))
piperead_of_empty killed false n p o v h =
    let rest = copy_out_lem n p v in
    let none_left = contents_of_empty p v h in
    let copies : (empty p && p.writeopen) ≡ false = ground arith in
    rw copies (
      rest.0,
      ap₂ (λ a b. (Read.got a, b)) (rest.1 ∙ ap (take n) none_left ∙ take-nil ℕ n)
          (rest.2 ∙ ap (drop n) none_left ∙ drop-nil ℕ n),
    )

-- `piperead` keeps the counters in order, and takes from the front of the queue what the queue's
-- read takes; it sleeps or fails only on an empty queue whose write end is open.
pub piperead_lem :
    (killed : Bool) (n : ℕ) (p : Pipe)
    → IsValid p
    → let (p', r, _) = piperead killed p n in
      IsValid p' × ((r, contents p') ≡ read_queue killed p.writeopen n (contents p))
unfolding piperead
piperead_lem killed n p v = elim (Bool-cases (empty p)) [
  | inl nothing ↦
      rw (contents_of_empty p v nothing) (piperead_of_empty killed p.writeopen n p refl v nothing)
  | inr some_left ↦
      let rest = copy_out_lem n p v in
      rw (some_left, read_queue_of_some killed n p v some_left)
        (rest.0, ap₂ (λ a b. (Read.got a, b)) rest.1 rest.2)
]

-- One call on a pipe, with whether its process is marked as killed.
pub data Call : Type 0 where
  write : Bool → List ℕ → Call
  read : Bool → ℕ → Call

abbrev delivered : Read → List ℕ
delivered (Read.got l) = l
delivered _ = []

-- What a run of calls, in the order in which they get the lock, does to a pipe: the bytes that the
-- writes find room for, the bytes that the reads return, and the pipe that they leave.
pub record Run : Type 0 where
  pub accepted : List ℕ
  pub returned : List ℕ
  pub last : Pipe

unfoldable pub run : List Call → Pipe → Run
run [] p = record { accepted = []; returned = []; last = p }
run (write killed cs ∷ calls) p =
    let rest = run calls (pipewrite killed p cs).0 in
    record rest { accepted = take (pipesize - count p) cs ++ rest.accepted }
run (read killed n ∷ calls) p =
    let rest = run calls (piperead killed p n).0 in
    record rest { returned = delivered (piperead killed p n).1 ++ rest.returned }

delivered-read_queue :
    (killed open_end : Bool) (n : ℕ) (q : List ℕ)
    → let (r, q') = read_queue killed open_end n q in delivered r ++ q' ≡ q
delivered-read_queue true true n [] = refl
delivered-read_queue false true n [] = refl
delivered-read_queue killed false n [] = refl
delivered-read_queue killed open_end n (x ∷ xs) = take-append-drop n (x ∷ xs)

contents-pipewrite :
    (killed : Bool) (cs : List ℕ) (p : Pipe)
    → IsValid p
    → contents (pipewrite killed p cs).0 ≡ contents p ++ take (pipesize - count p) cs
contents-pipewrite killed cs p v =
    (pipewrite-Wrote killed cs p (pipesize - count p) (omega arith) v).bytes

delivered-piperead :
    (killed : Bool) (n : ℕ) (p : Pipe)
    → IsValid p
    → delivered (piperead killed p n).1 ++ contents (piperead killed p n).0 ≡ contents p
delivered-piperead killed n p v =
    ap (λ (x : Read × List ℕ). delivered x.0 ++ x.1) ((piperead_lem killed n p v).1)
    ∙ delivered-read_queue killed p.writeopen n (contents p)

-- Whatever the order of the calls, no byte is lost, doubled or reordered: what was in the pipe and
-- what the writes found room for is what the reads returned and what is still in the pipe.
pub run_fifo :
    (calls : List Call) (p : Pipe)
    → IsValid p
    → contents p ++ (run calls p).accepted ≡ (run calls p).returned ++ contents (run calls p).last
unfolding run
run_fifo [] p v = append-nil (contents p)
run_fifo (write killed cs ∷ calls) p v =
    let p' = (pipewrite killed p cs).0 in
    sym (append_assoc (contents p) (take (pipesize - count p) cs) (run calls p').accepted)
    ∙ ap (λ q. q ++ (run calls p').accepted) (sym (contents-pipewrite killed cs p v))
    ∙ run_fifo calls p' (pipewrite_lem killed cs p v).0
run_fifo (read killed n ∷ calls) p v =
    let p' = (piperead killed p n).0 in
    let out = delivered (piperead killed p n).1 in
    ap (λ q. q ++ (run calls p').accepted) (sym (delivered-piperead killed n p v))
    ∙ append_assoc out (contents p') (run calls p').accepted
    ∙ ap (λ q. out ++ q) (run_fifo calls p' (piperead_lem killed n p v).0)
    ∙ sym (append_assoc out (run calls p').returned (contents (run calls p').last))
