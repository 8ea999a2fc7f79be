-- ===== src/Pipe/Wake.antt =====
-- Which calls of a pipe wake the processes that sleep on it.
use sys_prog_assessment.Prelude.{
  ℕ, ◌<◌, ◌≡◌, refl, ap, ◌∙◌, true, false, not, ◌||◌, ◌&&◌, List, [], ◌∷◌, length, take, Bool,
  arith, if◌then◌else◌, ltb, Bool-cases, inl, inr,
}
use sys_prog_assessment.Pipe.{
  Pipe, pipesize, full, empty, put, Chan, on_nread, on_nwrite, Write, pipewrite, piperead,
  pipeclose,
}
use sys_prog_assessment.Pipe.Ring.{IsValid, contents, contents_of_empty}
use sys_prog_assessment.Pipe.Fifo.{pipewrite_lem, write_queue, write_result}

-- What keeps a process asleep in `pipewrite`, and in `piperead`.
abbrev pub writer_waits : Pipe → Bool
writer_waits p = full p && p.readopen

abbrev pub reader_waits : Pipe → Bool
reader_waits p = empty p && p.writeopen

woken_or_failed :
    (killed : Bool) (cs : List ℕ) (p : Pipe)
    → (not p.readopen || killed) ≡ false
    → (pipewrite killed p cs).2 ≡ on_nread ∷ []
unfolding pipewrite put
woken_or_failed killed [] p h = refl
woken_or_failed killed (c ∷ cs) p h = ground (arith, woken_or_failed killed cs (put p c) h)

failed_wakes_nobody :
    (killed : Bool) (cs : List ℕ) (p : Pipe)
    → (pipewrite killed p cs).1 ≡ Write.failed
    → (pipewrite killed p cs).2 ≡ []
unfolding pipewrite
failed_wakes_nobody killed [] p h = cc
failed_wakes_nobody killed (c ∷ cs) p h = ground (arith, failed_wakes_nobody killed cs (put p c))

-- A call of a process, with whether it is killed, or a close of one end.
pub data Event : Type 0 where
  write : Bool → List ℕ → Event
  read : Bool → ℕ → Event
  close : Bool → Event

unfoldable pub happen : Event → Pipe → Pipe × List Chan
happen (write killed cs) p = ((pipewrite killed p cs).0, (pipewrite killed p cs).2)
happen (read killed n) p = ((piperead killed p n).0, (piperead killed p n).2)
happen (close end) p = ((pipeclose p end).0, (pipeclose p end).2)

write_keeps_full :
    (killed : Bool) (cs : List ℕ) (p : Pipe) → writer_waits p ≡ true → (pipewrite killed p cs).0 ≡ p
unfolding pipewrite
write_keeps_full killed [] p h = refl
write_keeps_full killed (c ∷ cs) p h = ground arith

-- No wakeup of a writer is lost: an event after which the writers of a full pipe need not wait any
-- more wakes them, whether its process is killed or not.
pub writers_woken :
    (e : Event) (p : Pipe)
    → writer_waits p ≡ true
    → writer_waits (happen e p).0 ≡ false
    → (happen e p).1 ≡ on_nwrite ∷ []
unfolding happen piperead pipeclose
writers_woken (write killed cs) p w g = ground (arith, write_keeps_full killed cs p)
writers_woken (read killed n) p w g = ground arith
writers_woken (close end) p w g = ground arith

-- A write of more bytes than the pipe holds, by a killed process or with the read end closed.
abbrev pub is_cut_short : Event → Pipe → Bool
is_cut_short (write killed cs) p = (not p.readopen || killed) && ltb pipesize (length cs)
is_cut_short _ p = false

write_result_gone :
    (b : Bool) (room : ℕ) (cs : List ℕ)
    → room < length cs
    → write_result (b || true) room cs ≡ Write.failed
write_result_gone true room cs h = ground arith
write_result_gone false room cs h = ground arith

long_fails :
    (b : Bool) (room : ℕ) (cs : List ℕ)
    → b ≡ true
    → ltb room (length cs) ≡ true
    → write_result b room cs ≡ Write.failed
long_fails b room cs g h = ground arith

short_done :
    (b : Bool) (room : ℕ) (cs : List ℕ)
    → ltb room (length cs) ≡ false
    → write_result b room cs ≡ Write.done
short_done b room cs h = ground arith

result_at_empty :
    (killed : Bool) (cs : List ℕ) (p : Pipe)
    → IsValid p
    → empty p ≡ true
    → (pipewrite killed p cs).1 ≡ write_result (not p.readopen || killed) pipesize cs
result_at_empty killed cs p v e =
    ap (λ (x : Write × List ℕ). x.0)
      (rw (contents_of_empty p v e) at ((pipewrite_lem killed cs p v).1))

done_wakes :
    (killed : Bool) (cs : List ℕ) (p : Pipe)
    → (pipewrite killed p cs).1 ≡ Write.done
    → (pipewrite killed p cs).2 ≡ on_nread ∷ []
unfolding pipewrite
done_wakes killed [] p h = refl
done_wakes killed (c ∷ cs) p h = ground (arith, done_wakes killed cs (put p c))

write_wakes :
    (killed : Bool) (cs : List ℕ) (p : Pipe)
    → IsValid p
    → empty p ≡ true
    → (pipewrite killed p cs).2 ≡ (if is_cut_short (write killed cs) p then [] else on_nread ∷ [])
write_wakes killed cs p v e = elim (Bool-cases (not p.readopen || killed)) [
  | inl gone ↦ elim (Bool-cases (ltb pipesize (length cs))) [
    | inl long ↦
        rw (gone, long)
          (failed_wakes_nobody killed cs p
            (result_at_empty killed cs p v e ∙ long_fails _ pipesize cs gone long))
    | inr short ↦
        rw (gone, short)
          (done_wakes killed cs p
            (result_at_empty killed cs p v e ∙ short_done _ pipesize cs short))
  ]
  | inr there ↦ rw there (woken_or_failed killed cs p there)
]

-- The wakeups of readers: an event after which the readers of an empty pipe need not wait any more
-- wakes them, exactly unless it is a write of more than PIPESIZE bytes by a process that is killed
-- or while the read end is closed, which wakes nobody.
pub readers_woken :
    (e : Event) (p : Pipe)
    → IsValid p
    → reader_waits p ≡ true
    → reader_waits (happen e p).0 ≡ false
    → (happen e p).1 ≡ (if is_cut_short e p then [] else on_nread ∷ [])
unfolding happen piperead pipeclose
readers_woken (write killed cs) p v w g = write_wakes killed cs p v (ground arith)
readers_woken (read killed n) p v w g = ground arith
readers_woken (close end) p v w g = ground arith

-- A killed process that writes more than PIPESIZE bytes to an empty pipe fills it, returns -1 and
-- wakes nobody: a reader that sleeps on the empty pipe goes on sleeping although bytes are there.
pub killed_writer_strands_reader :
    (cs : List ℕ) (p : Pipe)
    → IsValid p
    → empty p ≡ true
    → pipesize < length cs
    → let (p', r, woken) = pipewrite true p cs in
      (r ≡ Write.failed) × (contents p' ≡ take pipesize cs) × (woken ≡ [])
killed_writer_strands_reader cs p v e h = (r, contents_after, failed_wakes_nobody true cs p r)
  where
    both :
        ((pipewrite true p cs).1, contents (pipewrite true p cs).0)
        ≡ write_queue (not p.readopen || true) cs []
    both = rw (contents_of_empty p v e) at ((pipewrite_lem true cs p v).1)

    r : (pipewrite true p cs).1 ≡ Write.failed
    r = ap (λ (x : Write × List ℕ). x.0) both ∙ write_result_gone (not p.readopen) pipesize cs h

    contents_after : contents (pipewrite true p cs).0 ≡ take pipesize cs
    contents_after = ap (λ (x : Write × List ℕ). x.1) both
