-- ===== src/Pipe/Tests.antt =====
-- The theorems on pipes at concrete pipes, and runs of the code.
use sys_prog_assessment.Prelude.{
  ℕ, ◌-◌, ◌^◌, ◌≡◌, refl, true, false, List, [], ◌∷◌, ◌++◌, take, arith, replicate, if◌then◌else◌,
}
use sys_prog_assessment.Pipe.{
  Pipe, pipesize, Write, on_nread, on_nwrite, Read, pipewrite, piperead, pipeclose, pipealloc,
}
use sys_prog_assessment.Pipe.Ring.{contents, window}
use sys_prog_assessment.Pipe.Fifo.{Call, run, run_fifo}
use sys_prog_assessment.Pipe.Wake.{
  Event, happen, is_cut_short, writers_woken, readers_woken, killed_writer_strands_reader,
}

-- Three bytes, with the write counter past the wrap.
abbrev wrapped : Pipe
wrapped = record { buf = λ i. i; nread = 2 ^ 32 - 2; nwrite = 1; readopen = true; writeopen = true }

abbrev full_pipe : Pipe
full_pipe = record {
  buf = λ i. i;
  nread = 2 ^ 32 - 2;
  nwrite = 510;
  readopen = true;
  writeopen = true;
}

abbrev new_pipe : Pipe
new_pipe = record { buf = λ _. 0; nread = 0; nwrite = 0; readopen = true; writeopen = true }

contents-wrapped : contents wrapped ≡ 510 ∷ 511 ∷ 0 ∷ []
unfolding window
contents-wrapped = refl

write_then_read :
    (piperead false (pipewrite false wrapped (7 ∷ [])).0 4).1 ≡ Read.got (510 ∷ 511 ∷ 0 ∷ 7 ∷ [])
unfolding piperead pipewrite
write_then_read = refl

last_close_frees : (pipeclose (pipeclose (pipealloc (λ _. 0)) true).0 false).1 ≡ true
unfolding pipeclose pipealloc
last_close_frees = refl

abbrev calls : List Call
calls = Call.write false (7 ∷ []) ∷ Call.read false 2 ∷ Call.write true (8 ∷ 9 ∷ []) ∷ []

run_fifo_example :
    contents wrapped ++ (run calls wrapped).accepted
    ≡ (run calls wrapped).returned ++ contents (run calls wrapped).last
run_fifo_example = run_fifo calls wrapped (omega arith)

writers_woken_example : (happen (Event.read true 5) full_pipe).1 ≡ on_nwrite ∷ []
unfolding happen piperead
writers_woken_example = writers_woken (Event.read true 5) full_pipe refl refl

readers_woken_example :
    (happen (Event.write true (7 ∷ [])) new_pipe).1
    ≡ (if is_cut_short (Event.write true (7 ∷ [])) new_pipe then [] else on_nread ∷ [])
unfolding happen pipewrite
readers_woken_example = readers_woken (Event.write true (7 ∷ [])) new_pipe (omega arith) refl refl

abbrev many : List ℕ
many = replicate 600 1

killed_writer_strands_reader_example :
    let (p', r, woken) = pipewrite true new_pipe many in
    (r ≡ Write.failed) × (contents p' ≡ take pipesize many) × (woken ≡ [])
killed_writer_strands_reader_example =
    killed_writer_strands_reader many new_pipe (omega arith) refl (omega arith)
