-- ===== src/Pipe/Tests.antt =====
-- Pipes of four bytes, and the theorems on them applied to concrete calls.
use git_os.Base.{ℕ, ◌≡◌, refl, arith, Option, none, some, List, [], ◌∷◌, ◌==◌, if◌then◌else◌, ok}
use git_os.File.{Files, fread, fwrite}
use git_os.File.Calls.{file_get_descriptor-open}
use git_os.Pipe.{Pipe, new_pipe, read, write, discard, put, run}
use git_os.Pipe.Queue
use git_os.Pipe.Queue.{Op, put_bytes, get_bytes}
use git_os.Pipe.Slots.{IsValid}
use git_os.Pipe.Refine.{run_refines}
use git_os.Pipe.Overrun.{write_overrun, written}
use git_os.Pipe.Driver.{fread-fwrite, pipe_file, with_pipes}

-- Three bytes, one of them taken, and then three more: they go round, and no byte has to give way.
abbrev calls : List Op
calls =
    put_bytes (1 ∷ 2 ∷ 3 ∷ [])
    ∷ get_bytes 1
    ∷ put_bytes (4 ∷ 5 ∷ 6 ∷ [])
    ∷ get_bytes 4
    ∷ get_bytes 1
    ∷ []

goes_round : run (new_pipe 4) calls ≡ some (1 ∷ []) ∷ some (3 ∷ 4 ∷ 5 ∷ 6 ∷ []) ∷ none ∷ []
unfolding run new_pipe read write discard put
goes_round = refl

run_refines_example : run (new_pipe 4) calls ≡ Queue.run 4 [] calls
run_refines_example = run_refines 4 calls (omega arith) (omega arith) (omega arith)

abbrev empty_pipe : Pipe
empty_pipe = record {
  buffer = λ i. 0;
  buffer_size = 2;
  buffer_read_idx = 1;
  buffer_write_idx = 1;
  count = 0;
}

empty_pipe-IsValid : IsValid empty_pipe
empty_pipe-IsValid = record {
  positive = omega arith;
  bounded = omega arith;
  read_inside = omega arith;
  write_inside = omega arith;
  count_fits = omega arith;
  ends = refl;
}

write_overrun_example :
    (write empty_pipe (1 ∷ 2 ∷ 3 ∷ 4 ∷ 5 ∷ [])).buffer 2
    ≡ written empty_pipe (1 ∷ 2 ∷ 3 ∷ 4 ∷ 5 ∷ []) 2
write_overrun_example =
    write_overrun empty_pipe (1 ∷ 2 ∷ 3 ∷ 4 ∷ 5 ∷ []) 2 empty_pipe-IsValid (omega arith)

past_the_end : written empty_pipe (1 ∷ 2 ∷ 3 ∷ 4 ∷ 5 ∷ []) 2 ≡ 4
past_the_end = refl

-- Two numbers for the pipe at the address 16.
abbrev state : Files (Option (ℕ → Pipe)) ℕ ℕ
state = record {
  filesystems = λ i. none;
  file_descriptors =
      λ i. if i == 0 then some (pipe_file 1 16) else if i == 1 then some (pipe_file 2 16) else none;
  mounted = λ i. none;
  world = none;
}

fread-fwrite_example :
    (sent : ℕ → Pipe) × (got : ℕ → Pipe) × (fwrite
        (with_pipes state (λ i. empty_pipe))
        (5 ∷ 6 ∷ [])
        1
        2
        1
      ≡ some (ok 2, with_pipes state sent))
    × (fread (with_pipes state sent) 1 2 2 ≡ some (ok 2, 5 ∷ 6 ∷ [], with_pipes state got))
fread-fwrite_example =
    fread-fwrite state (λ i. empty_pipe) 16 1 2 1 2 1 2 (5 ∷ 6 ∷ []) empty_pipe-IsValid refl
      (file_get_descriptor-open state 0 (omega arith))
      (file_get_descriptor-open state 1 (omega arith)) (omega arith) (omega arith) (omega arith)
      (omega arith)
