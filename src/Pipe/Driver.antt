-- ===== src/Pipe/Driver.antt =====
-- Two tasks that have a pipe open: what goes through src/kernel/fs/file.c to the driver of
-- src/kernel/fs/pipe/PipeFS.cpp and back.
use git_os.Base.{
  ℕ, ◌*◌, ◌≤◌, ◌<◌, ◌≡◌, ap, ◌∙◌, Option, some, List, [], length, update, update_self, ok,
}
use git_os.File.{Files, OpenFile, file_get_descriptor, fread, fwrite}
use git_os.File.Calls.{fread_open, fwrite_open, file_get_descriptor-world}
use git_os.Pipe.{Pipe, pipe_fs, pipe_read, pipe_write}
use git_os.Pipe.Slots.{IsValid, contents}
use git_os.Pipe.Packets.{pipe_read-pipe_write}

-- A descriptor of the pipe at an address.
abbrev pub pipe_file : ℕ → ℕ → OpenFile (Option (ℕ → Pipe)) ℕ ℕ
pipe_file index address = record {
  index = index;
  filesystem = pipe_fs;
  private_fs_descriptor = address;
  private_fs = address;
}

-- The open files, with the pipes in the memory behind the driver.
abbrev pub with_pipes : Files (Option (ℕ → Pipe)) ℕ ℕ → (ℕ → Pipe) → Files (Option (ℕ → Pipe)) ℕ ℕ
with_pipes st pipes = record st { world = some pipes }

-- What one task writes to a pipe that is empty and has room, another reads from it, each through its
-- own number; both are told how many blocks.
pub fread-fwrite :
    (st : Files (Option (ℕ → Pipe)) ℕ ℕ) (pipes : ℕ → Pipe)
    (address size nmemb writer reader i j : ℕ) (input : List ℕ)
    → IsValid (pipes address)
    → contents (pipes address) ≡ []
    → file_get_descriptor st writer ≡ some (pipe_file i address)
    → file_get_descriptor st reader ≡ some (pipe_file j address)
    → 0 < size
    → 0 < nmemb
    → length input ≡ nmemb * size
    → length input ≤ (pipes address).buffer_size
    → (sent : ℕ → Pipe) × (got : ℕ → Pipe) × (fwrite (with_pipes st pipes) input size nmemb writer
        ≡ some (ok nmemb, with_pipes st sent))
      × (fread (with_pipes st sent) size nmemb reader ≡ some (ok nmemb, input, with_pipes st got))
unfolding pipe_write pipe_read
fread-fwrite st pipes address size nmemb writer reader i j input v c d e positive some_blocks l
      room =
    let p = pipes address in
    let p' = (pipe_write p size nmemb input).1 in
    let sent = update pipes address p' in
    let same : sent address ≡ p' = update_self pipes address p' in
    let read_back : (pipe_read (sent address) size nmemb []).1 ≡ input =
      ap (λ (q : Pipe). (pipe_read q size nmemb []).1) same
      ∙ pipe_read-pipe_write nmemb size input v c l room in
    let got = update sent address (pipe_read (sent address) size nmemb []).2 in
    let written =
      fwrite_open (with_pipes st pipes) writer (pipe_file i address)
        (file_get_descriptor-world st (some pipes) writer ∙ d) size nmemb positive some_blocks
        input in
    let was_read =
      fread_open (with_pipes st sent) reader (pipe_file j address)
        (file_get_descriptor-world st (some sent) reader ∙ e) size nmemb positive some_blocks in
    (
      sent,
      got,
      written,
      was_read ∙ ap (λ (xs : List ℕ). some (ok nmemb, xs, with_pipes st got)) read_back,
    )
