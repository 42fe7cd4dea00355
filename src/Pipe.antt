-- ===== src/Pipe.antt =====
-- The pipes, src/kernel/fs/pipe/PipeFS.cpp. The buffer is a function from offsets, so that a write
-- past its end is a change like any other. The memory for it is taken to be given.
pub mod Queue
pub mod Slots
pub mod Put
pub mod Take
pub mod Refine
pub mod Packets
mod Overrun
pub mod Driver
mod Tests
use git_os.Base.{
  ℕ, zero, suc, ◌+◌, ◌-◌, ◌%◌, ◌^◌, ◌==◌, ltb, leb, if◌then◌else◌, Option, none, some, List, [],
  ◌∷◌, ◌++◌, update, take, drop, length, add32, sub32, write_at, read_at, Result, ok,
}
use git_os.Fat.{FileStat}
use git_os.File.{Filesystem}
use git_os.Pipe.Queue.{Op, put_bytes, get_bytes}

-- `PipeFS`
pub record Pipe : Type 0 where
  pub buffer : ℕ → ℕ
  pub buffer_size : ℕ
  pub buffer_read_idx : ℕ
  pub buffer_write_idx : ℕ
  pub count : ℕ

-- `PipeFS::PipeFS`
unfoldable pub new_pipe : ℕ → Pipe
new_pipe buffer_size = record {
  buffer = λ i. 0;
  buffer_size = buffer_size;
  buffer_read_idx = 0;
  buffer_write_idx = 0;
  count = 0;
}

-- `PipeFS::read`: the bytes that are copied to `out`; `none` is -1.
pub read : Pipe → ℕ → Option (List ℕ) × Pipe
read p size =
    let bytes_available = p.count in
    let to_read = if ltb bytes_available size then bytes_available else size in
    let first_chunk = sub32 p.buffer_size p.buffer_read_idx in
    if ltb p.count size
    then (none, p)
    else if leb (add32 p.buffer_read_idx to_read) p.buffer_size
    then (
      some (read_at p.buffer p.buffer_read_idx to_read),
      record p {
        buffer_read_idx = add32 p.buffer_read_idx to_read % p.buffer_size;
        count = sub32 p.count to_read;
      },
    )
    else (
      some (
          read_at p.buffer p.buffer_read_idx first_chunk
          ++ read_at p.buffer 0 (sub32 to_read first_chunk)),
      record p { buffer_read_idx = sub32 to_read first_chunk; count = sub32 p.count to_read },
    )

-- The first part of `PipeFS::write`: the oldest bytes give way.
pub discard : Pipe → ℕ → Pipe
discard p size =
    let to_discard = sub32 (add32 size p.count) p.buffer_size in
    if ltb p.buffer_size (add32 size p.count)
    then record p {
      buffer_read_idx = add32 p.buffer_read_idx to_discard % p.buffer_size;
      count = sub32 p.count to_discard;
    }
    else p

-- The second part: the bytes are put in.
pub put : Pipe → List ℕ → ℕ → Pipe
put p bytes size =
    let first_chunk = sub32 p.buffer_size p.buffer_write_idx in
    if leb (add32 p.buffer_write_idx size) p.buffer_size
    then record p {
      buffer = write_at p.buffer p.buffer_write_idx bytes;
      buffer_write_idx = add32 p.buffer_write_idx size % p.buffer_size;
      count = add32 p.count size;
    }
    else record p {
      buffer =
          write_at (write_at p.buffer p.buffer_write_idx (take first_chunk bytes)) 0
            (drop first_chunk bytes);
      buffer_write_idx = sub32 size first_chunk;
      count = add32 p.count size;
    }

-- `PipeFS::write` of a block of bytes; `size` is their number.
pub write : Pipe → List ℕ → Pipe
write p bytes = let size = length bytes in if size == 0 then p else put (discard p size) bytes size

-- `pipe_read`: the buffer `out` of the caller afterwards. A read that fails leaves its part of it.
pub pipe_read_from : ℕ → ℕ → List ℕ → Pipe → List ℕ × Pipe
pipe_read_from zero size out p = (out, p)
pipe_read_from (suc left) size out p =
    let (res, p') = read p size in
    let (rest, p'') = pipe_read_from left size (drop size out) p' in
    ((elim res [ none ↦ take size out | some bytes ↦ bytes ]) ++ rest, p'')

pub pipe_read : Pipe → ℕ → ℕ → List ℕ → Result ℕ × List ℕ × Pipe
pipe_read p size nmemb out =
    let (out', p') = pipe_read_from nmemb size out p in (ok nmemb, out', p')

-- `pipe_write`, of a caller's buffer that holds `size * nmemb` bytes.
pub pipe_write_from : ℕ → ℕ → List ℕ → Pipe → Pipe
pipe_write_from zero size input p = p
pipe_write_from (suc left) size input p =
    pipe_write_from left size (drop size input) (write p (take size input))

pub pipe_write : Pipe → ℕ → ℕ → List ℕ → Result ℕ × Pipe
pipe_write p size nmemb input = (ok nmemb, pipe_write_from nmemb size input p)

-- `FILE_MODE_READ | FILE_MODE_WRITE | FILE_MODE_APPEND`, of 0, 1 and 2.
pub pipe_stat : Pipe → Result FileStat
pipe_stat p = ok (record { flags = 3; filesize = p.count })

-- The calls of a client in order, each with the whole of its bytes; the results of the reads.
unfoldable pub run : Pipe → List Op → List (Option (List ℕ))
run p [] = []
run p (put_bytes bytes ∷ ops) = run (write p bytes) ops
run p (get_bytes size ∷ ops) = let (res, p') = read p size in res ∷ run p' ops

-- The driver that `PipeFS::get_struct` fills in, for the pipes at their addresses. Of the world nothing
-- is left once an assertion has failed: a pipe cannot be sought in. A caller's buffer is what is written
-- of it from its start on.
abbrev pub pipe_fs : Filesystem (Option (ℕ → Pipe)) ℕ ℕ
pipe_fs = record {
  fs_open = λ w address parts mode. (some address, w);
  fs_read = λ w address d size nmemb. elim w [
    | none ↦ (ok 0, [], none)
    | some pipes ↦
        let (res, out, p) = pipe_read (pipes d) size nmemb [] in (res, out, some (update pipes d p))
  ];
  fs_write = λ w address d size nmemb input. elim w [
    | none ↦ (ok 0, none)
    | some pipes ↦
        let (res, p) = pipe_write (pipes d) size nmemb input in (res, some (update pipes d p))
  ];
  fs_seek = λ w d offset mode. (ok tt, none);
  fs_stat = λ w d. elim w [
    | none ↦ (ok (record { flags = 0; filesize = 0 }), none)
    | some pipes ↦ (pipe_stat (pipes d), some pipes)
  ];
  fs_close = λ w d. (ok tt, w);
}
