-- ===== src/MemoryFile.antt =====
-- The files in memory, src/kernel/fs/memory/MemoryFS.cpp. The memory is a function from offsets behind
-- the start of the file.
pub mod Seek
pub mod RoundTrip
mod Tests
use git_os.Base.{
  ℕ, zero, suc, ◌+◌, ◌^◌, ltb, leb, not, if◌then◌else◌, Bool, Option, none, some, update, List, [],
  ◌++◌, take, drop, length, add32, sub32, write_at, read_at, Result, ok, err, einvarg,
}
use git_os.File.{Filesystem}
use git_os.Fat.{FileStat, SeekMode, seek_set, seek_cur, seek_end, seek_other}

-- `MemoryFS`
pub record MemoryFile : Type 0 where
  pub buffer : ℕ → ℕ
  pub buffer_size : ℕ
  pub buffer_idx : ℕ

-- `MemoryFS::read`, with the bytes that are copied to `out`.
pub read : MemoryFile → ℕ → Result (List ℕ) × MemoryFile
read m size = if ltb m.buffer_size (add32 m.buffer_idx size) then (err einvarg, m) else (
  ok (read_at m.buffer m.buffer_idx size),
  record m { buffer_idx = add32 m.buffer_idx size },
)

-- `MemoryFS::write` of a block of bytes; `size` is their number.
pub write : MemoryFile → List ℕ → Result (Unit {0}) × MemoryFile
write m bytes =
    let size = length bytes in
    if ltb m.buffer_size (add32 m.buffer_idx size) then (err einvarg, m) else (
      ok tt,
      record m {
        buffer = write_at m.buffer m.buffer_idx bytes;
        buffer_idx = add32 m.buffer_idx size;
      },
    )

-- `(int32_t) n < 0`
abbrev pub is_negative : ℕ → Bool
is_negative n = not (ltb n (2 ^ 31))

-- The `switch` of `MemoryFS::seek`: the new index, where there is one.
pub seek_index : MemoryFile → ℕ → SeekMode → Result ℕ
seek_index m offset seek_set = ok offset
seek_index m offset seek_cur =
    if ltb m.buffer_idx (add32 m.buffer_idx offset)
    then err einvarg
    else if is_negative (add32 m.buffer_idx offset)
    then err einvarg
    else ok (add32 m.buffer_idx offset)
seek_index m offset seek_end =
    if is_negative (sub32 m.buffer_idx offset) then err einvarg else ok (sub32 m.buffer_idx offset)
seek_index m offset seek_other = ok m.buffer_idx

-- `MemoryFS::seek`
pub seek : MemoryFile → ℕ → SeekMode → Result (Unit {0}) × MemoryFile
seek m offset seek_mode =
    if leb m.buffer_size offset then (err einvarg, m) else elim (seek_index m offset seek_mode) [
      | err e ↦ (err e, m)
      | ok idx ↦ (ok tt, record m { buffer_idx = idx })
    ]

-- `memory_read`: the buffer `out` of the caller afterwards. A read that fails leaves its part of it.
pub memory_read_from : ℕ → ℕ → List ℕ → MemoryFile → List ℕ × MemoryFile
memory_read_from zero size out m = (out, m)
memory_read_from (suc left) size out m =
    let (res, m') = read m size in
    let (rest, m'') = memory_read_from left size (drop size out) m' in
    ((elim res [ err e ↦ take size out | ok bytes ↦ bytes ]) ++ rest, m'')

pub memory_read : MemoryFile → ℕ → ℕ → List ℕ → Result ℕ × List ℕ × MemoryFile
memory_read m size nmemb out =
    let (out', m') = memory_read_from nmemb size out m in (ok nmemb, out', m')

-- `memory_write`, of a caller's buffer that holds `size * nmemb` bytes.
pub memory_write_from : ℕ → ℕ → List ℕ → MemoryFile → MemoryFile
memory_write_from zero size input m = m
memory_write_from (suc left) size input m =
    memory_write_from left size (drop size input) (write m (take size input)).1

pub memory_write : MemoryFile → ℕ → ℕ → List ℕ → Result ℕ × MemoryFile
memory_write m size nmemb input = (ok nmemb, memory_write_from nmemb size input m)

-- `memory_stat`, with `FILE_MODE_READ | FILE_MODE_WRITE | FILE_MODE_APPEND`, of 0, 1 and 2.
pub memory_stat : MemoryFile → Result FileStat
memory_stat m = ok (record { flags = 3; filesize = m.buffer_size })

-- The driver that `MemoryFS::get_struct` fills in, for the files at their addresses. Of the world
-- nothing is left once an assertion has failed: a file in memory cannot be closed. A caller's buffer is
-- what is written of it from its start on.
abbrev pub memory_fs : Filesystem (Option (ℕ → MemoryFile)) ℕ ℕ
memory_fs = record {
  fs_open = λ w address parts mode. (some address, w);
  fs_read = λ w address d size nmemb. elim w [
    | none ↦ (ok 0, [], none)
    | some files ↦
        let (res, out, m) = memory_read (files d) size nmemb [] in
        (res, out, some (update files d m))
  ];
  fs_write = λ w address d size nmemb input. elim w [
    | none ↦ (ok 0, none)
    | some files ↦
        let (res, m) = memory_write (files d) size nmemb input in (res, some (update files d m))
  ];
  fs_seek = λ w d offset mode. elim w [
    | none ↦ (ok tt, none)
    | some files ↦ let (res, m) = seek (files d) offset mode in (res, some (update files d m))
  ];
  fs_stat = λ w d. elim w [
    | none ↦ (ok (record { flags = 0; filesize = 0 }), none)
    | some files ↦ (memory_stat (files d), some files)
  ];
  fs_close = λ w d. (ok tt, none);
}
