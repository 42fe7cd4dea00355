-- ===== src/Disk/Tests.antt =====
-- Runs of the reader on a small drive, and the theorems about it at concrete inputs.
use git_os.Base.{◌+◌, ◌*◌, ◌≡◌, arith, some, u8}
use git_os.Disk.{Drive, stream_read}
use git_os.Disk.Stream.{bytes, stream_read-bytes}

-- A drive whose bytes tell their place.
abbrev drive : Drive
drive sector offset = u8 (sector * 7 + offset)

-- Two bytes on either side of the end of the first sector.
stream_read-bytes_example : stream_read drive 510 4 ≡ some (bytes drive 510 4, 514)
stream_read-bytes_example = stream_read-bytes drive 510 4 (omega arith)
