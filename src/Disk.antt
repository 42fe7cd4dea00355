-- ===== src/Disk.antt =====
-- The disk and the streams over it, src/kernel/drivers/disk/disk.c and disk_streamer.c. The drive
-- itself is a parameter, the byte at an offset of a sector. A stream is its position.
pub mod Stream
mod Tests
use git_os.Base.{
  ℕ, zero, suc, ◌+◌, ◌-◌, ◌*◌, ◌/◌, ◌%◌, ◌^◌, ◌<◌, Bool, Option, none, some, List, [], ◌∷◌, ◌++◌,
  bit_and, bit_or, ltb, leb, ◌==◌, if◌then◌else◌, u8,
}
use mathlib.Core.Option

-- `DISK_SECTOR_SIZE`
abbrev pub sector_size : ℕ
sector_size = 512

abbrev pub Drive : Type 0
Drive = ℕ → ℕ → ℕ

-- The ports that `disk_read_sector` writes, with what it writes to them, before it takes the data.
pub sector_command : ℕ → ℕ → List (ℕ × ℕ)
sector_command lba total =
    (0x1F6, u8 (bit_or (lba / 2 ^ 24) 0xE0))
    ∷ (0x1F2, u8 total)
    ∷ (0x1F3, u8 (bit_and lba 0xff))
    ∷ (0x1F4, u8 (lba / 2 ^ 8))
    ∷ (0x1F5, u8 (lba / 2 ^ 16))
    ∷ (0x1F7, 0x20)
    ∷ []

-- The copying loop of `diskstreamer_read`: `count` bytes of the sector buffer from `offset` on.
unfoldable pub copy_bytes : (ℕ → ℕ) → ℕ → ℕ → List ℕ
copy_bytes buf offset zero = []
copy_bytes buf offset (suc count) = buf offset ∷ copy_bytes buf (offset + 1) count

-- The `do` loop of `diskstreamer_read`, with the position it leaves; `none` is a loop that goes on
-- for longer than the fuel.
unfoldable pub read_from : Drive → ℕ → ℕ → ℕ → Option (List ℕ × ℕ)
read_from drive zero position total = none
read_from drive (suc fuel) position total =
    let sector = position / sector_size in
    let offset = position % sector_size in
    let buf_overflow = leb sector_size (offset + total) in
    let total_to_read = if buf_overflow then total - (offset + total - sector_size) else total in
    let out = copy_bytes (drive sector) offset total_to_read in
    let rest = read_from drive fuel (position + total_to_read) (total - total_to_read) in
    if buf_overflow
    then Option.map (λ r. (out ++ r.0, r.1)) rest
    else some (out, position + total_to_read)

-- `diskstreamer_read`. Where the position does not stay an `int` of 0 or more the model says nothing.
unfoldable pub stream_read : Drive → ℕ → ℕ → Option (List ℕ × ℕ)
stream_read drive position total =
    if ltb (position + total) (2 ^ 31) then read_from drive (suc total) position total else none
