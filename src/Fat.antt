-- ===== src/Fat.antt =====
-- The FAT16 driver, src/kernel/fs/fat16/fat16.c, over the streams of the disk. An `int` is the 32-bit
-- word that it is kept in. Allocations are taken to succeed. `none` is a kernel panic, a division by
-- zero, a position that a stream does not hold, or an offset in a file that is no `int` from 0 up.
mod Chain
mod Content
mod Read
mod Cross
pub mod Names
pub mod Directory
mod Seek
mod Tests
use git_os.Base.{
  ℕ, zero, suc, ◌+◌, ◌-◌, ◌*◌, ◌/◌, ◌%◌, ◌^◌, ◌<◌, Bool, true, false, ◌&&◌, ◌||◌, not, Option, none,
  some, List, [], ◌∷◌, ◌++◌, bit_and, bit_or, ltb, leb, ◌==◌, if◌then◌else◌, u8, u32, add32, Result,
  ok, err, eio, einvarg, enotimpl, get_or, ◌⊎◌, inl, inr,
}
use mathlib.Core.Option
use git_os.Disk.{Drive, stream_read}

-- `struct fat_file`, the fields that the driver reads.
pub record FatFile : Type 0 where
  pub filename : List ℕ
  pub ext : List ℕ
  pub attribute : ℕ
  pub high_16bits_first_cluster : ℕ
  pub low_16bits_first_cluster : ℕ
  pub filesize : ℕ

-- `struct fat_item`: the union and its type.
pub data FatItem : Type 0 where
  item_file : FatFile → FatItem
  item_directory : List FatFile → FatItem

-- `struct fat_private`, with the fields of its header, and the items of its root directory up to the total,
-- which its buffer is taken to hold.
pub record FatPrivate : Type 0 where
  pub bytes_per_sector : ℕ
  pub sectors_per_cluster : ℕ
  pub reserved_sectors : ℕ
  pub fat_copies : ℕ
  pub root_dir_entries : ℕ
  pub sectors_per_fat : ℕ
  pub ending_sector_pos : ℕ
  pub root_directory : List FatFile
  pub partition_offset : ℕ

-- The cache in a descriptor of a file.
pub record Cache : Type 0 where
  pub cached_cluster : ℕ
  pub cached_offset_bytes : ℕ

-- `struct fat_file_descriptor`
pub record FileDescriptor : Type 0 where
  pub item : FatItem
  pub offset_pos : ℕ
  pub cache : Cache

pub get_first_cluster : FatFile → ℕ
get_first_cluster file =
    bit_or (u32 (file.high_16bits_first_cluster * 2 ^ 16)) file.low_16bits_first_cluster

pub cluster_to_sector : FatPrivate → ℕ → ℕ
cluster_to_sector fs cluster =
    add32 fs.ending_sector_pos (u32 (u32 (cluster + 2 ^ 32 - 2) * fs.sectors_per_cluster))

pub sector_to_absolute : FatPrivate → ℕ → ℕ
sector_to_absolute fs sector = add32 fs.partition_offset (u32 (sector * fs.bytes_per_sector))

pub get_first_fat_sector : FatPrivate → ℕ
get_first_fat_sector fs = fs.reserved_sectors

-- A `uint16_t` as its bytes lie in memory.
abbrev pub little_endian : List ℕ → ℕ
little_endian bs = get_or bs 0 0 + get_or bs 1 0 * 2 ^ 8

pub get_next_fat_entry : Drive → FatPrivate → ℕ → Option ℕ
get_next_fat_entry drive fs cluster =
    let fat_table_position = sector_to_absolute fs (get_first_fat_sector fs) in
    Option.map (λ r. little_endian r.0)
      (stream_read drive (add32 fat_table_position (u32 (cluster * 2))) 2)

abbrev pub cluster_bytes : FatPrivate → ℕ
cluster_bytes fs = fs.sectors_per_cluster * fs.bytes_per_sector

-- The entries at which the loop of `fat16_get_nth_cluster_from_fat` gives up.
pub is_refused : ℕ → Bool
is_refused entry =
    entry == 0xFFF8
    || entry == 0xFFFF
    || entry == 0xFF7
    || (entry == 0xFF0 || entry == 0xFF6)
    || entry == 0

-- That loop, with `count` clusters to go.
pub walk_from : Drive → FatPrivate → ℕ → ℕ → Option (Result ℕ)
walk_from drive fs zero cluster = some (ok cluster)
walk_from drive fs (suc count) cluster = elim (get_next_fat_entry drive fs cluster) [
  | none ↦ none
  | some entry ↦
      let rest = walk_from drive fs count entry in if is_refused entry then some (err eio) else rest
]

-- Where the loop starts: a cluster and its place in the file, or the cached cluster as the result.
pub cached_start : ℕ → Option Cache → ℕ → ℕ → (ℕ × ℕ) ⊎ ℕ
cached_start size none starting_cluster target_cluster = inl (starting_cluster, 0)
cached_start size (some cache) starting_cluster target_cluster =
    let cached = cache.cached_offset_bytes / size in
    if cache.cached_cluster == 0
    then inl (starting_cluster, 0)
    else if ltb cached target_cluster
    then inl (cache.cached_cluster, cached)
    else if cached == target_cluster
    then inr cache.cached_cluster
    else inl (starting_cluster, 0)

-- The cache behind `out:`, after a walk that ended at `cluster`.
abbrev pub update_cache : Option Cache → ℕ → ℕ → Option Cache
update_cache none cluster offset_bytes = none
update_cache (some _) cluster offset_bytes =
    some (record { cached_cluster = cluster; cached_offset_bytes = offset_bytes })

pub get_nth_cluster : Drive → FatPrivate → Option Cache → ℕ → ℕ → Option (Result ℕ × Option Cache)
get_nth_cluster drive fs desc starting_cluster offset =
    let size = cluster_bytes fs in
    let target_cluster = offset / size in
    if size == 0 || leb (2 ^ 31) offset
    then none
    else if target_cluster == 0
    then some (ok starting_cluster, desc)
    else elim (cached_start size desc starting_cluster target_cluster) [
      | inr cluster ↦ some (ok cluster, desc)
      | inl (cluster, current_pos) ↦
          elim (walk_from drive fs (target_cluster - current_pos) cluster) [
            | none ↦ none
            | some (err e) ↦ some (err e, desc)
            | some (ok c) ↦ some (ok c, update_cache desc c (target_cluster * size))
          ]
    ]

-- `fat16_read_cluster`, on fuel for the rounds of its loop: the bytes read and the cache left.
pub read_cluster :
    Drive → FatPrivate → ℕ → Option Cache → ℕ → ℕ → ℕ → Option (List ℕ × Option Cache)
read_cluster drive fs fuel desc starting_cluster offset zero = some ([], desc)
read_cluster drive fs zero desc starting_cluster offset (suc total) = none
read_cluster drive fs (suc fuel) desc starting_cluster offset (suc rest) =
    let total = suc rest in
    let size = cluster_bytes fs in
    elim (get_nth_cluster drive fs desc starting_cluster offset) [
      | none ↦ none
      | some (err e, desc') ↦ none
      | some (ok cluster, desc') ↦
          let total_to_read = if ltb size total then size else total in
          let starting_pos =
            add32 (sector_to_absolute fs (cluster_to_sector fs cluster)) (offset % size) in
          let more =
            read_cluster drive fs fuel desc' starting_cluster (offset + total_to_read)
              (total - total_to_read) in
          if ltb 0 cluster && ltb cluster (2 ^ 31)
          then elim (stream_read drive starting_pos total_to_read) [
            | none ↦ none
            | some (out, _) ↦ Option.map (λ r. (out ++ r.0, r.1)) more
          ]
          else none
    ]

-- A number of bytes passed on as an `int`: where that is negative, the loop ends at once.
abbrev pub as_int : ℕ → ℕ
as_int n = if ltb n (2 ^ 31) then n else 0

-- `fat16_read`: `nmemb` blocks of `size` bytes, with the position and the cache that are left.
pub read_blocks :
    Drive → FatPrivate → Option Cache → ℕ → ℕ → ℕ → ℕ → Option (List ℕ × ℕ × Option Cache)
read_blocks drive fs desc first offset size zero = some ([], offset, desc)
read_blocks drive fs desc first offset size (suc nmemb) =
    elim (read_cluster drive fs size desc first offset (as_int size)) [
      | none ↦ none
      | some (out, desc') ↦
          Option.map (λ r. (out ++ r.0, r.1, r.2))
            (read_blocks drive fs desc' first (add32 offset size) size nmemb)
    ]

abbrev pub with_cache : FileDescriptor → ℕ → Option Cache → FileDescriptor
with_cache desc p none = record desc { offset_pos = p }
with_cache desc p (some c) = record desc { offset_pos = p; cache = c }

-- The result is the bytes, the number of blocks, and the descriptor. A directory is read through the
-- wrong member of the union.
pub read : Drive → FatPrivate → FileDescriptor → ℕ → ℕ → Option (List ℕ × ℕ × FileDescriptor)
read drive fs desc size nmemb = elim desc.item [
  | item_directory _ ↦ none
  | item_file f ↦
      Option.map (λ r. (r.0, nmemb, with_cache desc r.1 r.2))
        (read_blocks drive fs (some desc.cache) (get_first_cluster f) desc.offset_pos size nmemb)
]

abbrev pub write : Result ℕ
write = err enotimpl

-- `FILE_SEEK_MODE`, and a value of it that is none of the three.
pub data SeekMode : Type 0 where
  seek_set seek_cur seek_end seek_other : SeekMode

-- The position that `fat16_seek` sets, or its error.
pub seek_position : ℕ → ℕ → ℕ → SeekMode → Result ℕ
seek_position filesize position offset seek_set = ok offset
seek_position filesize position offset seek_cur =
    if ltb filesize (add32 position offset)
    then err einvarg
    else if not (ltb (add32 position offset) (2 ^ 31))
    then err einvarg
    else ok (add32 position offset)
seek_position filesize position offset seek_end =
    if not (ltb (filesize - offset) (2 ^ 31)) then err einvarg else ok (filesize - offset)
seek_position filesize position offset seek_other = ok position

pub seek : FileDescriptor → ℕ → SeekMode → Result FileDescriptor
seek desc offset mode = elim desc.item [
  | item_directory _ ↦ err einvarg
  | item_file f ↦
      if leb f.filesize offset
      then err einvarg
      else elim (seek_position f.filesize desc.offset_pos offset mode) [
        | err e ↦ err e
        | ok p ↦ ok (record desc { offset_pos = p })
      ]
]

pub record FileStat : Type 0 where
  pub flags : ℕ
  pub filesize : ℕ

pub stat : FatItem → FileStat
stat (item_file f) = record {
  flags = if bit_and f.attribute 0x01 == 0 then 0 else 1;
  filesize = f.filesize;
}
stat (item_directory _) = record { flags = 2; filesize = 0 }
