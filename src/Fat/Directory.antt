-- ===== src/Fat/Directory.antt =====
-- Directories and the way along a path, in src/kernel/fs/fat16/fat16.c. The outer `none` is what the
-- model of the readers and of the names leaves without a result, a loop that goes on for longer than
-- the fuel, or an access through a null pointer.
mod Paths
mod Tests
mod Listing
use git_os.Base.{
  ℕ, zero, suc, ◌+◌, ◌-◌, ◌*◌, ◌/◌, ◌%◌, ◌^◌, ◌<◌, Bool, true, false, ◌&&◌, ◌||◌, not, Option, none,
  some, List, [], ◌∷◌, ◌++◌, bit_and, bit_or, ltb, leb, ◌==◌, if◌then◌else◌, u8, u32, add32, Result,
  ok, err, eio, einvarg, enotimpl, get_or, take, drop,
}
use mathlib.Core.Option
use git_os.Base.Int.{ℤ, pos, negsuc}
use git_os.Str.{istrncmp}
use git_os.Disk.{Drive, stream_read}
use git_os.Fat.{
  FatFile, FatItem, item_file, item_directory, FatPrivate, Cache, FileDescriptor, get_first_cluster,
  get_first_fat_sector, cluster_to_sector, sector_to_absolute, read_cluster, little_endian,
}
use git_os.Fat.Names.{get_full_relative_filename}

-- The size of `struct fat_file`.
abbrev pub record_size : ℕ
record_size = 32

abbrev pub long_at : List ℕ → ℕ
long_at bs = little_endian bs + little_endian (drop 2 bs) * 2 ^ 16

-- The fields of a record out of its bytes.
pub fat_file : List ℕ → FatFile
fat_file bs = record {
  filename = take 8 bs;
  ext = take 3 (drop 8 bs);
  attribute = get_or bs 11 0;
  high_16bits_first_cluster = little_endian (drop 20 bs);
  low_16bits_first_cluster = little_endian (drop 26 bs);
  filesize = long_at (drop 28 bs);
}

-- The records in the bytes of a directory.
pub records : ℕ → List ℕ → List FatFile
records zero bs = []
records (suc n) bs = fat_file (take record_size bs) ∷ records n (drop record_size bs)

-- The loop of `fat16_get_total_items_for_directory`.
pub count_from : Drive → ℕ → ℕ → Option ℕ
count_from drive zero position = none
count_from drive (suc fuel) position = elim (stream_read drive position record_size) [
  | none ↦ none
  | some (bs, position') ↦
      let rest = count_from drive fuel position' in
      if get_or bs 0 0 == 0x00
      then some 0
      else if get_or bs 0 0 == 0xE5
      then rest
      else elim (get_full_relative_filename (fat_file bs)) [
        | none ↦ none
        | some _ ↦ Option.map suc rest
      ]
]

pub get_total_items : Drive → FatPrivate → ℕ → ℕ → Option ℕ
get_total_items drive fs fuel start_sector =
    count_from drive fuel (sector_to_absolute fs start_sector)

-- `fat16_get_root_directory`: the items of the buffer, the total that the directory is said to have, and the
-- sector behind the directory.
pub get_root_directory : Drive → FatPrivate → ℕ → Option (List FatFile × ℕ × ℕ)
get_root_directory drive fs fuel =
    let root_dir_sector_pos = fs.fat_copies * fs.sectors_per_fat + get_first_fat_sector fs in
    let root_dir_size = fs.root_dir_entries * record_size in
    if fs.bytes_per_sector == 0
    then none
    else elim (get_total_items drive fs fuel root_dir_sector_pos) [
      | none ↦ none
      | some total ↦
          Option.map
            (λ r. (
              records fs.root_dir_entries r.0,
              total,
              root_dir_sector_pos + root_dir_size / fs.bytes_per_sector,
            ))
            (stream_read drive (sector_to_absolute fs root_dir_sector_pos) root_dir_size)
    ]

abbrev pub is_subdirectory : FatFile → Bool
is_subdirectory item = not (bit_and item.attribute 0x10 == 0)

-- `fat16_load_fat_directory` of an item that is one.
pub load_fat_directory : Drive → FatPrivate → ℕ → FatFile → Option (List FatFile)
load_fat_directory drive fs fuel item =
    let cluster = get_first_cluster item in
    elim (get_total_items drive fs fuel (cluster_to_sector fs cluster)) [
      | none ↦ none
      | some total ↦
          Option.map (λ r. records total r.0)
            (read_cluster drive fs (total * record_size) none cluster 0 (total * record_size))
    ]

-- `fat16_new_fat_item_for_directory_item`
pub new_fat_item : Drive → FatPrivate → ℕ → FatFile → Option FatItem
new_fat_item drive fs fuel item =
    if is_subdirectory item
    then Option.map item_directory (load_fat_directory drive fs fuel item)
    else some (item_file item)

abbrev pub is_zero : ℤ → Bool
is_zero (pos zero) = true
is_zero _ = false

-- The loop of `fat16_find_item_in_directory`, with the item found so far.
pub find_item :
    Drive → FatPrivate → ℕ → List FatFile → List ℕ → Option FatItem → Option (Option FatItem)
find_item drive fs fuel [] name f_item = some f_item
find_item drive fs fuel (item ∷ items) name f_item = elim (get_full_relative_filename item) [
  | none ↦ none
  | some tmp_filename ↦ elim (istrncmp tmp_filename name 11) [
    | none ↦ none
    | some d ↦
        let skip = find_item drive fs fuel items name f_item in
        let take_it : Option (Option FatItem) = elim (new_fat_item drive fs fuel item) [
          | none ↦ none
          | some found ↦ find_item drive fs fuel items name (some found)
        ] in
        if is_zero d then take_it else skip
  ]
]

-- The loop of `fat16_get_directory_entry` over the parts of the path that are left.
pub follow : Drive → FatPrivate → ℕ → Option FatItem → List (List ℕ) → Option (Option FatItem)
follow drive fs fuel current [] = some current
follow drive fs fuel none (part ∷ parts) = none
follow drive fs fuel (some (item_file _)) (part ∷ parts) = some none
follow drive fs fuel (some (item_directory items)) (part ∷ parts) =
    elim (find_item drive fs fuel items part none) [
      | none ↦ none
      | some tmp_item ↦ follow drive fs fuel tmp_item parts
    ]

-- `fat16_get_directory_entry`, of a path with a first part and others.
pub get_directory_entry : Drive → FatPrivate → ℕ → List ℕ → List (List ℕ) → Option (Option FatItem)
get_directory_entry drive fs fuel part parts =
    elim (find_item drive fs fuel fs.root_directory part none) [
      | none ↦ none
      | some none ↦ some none
      | some (some root_item) ↦ follow drive fs fuel (some root_item) parts
    ]

-- `fat16_open`; the mode is the one for reading or another. The inner `none` is the null pointer.
pub open_file :
    Drive → FatPrivate → ℕ → List ℕ → List (List ℕ) → Bool → Option (Option FileDescriptor)
open_file drive fs fuel part parts is_read =
    let entry =
      Option.map
        (Option.map (λ item. record {
          item = item;
          offset_pos = 0;
          cache = record { cached_cluster = 0; cached_offset_bytes = 0 };
        }))
        (get_directory_entry drive fs fuel part parts) in
    if is_read then entry else some none
