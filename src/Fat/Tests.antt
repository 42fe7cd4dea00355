-- ===== src/Fat/Tests.antt =====
-- A small FAT16 volume: a file whose second cluster does not lie behind its first on the drive, and
-- a root directory with a deleted record. The theorems are applied to it.
use git_os.Base.{
  ℕ, zero, suc, ◌+◌, ◌-◌, ◌*◌, ◌/◌, ◌≤◌, ◌<◌, ◌^◌, ◌≡◌, refl, arith, Option, none, some, List, [],
  ◌∷◌, ◌++◌, leb, ◌==◌, if◌then◌else◌, inl, get_or, u8, ok, replicate, ◌%◌, length,
}
use mathlib.Core.Option
use git_os.Disk.{Drive, stream_read, read_from, copy_bytes}
use git_os.Disk.Stream.{bytes}
use git_os.Fat.{
  FatFile, FatPrivate, Cache, sector_to_absolute, get_first_fat_sector, walk_from,
  get_next_fat_entry, get_nth_cluster, cluster_bytes, read, with_cache, FileDescriptor,
  get_first_cluster, read_cluster, is_refused, cluster_to_sector,
}
use git_os.Fat.Chain.{IsCached, Looks, get_nth_cluster-walk_from}
use git_os.Fat.Content.{IsFile, file_bytes, cluster_position}
use git_os.Fat.Read.{StaysWithin}
use git_os.Fat.Cross.{read-file_bytes, read_cluster_crosses}
use git_os.Fat.Names.{get_full_relative_filename}
use git_os.Fat.Names.Buffer.{dotted, dotted_room, get_full_relative_filename-dotted}
use git_os.Fat.Seek.{opened}

-- The allocation table: the file's chain is 2, 4.
abbrev fat_bytes : List ℕ
fat_bytes = 0xF8 ∷ 0xFF ∷ 0xFF ∷ 0xFF ∷ 4 ∷ 0 ∷ 0 ∷ 0 ∷ 0xFF ∷ 0xFF ∷ []

abbrev drive : Drive
drive sector offset = if sector == 1 then get_or fat_bytes offset 0 else u8 (sector * 7 + offset)

abbrev notes : FatFile
notes = record {
  filename = b'N' ∷ b'O' ∷ b'T' ∷ b'E' ∷ b'S' ∷ 0x20 ∷ 0x20 ∷ 0x20 ∷ [];
  ext = b'T' ∷ b'X' ∷ b'T' ∷ [];
  attribute = 0x20;
  high_16bits_first_cluster = 0;
  low_16bits_first_cluster = 2;
  filesize = 1000;
}

abbrev volume : FatPrivate
volume = record {
  bytes_per_sector = 512;
  sectors_per_cluster = 1;
  reserved_sectors = 1;
  fat_copies = 1;
  root_dir_entries = 16;
  sectors_per_fat = 1;
  ending_sector_pos = 3;
  root_directory = notes ∷ [];
  partition_offset = 0;
}

abbrev no_cache : Cache
no_cache = record { cached_cluster = 0; cached_offset_bytes = 0 }

abbrev chain : ℕ → ℕ
chain zero = 2
chain (suc k) = 4

walks : (k : ℕ) → k ≤ 1 → walk_from drive volume k 2 ≡ some (ok (chain k))
unfolding walk_from get_next_fat_entry sector_to_absolute get_first_fat_sector stream_read read_from
    copy_bytes is_refused
walks zero h = refl
walks (suc zero) h = refl
walks (suc (suc k)) h = absurd (omega arith)

holds : (k : ℕ) → k ≤ 1 → cluster_position volume (chain k) + cluster_bytes volume < 2 ^ 31
unfolding sector_to_absolute cluster_to_sector
holds zero h = omega arith
holds (suc k) h = omega arith

notes-IsFile : IsFile drive volume (get_first_cluster notes) chain 1
unfolding get_first_cluster
notes-IsFile = record {
  chain = walks;
  positive = λ k h. positive_chain k;
  int = λ k h. small_chain k;
  held = holds;
}
  where
    positive_chain : (k : ℕ) → 0 < chain k
    positive_chain zero = omega arith
    positive_chain (suc k) = omega arith

    small_chain : (k : ℕ) → chain k < 2 ^ 31
    small_chain zero = omega arith
    small_chain (suc k) = omega arith

get_nth_cluster-walk_from_example :
    Looks drive volume 2
      (600 / cluster_bytes volume)
      (get_nth_cluster drive volume (some no_cache) 2 600)
get_nth_cluster-walk_from_example =
    get_nth_cluster-walk_from drive volume (some no_cache) 2 600 (λ e. omega arith) (omega arith)
      (inl refl)

-- Both clusters of the file in one block.
read-file_bytes_example :
    (cache : Option Cache) × ◌≡◌ {A = Option (List ℕ × ℕ × FileDescriptor)}
      (read drive volume (opened notes 0 no_cache) 1000 1)
      (some (
        file_bytes drive volume chain 0 (1 * 1000),
        1,
        with_cache (opened notes 0 no_cache) (0 + 1 * 1000) cache,
      ))
    × IsCached drive volume (get_first_cluster notes) cache
read-file_bytes_example =
    read-file_bytes drive volume chain 1 (opened notes 0 no_cache) notes 1000 1 refl
      (λ e. omega arith) notes-IsFile (inl refl) (omega arith) (omega arith) first_block
  where
    first_block : (i : ℕ) → i < 1 → StaysWithin volume (0 + i * 1000) 1000
    first_block zero h = inl refl
    first_block (suc i) h = absurd (omega arith)

-- 300 bytes from 400 on: 188 of them lie behind cluster 2 on the drive.
read_cluster_crosses_example :
    Option.map
      (λ (r : List ℕ × Option Cache). r.0)
      (read_cluster drive volume 300 (some no_cache) (get_first_cluster notes) 400 300)
    ≡ some (
        file_bytes drive volume chain 400 (512 - 400 % 512)
        ++ bytes drive (cluster_position volume (chain (400 / 512)) + 512) (400 % 512 + 300 - 512))
unfolding sector_to_absolute cluster_to_sector
read_cluster_crosses_example =
    read_cluster_crosses drive volume chain (get_first_cluster notes) 1 299 (some no_cache) 400 299
      (λ e. omega arith) notes-IsFile (inl refl) (omega arith) (omega arith) (omega arith)
      (omega arith) (omega arith)

get_full_relative_filename-dotted_example : get_full_relative_filename notes ≡ (
    if leb (dotted_room notes) 11
    then some (dotted notes ++ replicate (11 - length (dotted notes)) 0)
    else none)
get_full_relative_filename-dotted_example = get_full_relative_filename-dotted notes refl refl
