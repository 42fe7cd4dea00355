-- ===== src/Fat/Directory/Tests.antt =====
-- A root directory with a deleted record and a path through an empty directory. The theorems on
-- directories are applied to them.
use git_os.Base.{
  tabulate, ℕ, zero, suc, ◌+◌, ◌*◌, ◌/◌, ◌<◌, ◌≡◌, ◌≢◌, refl, arith, none, some, List, [], ◌∷◌,
  ◌++◌, ◌==◌, if◌then◌else◌, get_or, replicate,
}
use git_os.Disk.{Drive}
use git_os.Disk.Stream.{byte_at, bytes}
use git_os.Fat.{FatFile, FatPrivate, sector_to_absolute}
use git_os.Fat.Names.{get_full_relative_filename, to_proper_string, with_extension}
use git_os.Fat.Directory.{get_root_directory, fat_file}
use git_os.Fat.Directory.Listing.{IsListing, live, get_root_directory-live}

abbrev name_record : ℕ → ℕ → FatFile
name_record letter attribute = record {
  filename = letter ∷ replicate 7 0x20;
  ext = replicate 3 0x20;
  attribute = attribute;
  high_16bits_first_cluster = 0;
  low_16bits_first_cluster = 2;
  filesize = 0;
}

abbrev empty_drive : Drive
empty_drive sector offset = 0

abbrev volume : List FatFile → FatPrivate
volume root = record {
  bytes_per_sector = 512;
  sectors_per_cluster = 1;
  reserved_sectors = 1;
  fat_copies = 1;
  root_dir_entries = 16;
  sectors_per_fat = 1;
  ending_sector_pos = 3;
  root_directory = root;
  partition_offset = 0;
}

abbrev root_bytes : List ℕ
root_bytes = 0xE5 ∷ replicate 31 0x20 ++ (b'A' ∷ replicate 31 0x20)

abbrev drive : Drive
drive sector offset = if sector == 2 then get_or root_bytes offset 0 else 0

listing : IsListing drive 1024 2
unfolding get_full_relative_filename to_proper_string with_extension bytes fat_file
listing = record { used = used_at; named = named_at; ended = refl }
  where
    used_at : (i : ℕ) → i < 2 → byte_at drive (1024 + i * 32) ≢ 0
    used_at zero h = λ e. omega arith
    used_at (suc zero) h = λ e. omega arith
    used_at (suc (suc i)) h = absurd (omega arith)

    named_at :
        (i : ℕ)
        → i < 2
        → get_full_relative_filename (fat_file (bytes drive (1024 + i * 32) 32)) ≢ none
    named_at zero h = λ e. cc
    named_at (suc zero) h = λ e. cc
    named_at (suc (suc i)) h = absurd (omega arith)

get_root_directory-live_example :
    get_root_directory drive (volume []) 3
    ≡ some (
      tabulate 16 (λ i. fat_file (bytes drive (1024 + i * 32) 32)),
      live drive 1024 2,
      2 + 16 * 32 / 512,
    )
unfolding sector_to_absolute
get_root_directory-live_example =
    get_root_directory-live drive (volume []) 3 2 (λ e. omega arith) listing (omega arith)
      (omega arith) (omega arith)
