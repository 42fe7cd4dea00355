-- ===== src/Fat/Directory/Listing.antt =====
-- The records that a directory is taken to have, in src/kernel/fs/fat16/fat16.c.
use git_os.Base.{
  take, tabulate, tabulate_ext, sym, drop, ◌++◌, ◌∷◌, ℕ, zero, suc, ◌+◌, ◌*◌, ◌/◌, ◌<◌, ◌^◌, ◌≡◌,
  ◌≢◌, refl, ap, ◌∙◌, arith, Bool, true, false, Option, none, some, List, ◌==◌, if◌then◌else◌, inl,
  inr, Option-cases, get_or,
}
use mathlib.Core.Option
use mathlib.Core.Path.{ap₂}
use git_os.Disk.{Drive}
use git_os.Disk.Stream.{byte_at, bytes, bytes-++, stream_read-bytes}
use git_os.Fat.{FatFile, FatPrivate, sector_to_absolute, get_first_fat_sector}
use git_os.Fat.Names.{get_full_relative_filename}
use git_os.Fat.Directory.{count_from, get_total_items, get_root_directory, records, fat_file}

-- The records in use among the first `n` at a position.
pub live : Drive → ℕ → ℕ → ℕ
live drive p zero = 0
live drive p (suc n) =
    let rest = live drive (p + 32) n in if byte_at drive p == 0xE5 then rest else suc rest

-- `n` records and the end of the directory behind them, with names that fit their buffer.
pub record IsListing (drive : Drive) (p n : ℕ) : Type 0 where
  pub used : (i : ℕ) → i < n → byte_at drive (p + i * 32) ≢ 0
  pub named :
      (i : ℕ) → i < n → get_full_relative_filename (fat_file (bytes drive (p + i * 32) 32)) ≢ none
  pub ended : byte_at drive (p + n * 32) ≡ 0

first_byte : (drive : Drive) (p : ℕ) → get_or (bytes drive p 32) 0 0 ≡ byte_at drive p
unfolding bytes
first_byte drive p = refl

IsListing-next : (drive : Drive) (p n : ℕ) → IsListing drive p (suc n) → IsListing drive (p + 32) n
IsListing-next drive p n l = record {
  used = λ i h.
      let at : p + (i + 1) * 32 ≡ p + 32 + i * 32 = omega arith in
      λ e. l.used (i + 1) (omega arith) (ap (byte_at drive) at ∙ e);
  named = λ i h.
      let at : p + (i + 1) * 32 ≡ p + 32 + i * 32 = omega arith in
      λ e.
        l.named (i + 1) (omega arith)
          (ap (λ q. get_full_relative_filename (fat_file (bytes drive q 32))) at ∙ e);
  ended = ap (byte_at drive) {x = p + 32 + n * 32} {y = p + suc n * 32} (omega arith) ∙ l.ended;
}

-- A round of the loop at a record in use.
count_from-suc :
    (drive : Drive) (fuel p : ℕ) (name : List ℕ)
    → p + 32 < 2 ^ 31
    → byte_at drive p ≢ 0
    → get_full_relative_filename (fat_file (bytes drive p 32)) ≡ some name
    → count_from drive (suc fuel) p ≡ (
        if byte_at drive p == 0xE5
        then count_from drive fuel (p + 32)
        else Option.map suc (count_from drive fuel (p + 32)))
unfolding count_from
count_from-suc drive fuel p name b nz e =
    let test : (byte_at drive p == 0) ≡ false = ground arith in
    rw (count_from, stream_read-bytes drive p 32 b, first_byte drive p, test, e) refl

count_from-zero :
    (drive : Drive) (fuel p : ℕ)
    → p + 32 < 2 ^ 31
    → byte_at drive p ≡ 0
    → count_from drive (suc fuel) p ≡ some 0
unfolding count_from
count_from-zero drive fuel p b z =
    rw (count_from, stream_read-bytes drive p 32 b, first_byte drive p, z) refl

counted :
    (b : Bool) (rest : Option ℕ) (k : ℕ)
    → rest ≡ some k
    → (if b then rest else Option.map suc rest) ≡ some (if b then k else suc k)
counted true rest k e = e
counted false rest k e = ap (Option.map suc) e

-- Counting goes over the records up to the first that is not used, and counts those not deleted.
count_from-live :
    (drive : Drive) (fuel p n : ℕ)
    → IsListing drive p n
    → n < fuel
    → p + n * 32 + 32 < 2 ^ 31
    → count_from drive fuel p ≡ some (live drive p n)
unfolding live
count_from-live drive zero p n l h b = absurd (omega arith)
count_from-live drive (suc fuel) p zero l h b =
    count_from-zero drive fuel p (omega arith)
      (ap (byte_at drive) {x = p} {y = p + 0 * 32} (omega arith) ∙ l.ended)
count_from-live drive (suc fuel) p (suc n) l h b =
    let here : p + 0 * 32 ≡ p = omega arith in
    let ih =
      count_from-live drive fuel (p + 32) n (IsListing-next drive p n l) (omega arith)
        (omega arith) in
    elim (Option-cases (get_full_relative_filename (fat_file (bytes drive p 32)))) [
      | inl e ↦ absurd (
          l.named 0 (omega arith)
            (ap (λ q. get_full_relative_filename (fat_file (bytes drive q 32))) here ∙ e))
      | inr (name, e) ↦
          count_from-suc drive fuel p name (omega arith)
            (λ z. l.used 0 (omega arith) (ap (byte_at drive) here ∙ z)) e
          ∙ counted (byte_at drive p == 0xE5) (count_from drive fuel (p + 32))
              (live drive (p + 32) n) ih
    ]

take-bytes :
    (drive : Drive) (p : ℕ) (rest : List ℕ) → take 32 (bytes drive p 32 ++ rest) ≡ bytes drive p 32
unfolding bytes
take-bytes drive p rest = refl

drop-bytes : (drive : Drive) (p : ℕ) (rest : List ℕ) → drop 32 (bytes drive p 32 ++ rest) ≡ rest
unfolding bytes
drop-bytes drive p rest = refl

-- The item at each place of a buffer is the record at this place of the drive.
records-bytes :
    (drive : Drive) (p n : ℕ)
    → records n (bytes drive p (n * 32)) ≡ tabulate n (λ i. fat_file (bytes drive (p + i * 32) 32))
unfolding records
records-bytes drive p zero = refl
records-bytes drive p (suc n) =
    let all : bytes drive p (suc n * 32) ≡ bytes drive p 32 ++ bytes drive (p + 32) (n * 32) =
      sym (bytes-++ drive p 32 (n * 32) (suc n * 32) (omega arith)) in
    let first : p ≡ p + 0 * 32 = omega arith in
    let tail = bytes drive (p + 32) (n * 32) in
    ap (records (suc n)) all
    ∙ ap₂ (λ (x : List ℕ) (y : List ℕ). fat_file x ∷ records n y) (take-bytes drive p tail)
        (drop-bytes drive p tail)
    ∙ ap₂ (λ (q : ℕ) (t : List FatFile). fat_file (bytes drive q 32) ∷ t) first
        (records-bytes drive (p + 32) n
          ∙ tabulate_ext n (λ i. fat_file (bytes drive (p + 32 + i * 32) 32))
              (λ i. fat_file (bytes drive (p + suc i * 32) 32))
              (λ i h.
                ap (λ q. fat_file (bytes drive q 32)) {x = p + 32 + i * 32} {y = p + suc i * 32}
                  (omega arith)))

-- Of the records before the end of the directory the total counts those that are not deleted. The buffer
-- holds as many items as there are root entries, each the record at its place on the drive, deleted or
-- not: so the total leaves out as many places before the end as there are deleted records, the last
-- ones, and where more are counted than there are root entries, it is larger than the buffer.
-- The size of a sector must not be 0, and the records must have names that fit their buffer and lie
-- within reach of a stream.
pub get_root_directory-live :
    (drive : Drive) (fs : FatPrivate) (fuel n : ℕ)
    → let sector = fs.fat_copies * fs.sectors_per_fat + fs.reserved_sectors in
      let p = sector_to_absolute fs sector in
      fs.bytes_per_sector ≢ 0
      → IsListing drive p n
      → n < fuel
      → p + n * 32 + 32 < 2 ^ 31
      → p + fs.root_dir_entries * 32 < 2 ^ 31
      → get_root_directory drive fs fuel
        ≡ some (
          tabulate fs.root_dir_entries (λ i. fat_file (bytes drive (p + i * 32) 32)),
          live drive p n,
          sector + fs.root_dir_entries * 32 / fs.bytes_per_sector,
        )
unfolding get_root_directory get_total_items get_first_fat_sector
get_root_directory-live drive fs fuel n nz l h b c =
    let test : (fs.bytes_per_sector == 0) ≡ false = ground arith in
    rw
      (
        get_root_directory,
        test,
        count_from-live drive fuel
            (sector_to_absolute fs (fs.fat_copies * fs.sectors_per_fat + fs.reserved_sectors)) n l h
            b,
        stream_read-bytes drive
            (sector_to_absolute fs (fs.fat_copies * fs.sectors_per_fat + fs.reserved_sectors))
            (fs.root_dir_entries * 32) c,
        records-bytes drive
            (sector_to_absolute fs (fs.fat_copies * fs.sectors_per_fat + fs.reserved_sectors))
            fs.root_dir_entries,
      )
      refl
