-- ===== src/Paging.antt =====
-- The page tables, src/kernel/memory/paging/paging.c. Memory is a function from the addresses of
-- aligned words to 32-bit words.
pub mod Slots
pub mod Map
pub mod Align
pub mod Translate
mod Fill
mod Fresh
mod Tests
use git_os.Base.{
  ℕ, zero, suc, ◌+◌, ◌-◌, ◌*◌, ◌/◌, ◌%◌, ◌^◌, Bool, Result, ok, err, einvarg, bit_and, bit_or, ltb,
  ◌==◌, if◌then◌else◌, u32, add32, sub32, update, not, ◌||◌,
}
use git_os.Heap.{Heap, free}

abbrev pub page_size : ℕ
page_size = 4096

abbrev pub entries_per_table : ℕ
entries_per_table = 1024

-- The mask that cuts the flags off an entry.
abbrev pub table_mask : ℕ
table_mask = 0xfffff000

abbrev pub Words : Type 0
Words = ℕ → ℕ

-- `paging_is_aligned`
abbrev pub is_aligned : ℕ → Bool
is_aligned addr = addr % page_size == 0

pub record Indexes : Type 0 where
  pub directory_index : ℕ
  pub page_table_index : ℕ

unfoldable pub get_indexes : ℕ → Result Indexes
get_indexes virtual =
    if not (is_aligned virtual)
    then err einvarg
    else ok (record {
      directory_index = virtual / (entries_per_table * page_size);
      page_table_index = virtual % (entries_per_table * page_size) / page_size;
    })

-- The address of the word that both `paging_set_page` and `paging_get_page` reach.
unfoldable pub slot_address : Words → ℕ → Indexes → ℕ
slot_address words directory ix =
    bit_and (words (directory + 4 * ix.directory_index)) table_mask + 4 * ix.page_table_index

unfoldable pub set_page : Words → ℕ → ℕ → ℕ → Result (Unit {0}) × Words
set_page words directory virtual value =
    if not (is_aligned virtual) then (err einvarg, words) else elim (get_indexes virtual) [
      | err e ↦ (err e, words)
      | ok ix ↦ (ok tt, update words (slot_address words directory ix) value)
    ]

-- A status code of `paging_get_indexes` comes back as `uint32_t`.
abbrev pub einvarg_word : ℕ
einvarg_word = 2 ^ 32 - 2

unfoldable pub get_page : Words → ℕ → ℕ → ℕ
get_page words directory virtual =
    if not (is_aligned virtual) then einvarg_word else elim (get_indexes virtual) [
      | err e ↦ einvarg_word
      | ok ix ↦ words (slot_address words directory ix)
    ]

unfoldable pub align_address : ℕ → ℕ
align_address ptr = if ptr % page_size == 0 then ptr else u32 (ptr + page_size - ptr % page_size)

pub align_address_to_lower_page : ℕ → ℕ
align_address_to_lower_page ptr = ptr - ptr % page_size

-- `paging_map`: `flags` is an `int`, below 2 ^ 32 as the word that `|` makes of it.
unfoldable pub map_page : Words → ℕ → ℕ → ℕ → ℕ → Result (Unit {0}) × Words
map_page words directory virtual physical flags =
    if not (virtual % page_size == 0) || not (physical % page_size == 0)
    then (err einvarg, words)
    else set_page words directory virtual (bit_or physical flags)

-- `paging_map_range` with `count` rounds to go and the result `res` of the round before.
unfoldable pub map_range : Words → ℕ → ℕ → ℕ → ℕ → ℕ → Result (Unit {0}) × Words
map_range words directory virtual physical zero flags = (ok tt, words)
map_range words directory virtual physical (suc count) flags =
    let (res, words') = map_page words directory virtual physical flags in
    elim res [
      | err e ↦ (err e, words')
      | ok _ ↦
          map_range words' directory (add32 virtual page_size) (add32 physical page_size) count
            flags
    ]

unfoldable pub map_to : Words → ℕ → ℕ → ℕ → ℕ → ℕ → Result (Unit {0}) × Words
map_to words directory virtual physical physical_end flags =
    if not (virtual % page_size == 0)
    then (err einvarg, words)
    else if not (physical % page_size == 0)
    then (err einvarg, words)
    else if not (physical_end % page_size == 0)
    then (err einvarg, words)
    else if ltb physical_end physical
    then (err einvarg, words)
    else map_range words directory virtual physical (sub32 physical_end physical / page_size) flags

-- The inner loop of `paging_new_directory`, with `left` entries to go from `j` on.
pub fill_table : Words → ℕ → ℕ → ℕ → ℕ → ℕ → Words
fill_table words table offset flags zero j = words
fill_table words table offset flags (suc left) j =
    fill_table (update words (table + 4 * j) (bit_or (u32 (offset + j * page_size)) flags)) table
      offset flags left (j + 1)

-- The outer loop, with `left` tables to go from `i` on; `table` is what the allocator returns for each.
pub fill_directory : Words → ℕ → (ℕ → ℕ) → ℕ → ℕ → ℕ → Words
fill_directory words directory table flags zero i = words
fill_directory words directory table flags (suc left) i =
    let filled =
      fill_table words (table i) (u32 (i * (entries_per_table * page_size))) flags entries_per_table
        0 in
    fill_directory (update filled (directory + 4 * i) (bit_or (bit_or (table i) flags) 2)) directory
      table flags left (i + 1)

-- `paging_new_directory`, at the address of the directory.
pub new_directory : Words → ℕ → (ℕ → ℕ) → ℕ → Words
new_directory words directory table flags =
    fill_directory words directory table flags entries_per_table 0

-- The loop of `paging_free_directory`, with `left` tables to go from `i` on.
pub free_tables : Words → ℕ → ℕ → ℕ → Heap → Heap
free_tables words directory zero i heap = heap
free_tables words directory (suc left) i heap =
    free_tables words directory left (i + 1)
      (free heap (bit_and (words (directory + 4 * i)) table_mask))

-- `paging_free_directory` of a `paging_chunk`, whose one word is the address of the directory.
pub free_directory : Words → ℕ → Heap → Heap
free_directory words chunk heap =
    free (free (free_tables words (words chunk) entries_per_table 0 heap) (words chunk)) chunk
