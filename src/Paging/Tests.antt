-- ===== src/Paging/Tests.antt =====
-- Runs of the page tables, and the properties at a directory of 1024 tables.
use git_os.Base.{ℕ, ◌+◌, ◌-◌, ◌*◌, ◌/◌, ◌<◌, ◌≡◌, refl, arith, ltb, if◌then◌else◌}
use git_os.Paging.{
  Words, entries_per_table, set_page, get_page, map_to, get_indexes, slot_address, map_range,
  map_page,
}
use git_os.Paging.Slots.{IsDirectory}
use git_os.Paging.Map.{IsMapped, map_to-IsMapped}

-- The directory is the page at 0x100000; its tables follow it, each entry with flags 7.
abbrev tables : Words
tables a = if ltb a 0x101000 then (a - 0x100000) / 4 * 0x1000 + 0x101007 else 0

abbrev directory : ℕ
directory = 0x100000

table_at : (i : ℕ) → i < entries_per_table → tables (directory + 4 * i) ≡ i * 0x1000 + 0x101007
table_at i h = ground arith

tables-IsDirectory : IsDirectory tables directory
tables-IsDirectory = record {
  aligned = refl;
  entry_word = λ i h. rw (table_at i h) (omega arith);
  table_apart = λ i h. rw (table_at i h) (omega arith);
  table_distinct = λ i j h k ne. rw (table_at i h, table_at j k) (omega arith);
}

map_two :
    let w = (map_to tables directory 0x400000 0x700000 0x702000 7).1 in
    (get_page w directory 0x400000 ≡ 0x700007)
    × (get_page w directory 0x401000 ≡ 0x701007)
    × (get_page w directory 0x402000 ≡ 0)
unfolding map_to map_range map_page set_page get_page get_indexes slot_address
map_two = (refl, refl, refl)

map_to-IsMapped_example :
    IsMapped tables directory 0x400000 0x700000 2 7
      (map_to tables directory 0x400000 (0x700000) (0x702000) 7)
map_to-IsMapped_example =
    map_to-IsMapped tables directory 0x400000 0x700000 2 7 tables-IsDirectory (omega arith) refl
      (omega arith) (omega arith)
