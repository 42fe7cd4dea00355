-- ===== src/Paging/Fresh.antt =====
-- A new page directory of src/kernel/memory/paging/paging.c: it maps every page to itself.
use git_os.Base.{ℕ, ◌+◌, ◌*◌, ◌%◌, ◌^◌, ◌<◌, ◌≡◌, ◌≢◌, bit_or, update, u32}
use git_os.Paging.{Words, page_size, entries_per_table, fill_table, new_directory}

-- What the allocator returned: a page for the directory and one for each table, all of them apart.
pub record IsFresh (directory : ℕ) (table : ℕ → ℕ) : Type 0 where
  pub directory_page : directory % page_size ≡ 0
  pub table_page : (i : ℕ) → i < entries_per_table → table i % page_size ≡ 0
  pub table_word : (i : ℕ) → i < entries_per_table → table i < 2 ^ 32
  pub apart : (i : ℕ) → i < entries_per_table → table i ≢ directory
  pub distinct :
      (i j : ℕ) → i < entries_per_table → j < entries_per_table → i ≢ j → table i ≢ table j

module _ (directory : ℕ) (table : ℕ → ℕ) (d : IsFresh directory table) (flags : ℕ) where
  next_words : Words → ℕ → Words
  next_words words i =
      update
        (fill_table words (table i) (u32 (i * (entries_per_table * page_size))) flags
          entries_per_table 0)
        (directory + 4 * i) (bit_or (bit_or (table i) flags) 2)

  whole : Words → Words
  whole words = new_directory words directory table flags
