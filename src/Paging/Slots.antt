-- ===== src/Paging/Slots.antt =====
-- Which word of memory holds the entry of a page: distinct pages have distinct words, none of them
-- in the directory.
use git_os.Base.{
  ℕ, ◌+◌, ◌-◌, ◌*◌, ◌/◌, ◌%◌, ◌^◌, ◌<◌, ◌≡◌, ◌≢◌, ap, inl, inr, arith, ok, bit_and, ◌==◌, update,
  Bool-cases, ==_iff,
}
use git_os.Base.Bits.{bit_and_shifted, bit_and_mask}
use git_os.Paging.{
  Words, page_size, entries_per_table, table_mask, get_indexes, slot_address, set_page, get_page,
}

-- The mask cuts the offset within a page off a word.
bit_and-table_mask : (w : ℕ) → w < 2 ^ 32 → bit_and w table_mask ≡ w - w % 4096
bit_and-table_mask w h =
    omega (arith, bit_and_shifted 12 w (2 ^ 20 - 1), bit_and_mask 20 (w / 2 ^ 12))

-- A page's address without the offset within it.
abbrev pub page_of : ℕ → ℕ
page_of a = a - a % 4096

-- The directory and the tables that its entries name lie in pages of their own.
pub record IsDirectory (words : Words) (directory : ℕ) : Type 0 where
  pub aligned : directory % page_size ≡ 0
  pub entry_word : (i : ℕ) → i < entries_per_table → words (directory + 4 * i) < 2 ^ 32
  pub table_apart :
      (i : ℕ) → i < entries_per_table → page_of (words (directory + 4 * i)) ≢ directory
  pub table_distinct :
      (i j : ℕ)
      → i < entries_per_table
      → j < entries_per_table
      → i ≢ j
      → page_of (words (directory + 4 * i)) ≢ page_of (words (directory + 4 * j))

-- A page that a directory has an entry for.
abbrev pub IsPage : ℕ → Type 0
IsPage virtual = (virtual % page_size ≡ 0) × (virtual < 2 ^ 32)

abbrev pub slot : Words → ℕ → ℕ → ℕ
slot words directory virtual =
    page_of (words (directory + 4 * (virtual / 0x400000))) + 4 * (virtual % 0x400000 / 4096)

slot_address-slot :
    (words : Words) (directory virtual : ℕ)
    → words (directory + 4 * (virtual / 0x400000)) < 2 ^ 32
    → slot_address words directory (record {
      directory_index = virtual / 0x400000;
      page_table_index = virtual % 0x400000 / 4096;
    })
      ≡ slot words directory virtual
unfolding slot_address
slot_address-slot words directory virtual h =
    omega (arith, bit_and-table_mask (words (directory + 4 * (virtual / 0x400000))) h)

module _ (words : Words) (directory : ℕ) (d : IsDirectory words directory) where
  pub set_page-slot :
      (virtual value : ℕ)
      → IsPage virtual
      → set_page words directory virtual value
        ≡ (ok tt, update words (slot words directory virtual) value)
  unfolding set_page get_indexes
  set_page-slot virtual value p =
      ground (arith, slot_address-slot words directory virtual (d.entry_word _ (omega arith)))

  pub get_page-slot :
      (virtual : ℕ)
      → IsPage virtual
      → get_page words directory virtual ≡ words (slot words directory virtual)
  unfolding get_page get_indexes
  get_page-slot virtual p =
      ground (arith, slot_address-slot words directory virtual (d.entry_word _ (omega arith)))

  -- The word of a page is no entry of the directory.
  pub slot_apart :
      (virtual i : ℕ)
      → IsPage virtual
      → i < entries_per_table
      → directory + 4 * i ≢ slot words directory virtual
  slot_apart virtual i p h e =
      d.table_apart (virtual / 0x400000) (omega arith) (omega (arith, d.aligned))

  pub slot-injective :
      (v w : ℕ) → IsPage v → IsPage w → v ≢ w → slot words directory v ≢ slot words directory w
  slot-injective v w p q ne e = elim (Bool-cases (v / 0x400000 == w / 0x400000)) [
    | inl same ↦
        let same' : v / 0x400000 ≡ w / 0x400000 = (==_iff _ _).0 same in
        let entry : words (directory + 4 * (v / 0x400000))
            ≡ words (directory + 4 * (w / 0x400000)) =
          ap (λ (i : ℕ). words (directory + 4 * i)) same' in
        ne (omega arith)
    | inr other ↦
        d.table_distinct (v / 0x400000) (w / 0x400000) (omega arith) (omega arith) (ground arith)
          (omega arith)
  ]
