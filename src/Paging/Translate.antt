-- ===== src/Paging/Translate.antt =====
-- What the processor makes of an address by the tables that src/kernel/memory/paging/paging.c fills in.
use git_os.Base.{
  ℕ, ◌/◌, ◌==◌, Bool, Option, none, some, ap, if◌then◌else◌, ◌+◌, ◌-◌, ◌*◌, ◌%◌, ◌^◌, ◌≤◌, ◌<◌, ◌≡◌,
  ◌∙◌, arith, true, ltb, leb, ◌&&◌,
}
use git_os.Paging.{Words, page_size, entries_per_table, get_page, map_to}
use git_os.Paging.Slots.{IsDirectory, IsPage}
use git_os.Paging.Map.{map_to-IsMapped}
use git_os.Paging.Fill.{entry_value}

-- `PAGING_IS_PRESENT` of an entry.
abbrev pub is_present : ℕ → Bool
is_present entry = entry % 2 == 1

-- The physical page stands in the upper 20 bits of the entry for the page of the address. Where this
-- entry or that of its table is not present, the access is a page fault, `none`.
unfoldable pub translate : Words → ℕ → ℕ → Option ℕ
translate words directory a =
    let table = words (directory + 4 * (a / 0x400000)) in
    let entry = get_page words directory (a - a % page_size) in
    if is_present table && is_present entry
    then some (entry - entry % page_size + a % page_size)
    else none

-- Behind `paging_map_to` of page-aligned bounds inside the address space, with flags of a byte that
-- have the present bit, in a directory whose tables are present, the processor takes each address of
-- the range to the byte as far behind the physical address.
pub translate-map_to :
    (words : Words) (directory virtual physical count flags a : ℕ)
    → IsDirectory words directory
    → IsPage virtual
    → physical % page_size ≡ 0
    → virtual + page_size * count ≤ 2 ^ 32
    → physical + page_size * count < 2 ^ 32
    → flags < 256
    → flags % 2 ≡ 1
    → ((i : ℕ) → i < entries_per_table → words (directory + 4 * i) % 2 ≡ 1)
    → virtual ≤ a
    → a < virtual + page_size * count
    → translate
        (map_to words directory virtual physical (physical + page_size * count) flags).1
        directory
        a
      ≡ some (physical + (a - virtual))
unfolding translate
translate-map_to words directory virtual physical count flags a d p q r s f odd present above
      below =
    let page = a - a % page_size in
    let m = map_to-IsMapped words directory virtual physical count flags d p q r s in
    let inside : (leb virtual page && ltb page (virtual + page_size * count)) ≡ true =
      ground (arith, p) in
    let entry : get_page
          (map_to words directory virtual physical (physical + page_size * count) flags).1 directory
          page
        ≡ physical + (page - virtual) + flags =
      m.entries page (omega arith, omega arith)
      ∙ rw inside (entry_value (physical + (page - virtual)) flags (omega (arith, p)) f) in
    let table : (map_to words directory virtual physical (physical + page_size * count) flags).1
          (directory + 4 * (a / 0x400000))
        ≡ words (directory + 4 * (a / 0x400000)) =
      m.tables_kept (a / 0x400000) (omega arith) in
    let reached : is_present (words (directory + 4 * (a / 0x400000))) ≡ true =
      ground (arith, present (a / 0x400000) (omega arith)) in
    let mapped : is_present (physical + (page - virtual) + flags) ≡ true = ground (arith, p) in
    let place : physical
          + (page - virtual)
          + flags
          - (physical + (page - virtual) + flags) % page_size
          + a % page_size
        ≡ physical + (a - virtual) =
      omega (arith, p) in
    rw (entry, table, reached, mapped) (ap some place)
