-- ===== src/Heap.antt =====
-- The block allocator of the kernel heap, src/kernel/memory/heap/heap.c.
-- The table's bytes are a function from indices, so that a write past its end is a change like
-- any other.
pub mod Search
pub mod Marks
pub mod Malloc
pub mod RoundTrip
pub mod Sizes
pub mod Twice
pub mod Init
mod Owners
mod Tests
use git_os.Base.{
  ℕ, zero, suc, ◌+◌, ◌-◌, ◌*◌, ◌/◌, ◌%◌, ◌^◌, Bool, Option, none, some, Result, ok, err, einvarg,
  bit_and, bit_or, ltb, ◌==◌, if◌then◌else◌, u32, sub32, update, not, ◌||◌,
}

abbrev pub block_size : ℕ
block_size = 4096

abbrev pub entry_free : ℕ
entry_free = 0x00

abbrev pub entry_taken : ℕ
entry_taken = 0x01

abbrev pub has_next : ℕ
has_next = 0x80

-- `heap` and `heap_table`: `entries i` is the byte at `table->entries + i`.
pub record Heap : Type 0 where
  pub entries : ℕ → ℕ
  pub total : ℕ
  pub start_address : ℕ

-- `heap_get_entry_type`
abbrev pub entry_type : ℕ → ℕ
entry_type entry = bit_and entry 0x0f

unfoldable pub align_size : ℕ → ℕ
align_size val = if val % block_size == 0 then val else u32 (val - val % block_size + block_size)

unfoldable pub block_to_address : Heap → ℕ → ℕ
block_to_address h block = u32 (h.start_address + block_size * block)

-- The difference of two pointers is signed, and the division rounds towards 0. The block comes
-- back as the `size_t` to which `heap_mark_blocks_free` converts it.
unfoldable pub address_to_block : Heap → ℕ → ℕ
address_to_block h ptr =
    let diff = sub32 ptr h.start_address in
    if ltb diff (2 ^ 31) then diff / block_size else u32 (2 ^ 32 - (2 ^ 32 - diff) / block_size)

-- `if (start_block == -1) start_block = i;`
abbrev pub first_of_run : ℕ → Option ℕ → ℕ
first_of_run i none = i
first_of_run i (some s) = s

-- The loop of `heap_get_start_block` at index `i`, with `left` rounds to go; `none` is the
-- `start_block` of -1.
unfoldable pub find_from : (ℕ → ℕ) → ℕ → ℕ → ℕ → ℕ → Option ℕ → Option ℕ
find_from entries total_blocks zero i current_block start_block = start_block
find_from entries total_blocks (suc left) i current_block start_block =
    let restart = find_from entries total_blocks left (i + 1) 0 none in
    let first = first_of_run i start_block in
    let go_on = find_from entries total_blocks left (i + 1) (current_block + 1) (some first) in
    if not (entry_type (entries i) == entry_free)
    then restart
    else if current_block + 1 == total_blocks
    then some first
    else go_on

-- `none` is `-ENOMEM`.
unfoldable pub get_start_block : Heap → ℕ → Option ℕ
get_start_block h total_blocks = find_from h.entries total_blocks h.total 0 0 none

-- The loop of `heap_mark_blocks_taken` at round `i`.
pub mark_from : ℕ → ℕ → ℕ → ℕ → (ℕ → ℕ) → ℕ → ℕ
mark_from start_block total_blocks zero i entries = entries
mark_from start_block total_blocks (suc left) i entries =
    let taken = update entries (start_block + i) (bit_or (entries (start_block + i)) entry_taken) in
    let linked = update taken (start_block + i) (bit_or (taken (start_block + i)) has_next) in
    mark_from start_block total_blocks left (i + 1)
      (if ltb (i + 1) total_blocks then linked else taken)

pub mark_blocks_taken : Heap → ℕ → ℕ → Heap
mark_blocks_taken h start_block total_blocks = record h {
  entries = mark_from start_block total_blocks total_blocks 0 h.entries;
}

-- The loop of `heap_mark_blocks_free` at index `i`.
pub free_from : ℕ → ℕ → (ℕ → ℕ) → ℕ → ℕ
free_from zero i entries = entries
free_from (suc left) i entries =
    let entry = entries i in
    let freed = update entries i entry_free in
    let rest = free_from left (i + 1) freed in if bit_and entry has_next == 0 then freed else rest

pub mark_blocks_free : Heap → ℕ → Heap
mark_blocks_free h start_block = record h {
  entries = free_from (h.total - start_block) start_block h.entries;
}

-- The returned address is 0 when the allocation fails.
unfoldable pub malloc_blocks : Heap → ℕ → ℕ × Heap
malloc_blocks h total_blocks = elim (get_start_block h total_blocks) [
  | none ↦ (0, h)
  | some start_block ↦
      (block_to_address h start_block, mark_blocks_taken h start_block total_blocks)
]

unfoldable pub malloc : Heap → ℕ → ℕ × Heap
malloc h size = malloc_blocks h (align_size size / block_size)

pub free : Heap → ℕ → Heap
free h ptr = mark_blocks_free h (address_to_block h ptr)

-- `heap_validate_alignment`
abbrev pub is_aligned : ℕ → Bool
is_aligned ptr = ptr % block_size == 0

-- `heap_validate_table`
abbrev pub table_fits : ℕ → ℕ → ℕ → Bool
table_fits ptr end total = sub32 end ptr / block_size == total

-- `memset(table->entries, HEAP_BLOCK_TABLE_ENTRY_FREE, table->total)`
pub clear_table : ℕ → (ℕ → ℕ) → ℕ → ℕ
clear_table total entries i = if ltb i total then entry_free else entries i

-- `heap_create` on a heap whose table is `table`. The start address is set before the check of
-- the table, which can still refuse.
pub create : Heap → ℕ → ℕ → Result (Unit {0}) × Heap
create h ptr end =
    let set_up = record h { start_address = ptr } in
    if not (is_aligned ptr) || not (is_aligned end)
    then (err einvarg, h)
    else if not (table_fits ptr end h.total)
    then (err einvarg, set_up)
    else (ok tt, record set_up { entries = clear_table h.total h.entries })

-- `kheap_init`: the table at its fixed address gets `size / HEAP_BLOCK_SIZE` entries.
pub kheap_init : Heap → ℕ → ℕ → Result (Unit {0}) × Heap
kheap_init h start_address size =
    create (record h { total = size / block_size }) start_address (u32 (start_address + size))
