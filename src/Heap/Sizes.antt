-- ===== src/Heap/Sizes.antt =====
-- How many blocks a request takes, and what becomes of requests that the table cannot meet.
use git_os.Base.{
  ℕ, zero, suc, ◌+◌, ◌-◌, ◌*◌, ◌^◌, ◌≤◌, ◌<◌, ◌≡◌, refl, ◌⊎◌, inl, inr, arith, ltb, if◌then◌else◌,
  some,
}
use native.Mathlib.Nat.{zero-add}
use git_os.Heap.{
  Heap, block_size, align_size, block_to_address, find_from, get_start_block, mark_blocks_taken,
  malloc,
}
use git_os.Heap.Search.{AllFree}
use git_os.Heap.Marks.{mark_from_outside, mark_from_inside, taken_last, taken_linked}
use git_os.Heap.Malloc.{blocks_of, malloc-some}

-- A request of at most 2^32 - 4096 bytes takes the fewest blocks that hold them.
pub blocks_of_bounds :
    (size : ℕ)
    → size ≤ 2 ^ 32 - block_size
    → (size ≤ block_size * blocks_of size) × (block_size * blocks_of size < size + block_size)
unfolding align_size
blocks_of_bounds size h = ground arith

-- A request within the last `block_size - 1` bytes of the range takes no block at all.
blocks_of_wrap : (size : ℕ) → 2 ^ 32 - block_size < size → size < 2 ^ 32 → blocks_of size ≡ 0
unfolding align_size
blocks_of_wrap size low high = ground arith

-- On a table that is wholly free, the search for more blocks than there are runs to the end and
-- returns the first block all the same; so does the search for none.
find_from_short :
    (entries : ℕ → ℕ) (want left i current s : ℕ)
    → AllFree entries i (i + left)
    → (current + left < want) ⊎ (want ≤ current)
    → find_from entries want left i current (some s) ≡ some s
unfolding find_from
find_from_short entries want zero i current s clear short = refl
find_from_short entries want (suc left) i current s clear short = ground (
  arith,
  clear i,
  find_from_short entries want left (i + 1) (current + 1) s
      (λ j p q. clear j (omega arith) (omega arith)),
)

start_of_free_table :
    (h : Heap) (want : ℕ)
    → 0 < h.total
    → AllFree h.entries 0 h.total
    → (h.total < want) ⊎ (want ≡ 0)
    → get_start_block h want ≡ some 0
unfolding get_start_block find_from
start_of_free_table h want pos clear short =
    let one_more : h.total ≡ suc (h.total - 1) = omega arith in
    rw one_more (
      ground (
        arith,
        clear 0,
        find_from_short h.entries want (h.total - 1) 1 1 0
            (λ j p q. clear j (omega arith) (omega arith)),
      ))

-- A table of one block or more, all of them free, that is too short for the request gives out its first block nevertheless, and the
-- byte behind the table is marked taken.
pub malloc_overrun :
    (h : Heap) (size : ℕ)
    → 0 < h.total
    → AllFree h.entries 0 h.total
    → h.total < blocks_of size
    → ((malloc h size).0 ≡ block_to_address h 0)
      × ((malloc h size).1.entries h.total ≡ (
          if ltb (h.total + 1) (blocks_of size)
          then taken_linked (h.entries h.total)
          else taken_last (h.entries h.total)))
unfolding mark_blocks_taken
malloc_overrun h size pos clear short =
    let behind = simp zero-add at (
      mark_from_inside 0 (blocks_of size) (blocks_of size) 0 h.entries h.total (omega arith)
        (omega arith) (omega arith)) in
    rw (malloc-some h size 0 (start_of_free_table h (blocks_of size) pos clear (inl short)))
      (refl, behind)

-- A request of more than 2^32 - 4096 bytes gets the address of the first block of a table that is
-- wholly free, and changes no byte of the table.
pub malloc_wrap :
    (h : Heap) (size : ℕ)
    → 0 < h.total
    → AllFree h.entries 0 h.total
    → 2 ^ 32 - block_size < size
    → size < 2 ^ 32
    → ((malloc h size).0 ≡ block_to_address h 0)
      × ((j : ℕ) → (malloc h size).1.entries j ≡ h.entries j)
unfolding mark_blocks_taken
malloc_wrap h size pos clear low high =
    let nothing = blocks_of_wrap size low high in
    rw (malloc-some h size 0 (start_of_free_table h (blocks_of size) pos clear (inr nothing))) (
      refl,
      λ j.
          mark_from_outside 0 (blocks_of size) (blocks_of size) 0 h.entries j (omega arith)
            (omega arith),
    )
