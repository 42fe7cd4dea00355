-- ===== src/Heap/Tests.antt =====
-- Runs of the allocator, and the properties at a heap of four blocks.
use git_os.Base.{[], ◌∷◌, ℕ, ◌≤◌, ◌≡◌, refl, ap, inl, arith, if◌then◌else◌, ◌==◌}
use git_os.Heap.{
  Heap, entry_type, malloc, malloc_blocks, free, align_size, mark_blocks_taken, mark_from,
  find_from, get_start_block, block_to_address, address_to_block,
}
use git_os.Heap.Search.{AllFree}
use git_os.Heap.Malloc.{IsTable, IsAllocated, malloc-IsAllocated}
use git_os.Heap.RoundTrip.{free-malloc}
use git_os.Heap.Sizes.{malloc_overrun}
use git_os.Heap.Owners.{Shows, SameBehind, Reach-Shows, here, next, request, release}

abbrev four : Heap
four = record { entries = λ i. 0; total = 4; start_address = 0x100000 }

-- The second block is taken.
abbrev busy : Heap
busy = record four { entries = λ i. if i == 1 then 0x01 else 0 }

two_blocks : (malloc busy 5000).0 ≡ 0x102000
unfolding malloc malloc_blocks align_size get_start_block find_from block_to_address
two_blocks = refl

chain_bytes :
    let h = (malloc busy 5000).1 in
    (h.entries 1 ≡ 0x01) × (h.entries 2 ≡ 0x81) × (h.entries 3 ≡ 0x01) × (h.entries 4 ≡ 0x00)
unfolding malloc malloc_blocks align_size get_start_block find_from mark_blocks_taken mark_from
chain_bytes = (refl, refl, refl, refl)

four-IsTable : IsTable four
four-IsTable i h = inl refl

busy-IsTable : IsTable busy
busy-IsTable i h = ground arith

busy_end : AllFree busy.entries 2 4
busy_end i p q = let other : busy.entries i ≡ 0 = ground arith in ap entry_type other

malloc-IsAllocated_example : (s : ℕ) × IsAllocated busy 5000 s (malloc busy 5000) × (s ≤ 2)
unfolding align_size
malloc-IsAllocated_example =
    malloc-IsAllocated busy 5000 2 busy-IsTable (omega arith) (omega arith) busy_end

free-malloc_example : (free (malloc busy 5000).1 (malloc busy 5000).0).entries 3 ≡ 0
unfolding align_size
free-malloc_example =
    free-malloc busy 5000 2 busy-IsTable (omega arith) (omega arith) (omega arith) busy_end 3

malloc_overrun_example :
    ((malloc four 20000).0 ≡ 0x100000) × ((malloc four 20000).1.entries 4 ≡ 0x01)
unfolding align_size block_to_address
malloc_overrun_example = malloc_overrun four 20000 (omega arith) (λ i p q. refl) (omega arith)

-- Two blocks and then one are requested, and the two are freed.
abbrev first_two : Heap
first_two = (malloc four 5000).1

abbrev three : Heap
three = (malloc first_two 1).1

four-Shows : Shows four []
four-Shows = record {
  placed = record { below_top = omega arith; half = omega arith };
  apart = tt;
  entries = λ j h. refl;
}

third_free : AllFree first_two.entries 2 3
unfolding malloc malloc_blocks align_size get_start_block find_from mark_blocks_taken mark_from
third_free i p q = let third : i ≡ 2 = omega arith in rw third refl

Reach-Shows_example :
    Shows (free three 0x100000) ((2, 1) ∷ []) × SameBehind four (free three 0x100000)
unfolding malloc malloc_blocks align_size get_start_block find_from mark_blocks_taken mark_from
    block_to_address address_to_block
Reach-Shows_example = Reach-Shows four-Shows (
    next
      (next (next here (request 5000 0 (omega arith) (omega arith) (λ i p q. refl)))
        (request 1 2 (omega arith) (omega arith) third_free))
      (release ((2, 1) ∷ []) [] 0 2 refl))
