-- ===== src/Heap/RoundTrip.antt =====
-- `heap_free` after `heap_malloc`.
use git_os.Base.{
  ℕ, ◌+◌, ◌-◌, ◌*◌, ◌^◌, ◌≤◌, ◌<◌, ◌≡◌, ◌∙◌, sym, inl, inr, arith, leb, ltb, lt→ltb, Bool-cases,
  if◌then◌else◌, false, ◌&&◌,
}
use git_os.Heap.{
  Heap, block_size, block_to_address, address_to_block, mark_blocks_free, malloc, free,
}
use git_os.Heap.Search.{AllFree}
use git_os.Heap.Marks.{free_from_chain, IsChain}
use git_os.Heap.Malloc.{IsAllocated, IsTable, blocks_of, malloc-IsAllocated, entry_of_free}

-- The heap lies in the lower half of the address space below its start, and does not wrap.
pub record IsPlaced (h : Heap) : Type 0 where
  pub below_top : h.start_address + block_size * h.total ≤ 2 ^ 32
  pub half : block_size * h.total ≤ 2 ^ 31

-- A block's address is read back as the block, in every heap with that start.
pub address_to_block-block_to_address :
    (h h' : Heap) (block : ℕ)
    → IsPlaced h
    → h'.start_address ≡ h.start_address
    → block < h.total
    → address_to_block h' (block_to_address h block) ≡ block
unfolding address_to_block block_to_address
address_to_block-block_to_address h h' block placed same inside = ground arith

module _ (h : Heap) (size s : ℕ) (out : ℕ × Heap) (a : IsAllocated h size s out)
    (pos : 0 < blocks_of size) where
  IsAllocated-IsChain : IsChain out.1.entries s (s + blocks_of size)
  IsAllocated-IsChain = record {
    some_block = omega arith;
    linked = λ i p q. rw (a.now_taken i p (omega arith), lt→ltb _ _ q);
    last = λ i e.
        let end : ltb (i + 1) (s + blocks_of size) ≡ false = ground arith in
        rw (a.now_taken i (omega arith) (omega arith), end);
  }

  free_block : IsPlaced h → address_to_block out.1 out.0 ≡ s
  free_block placed =
      rw a.address
        (address_to_block-block_to_address h out.1 s placed a.same_start (omega (arith, a.inside)))

  free_entry :
      IsPlaced h
      → (j : ℕ)
      → (free out.1 out.0).entries j
        ≡ (if leb s j && ltb j (s + blocks_of size) then 0 else out.1.entries j)
  unfolding free mark_blocks_free
  free_entry placed j = rw (free_block placed) (
      free_from_chain (out.1.total - s) s out.1.entries (s + blocks_of size) j IsAllocated-IsChain
        (omega (arith, a.inside, a.same_total)))

  pub free_restores : IsTable h → IsPlaced h → (j : ℕ) → (free out.1 out.0).entries j ≡ h.entries j
  free_restores table placed j = elim (Bool-cases (leb s j && ltb j (s + blocks_of size))) [
    | inl within ↦
        let low : s ≤ j = ground arith in
        let high : j < s + blocks_of size = ground arith in
        free_entry placed j
        ∙ rw within
            (sym (entry_of_free _ (table j (omega (arith, a.inside))) (a.were_free j low high)))
    | inr outside ↦ free_entry placed j ∙ rw outside (a.others j (ground arith))
  ]

-- Freeing what `heap_malloc` returned gives back the table as it was before, byte for byte, where
-- the table is well formed, the heap takes 2 GiB at most and ends within the address space, the
-- request takes a block at least and the table had enough free blocks in a row for it.
pub free-malloc :
    (h : Heap) (size run : ℕ)
    → IsTable h
    → IsPlaced h
    → 0 < blocks_of size
    → run + blocks_of size ≤ h.total
    → AllFree h.entries run (run + blocks_of size)
    → (j : ℕ) → (free (malloc h size).1 (malloc h size).0).entries j ≡ h.entries j
free-malloc h size run table placed pos fits clear j =
    let (s, a, _) = malloc-IsAllocated h size run table pos fits clear in
    free_restores h size s (malloc h size) a pos table placed j
