-- ===== src/Heap/Init.antt =====
-- `kheap_init` and `heap_create`.
use git_os.Base.{
  ℕ, ◌+◌, ◌*◌, ◌/◌, ◌%◌, ◌^◌, ◌≤◌, ◌<◌, ◌≡◌, refl, ◌↔◌, ap, ◌⊎◌, inl, arith, ok, err, einvarg,
}
use git_os.Heap.{Heap, block_size, create, kheap_init, clear_table, entry_type}
use git_os.Heap.Search.{AllFree}
use git_os.Heap.Malloc.{IsTable}

-- Where the heap ends within the address space, `kheap_init` succeeds exactly when start and size
-- are whole blocks, and otherwise fails with -EINVARG.
pub kheap_init_iff :
    (h : Heap) (start size : ℕ)
    → start + size < 2 ^ 32
    → (((kheap_init h start size).0 ≡ ok tt) ↔ ((start % block_size ≡ 0) × (size % block_size ≡ 0)))
      × (((kheap_init h start size).0 ≡ ok tt) ⊎ ((kheap_init h start size).0 ≡ err einvarg))
unfolding kheap_init create
kheap_init_iff h start size top = ground arith

abbrev made : Heap → ℕ → ℕ → Heap
made h start size = record {
  entries = clear_table (size / block_size) h.entries;
  total = size / block_size;
  start_address = start;
}

kheap_init_aligned :
    (h : Heap) (start size : ℕ)
    → start + size < 2 ^ 32
    → start % block_size ≡ 0
    → size % block_size ≡ 0
    → kheap_init h start size ≡ (ok tt, made h start size)
unfolding kheap_init create
kheap_init_aligned h start size top p q = ground arith

-- Where start and size are whole blocks and the heap ends within the address space, what
-- `kheap_init` sets up holds `size` bytes, is free throughout and well formed, and no byte behind the
-- table has changed.
pub kheap_init-IsTable :
    (h : Heap) (start size : ℕ)
    → start + size < 2 ^ 32
    → start % block_size ≡ 0
    → size % block_size ≡ 0
    → let h' = (kheap_init h start size).1 in
      (h'.start_address ≡ start)
      × (block_size * h'.total ≡ size)
      × IsTable h'
      × AllFree h'.entries 0 h'.total
      × ((j : ℕ) → h'.total ≤ j → h'.entries j ≡ h.entries j)
unfolding clear_table
kheap_init-IsTable h start size top p q = rw (kheap_init_aligned h start size top p q) (
  refl,
  omega arith,
  λ i r. inl (ground arith),
  λ i r s.
      let cleared : clear_table (size / block_size) h.entries i ≡ 0 = ground arith in
      ap entry_type cleared,
  λ j r. ground arith,
)
