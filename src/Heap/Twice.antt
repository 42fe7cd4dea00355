-- ===== src/Heap/Twice.antt =====
-- Freeing an address of the kernel heap twice, src/kernel/memory/heap/heap.c.
use git_os.Base.{
  ℕ, zero, suc, ◌+◌, ◌-◌, ◌<◌, ◌≡◌, refl, ap, arith, ◌==◌, Bool-cases, inl, inr, List, [], ◌∷◌,
  update, bit_and,
}
use mathlib.Core.Path.{fun_ext}
use git_os.Heap.{Heap, free, free_from, mark_blocks_free, address_to_block, entry_free, has_next}

-- A byte that is free stays free.
free_from-keeps :
    (left i j : ℕ) (entries : ℕ → ℕ)
    → entries j ≡ entry_free
    → free_from left i entries j ≡ entry_free
unfolding free_from
free_from-keeps zero i j entries h = h
free_from-keeps (suc left) i j entries h =
    let freed : update entries i entry_free j ≡ entry_free = ground arith in
    elim (Bool-cases (bit_and (entries i) has_next == 0)) [
      | inl last ↦ rw (free_from, last) freed
      | inr more ↦
          rw (free_from, more) (free_from-keeps left (i + 1) j (update entries i entry_free) freed)
    ]

-- Freeing from a block that is free changes nothing.
free_from-free :
    (left i : ℕ) (entries : ℕ → ℕ) → entries i ≡ entry_free → free_from left i entries ≡ entries
unfolding free_from
free_from-free zero i entries h = refl
free_from-free (suc left) i entries h = rw h (fun_ext (λ j. ground arith))

free_from-first :
    (left i : ℕ) (entries : ℕ → ℕ) → 0 < left → free_from left i entries i ≡ entry_free
unfolding free_from
free_from-first zero i entries h = absurd (omega arith)
free_from-first (suc left) i entries h =
    let freed : update entries i entry_free i ≡ entry_free = ground arith in
    elim (Bool-cases (bit_and (entries i) has_next == 0)) [
      | inl last ↦ rw (free_from, last) freed
      | inr more ↦
          rw (free_from, more) (free_from-keeps left (i + 1) i (update entries i entry_free) freed)
    ]

-- The addresses in order.
unfoldable pub free_all : Heap → List ℕ → Heap
free_all h [] = h
free_all h (ptr ∷ ptrs) = free_all (free h ptr) ptrs

free_all-keeps :
    (h : Heap) (ptr : ℕ) (ptrs : List ℕ)
    → h.entries (address_to_block h ptr) ≡ entry_free
    → (free_all h ptrs).entries (address_to_block (free_all h ptrs) ptr) ≡ entry_free
unfolding free_all free mark_blocks_free address_to_block
free_all-keeps h ptr [] e = e
free_all-keeps h ptr (p ∷ ptrs) e = free_all-keeps (free h p) ptr ptrs (
    free_from-keeps (h.total - address_to_block h p) (address_to_block h p) (address_to_block h ptr)
      h.entries e)

free-free : (h : Heap) (ptr : ℕ) → h.entries (address_to_block h ptr) ≡ entry_free → free h ptr ≡ h
unfolding free mark_blocks_free
free-free h ptr e =
    ap (λ (entries : ℕ → ℕ). record h { entries = entries })
      (free_from-free (h.total - address_to_block h ptr) (address_to_block h ptr) h.entries e)

-- Freeing leaves the place of an address as it is.
pub address_to_block-free :
    (h : Heap) (p ptr : ℕ)
    → (address_to_block (free h p) ptr ≡ address_to_block h ptr) × ((free h p).total ≡ h.total)
unfolding free mark_blocks_free address_to_block
address_to_block-free h p ptr = (refl, refl)

-- An address that lies in the heap can be freed again, as long as nothing is allocated in between: the
-- second time changes nothing.
pub free_twice :
    (h : Heap) (ptr : ℕ) (ptrs : List ℕ)
    → address_to_block h ptr < h.total
    → free (free_all (free h ptr) ptrs) ptr ≡ free_all (free h ptr) ptrs
unfolding free mark_blocks_free address_to_block
free_twice h ptr ptrs inside = free-free (free_all (free h ptr) ptrs) ptr (
    free_all-keeps (free h ptr) ptr ptrs (
      free_from-first (h.total - address_to_block h ptr) (address_to_block h ptr) h.entries
        (omega arith)))
