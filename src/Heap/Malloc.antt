-- ===== src/Heap/Malloc.antt =====
-- `heap_malloc` and `heap_free` on a table whose bytes are well formed.
use git_os.Base.{
  ℕ, ◌+◌, ◌/◌, ◌≤◌, ◌<◌, ◌≡◌, ◌≢◌, refl, ◌∙◌, sym, ap, ◌⊎◌, inl, inr, arith, ltb, Option-cases,
  if◌then◌else◌, none, some,
}
use native.Mathlib.Decide.{dec_lt}
use git_os.Heap.{
  Heap, entry_type, block_size, align_size, block_to_address, get_start_block, mark_blocks_taken,
  malloc_blocks, malloc, free,
}
use git_os.Heap.Search.{AllFree, find_from-AllFree, find_from_fit}
use git_os.Heap.Marks.{mark_from_outside, mark_from_inside, taken_last, taken_linked}

-- A byte of the table that the allocator writes.
abbrev pub IsEntry : ℕ → Type 0
IsEntry e = (e ≡ 0x00) ⊎ (e ≡ 0x01) ⊎ (e ≡ 0x81)

abbrev pub IsTable : Heap → Type 0
IsTable h = (i : ℕ) → i < h.total → IsEntry (h.entries i)

-- The number of blocks that a request takes.
abbrev pub blocks_of : ℕ → ℕ
blocks_of size = align_size size / block_size

pub entry_of_free : (e : ℕ) → IsEntry e → entry_type e ≡ 0 → e ≡ 0
entry_of_free e (inl p) free = p
entry_of_free e (inr (inl p)) free = absurd (omega (arith, ap entry_type (sym p) ∙ free))
entry_of_free e (inr (inr p)) free = absurd (omega (arith, ap entry_type (sym p) ∙ free))

pub malloc-none :
    (h : Heap) (size : ℕ) → get_start_block h (blocks_of size) ≡ none → malloc h size ≡ (0, h)
unfolding malloc malloc_blocks
malloc-none h size e = rw (e, malloc_blocks)

pub malloc-some :
    (h : Heap) (size s : ℕ)
    → get_start_block h (blocks_of size) ≡ some s
    → malloc h size ≡ (block_to_address h s, mark_blocks_taken h s (blocks_of size))
unfolding malloc malloc_blocks
malloc-some h size s e = rw (e, malloc_blocks)

-- Whatever the request of a block or more, the byte of a block in the table that is taken keeps
-- its value.
pub malloc_keeps_taken :
    (h : Heap) (size j : ℕ)
    → 0 < blocks_of size
    → j < h.total
    → entry_type (h.entries j) ≢ 0
    → (malloc h size).1.entries j ≡ h.entries j
unfolding mark_blocks_taken get_start_block
malloc_keeps_taken h size j pos inside taken =
    elim (Option-cases (get_start_block h (blocks_of size))) [
      | inl e ↦ rw (malloc-none h size e)
      | inr (s, e) ↦ rw (malloc-some h size s e) (
          mark_from_outside s (blocks_of size) (blocks_of size) 0 h.entries j (omega arith) (
            out s
              (find_from-AllFree h.entries (blocks_of size) h.total 0 0 none s (refl, pos) e j)))
    ]
  where
    out :
        (s : ℕ)
        → (s ≤ j → j < s + blocks_of size → j < 0 + h.total → entry_type (h.entries j) ≡ 0)
        → (j < s + 0) ⊎ (s + blocks_of size ≤ j)
    out s free = elim (dec_lt j s) [
      | yes p ↦ inl (omega arith)
      | no p ↦ elim (dec_lt j (s + blocks_of size)) [
        | yes q ↦ absurd (taken (free (omega arith) q (omega arith)))
        | no q ↦ inr (omega arith)
      ]
    ]

-- The allocation of `size` bytes from block `s` on, with its outcome.
pub record IsAllocated (h : Heap) (size s : ℕ) (out : ℕ × Heap) : Type 0 where
  pub address : out.0 ≡ block_to_address h s
  pub same_total : out.1.total ≡ h.total
  pub same_start : out.1.start_address ≡ h.start_address
  pub inside : s + blocks_of size ≤ h.total
  pub were_free : AllFree h.entries s (s + blocks_of size)
  pub now_taken :
      (j : ℕ)
      → s ≤ j
      → j < s + blocks_of size
      → out.1.entries j ≡ (if ltb (j + 1) (s + blocks_of size) then 0x81 else 0x01)
  pub others : (j : ℕ) → (j < s) ⊎ (s + blocks_of size ≤ j) → out.1.entries j ≡ h.entries j

-- Where the bytes of the table are well formed and it has as many free blocks in a row as the
-- request takes, one at least, `heap_malloc` returns
-- the address of such blocks, none of them behind those, and links exactly them into a chain.
pub malloc-IsAllocated :
    (h : Heap) (size run : ℕ)
    → IsTable h
    → 0 < blocks_of size
    → run + blocks_of size ≤ h.total
    → AllFree h.entries run (run + blocks_of size)
    → (s : ℕ) × IsAllocated h size s (malloc h size) × (s ≤ run)
unfolding mark_blocks_taken get_start_block
malloc-IsAllocated h size run table pos fits clear =
    (found.0, rw (malloc-some h size found.0 found.1) allocated, found.2)
  where
    n : ℕ
    n = blocks_of size

    found : (s : ℕ) × (get_start_block h n ≡ some s) × (s ≤ run)
    found =
        find_from_fit h.entries n h.total 0 0 none run (refl, pos) (omega arith) (omega arith) clear

    free_at : AllFree h.entries found.0 (found.0 + n)
    free_at j p q =
        find_from-AllFree h.entries n h.total 0 0 none found.0 (refl, pos) found.1 j p q
          (omega (arith, found.2))

    marked : (j : ℕ) → found.0 ≤ j → j < found.0 + n → h.entries j ≡ 0
    marked j p q = entry_of_free (h.entries j) (table j (omega (arith, found.2))) (free_at j p q)

    allocated :
        IsAllocated h size found.0 (block_to_address h found.0, mark_blocks_taken h found.0 n)
    allocated = record {
      address = refl;
      same_total = refl;
      same_start = refl;
      inside = omega (arith, found.2);
      were_free = free_at;
      now_taken = λ j p q.
          mark_from_inside found.0 n n 0 h.entries j (omega arith) (omega arith) q
          ∙ ap (λ e. if ltb (j + 1) (found.0 + n) then taken_linked e else taken_last e)
              (marked j p q);
      others = λ j out. mark_from_outside found.0 n n 0 h.entries j (omega arith) (omega arith);
    }
