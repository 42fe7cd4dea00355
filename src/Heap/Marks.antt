-- ===== src/Heap/Marks.antt =====
-- The loops that mark blocks taken and free, byte by byte of the table.
use git_os.Base.{
  ℕ, zero, suc, ◌+◌, ◌≤◌, ◌<◌, ◌≡◌, ◌≢◌, refl, ◌∙◌, ap, ◌⊎◌, inl, inr, arith, bit_or, bit_and, ltb,
  ◌==◌, Bool-cases, leb, leb→le, ◌&&◌, if◌then◌else◌, update, update_ne, true, false,
}
use native.Mathlib.Nat.{le_refl}
use git_os.Heap.{mark_from, free_from, has_next}

-- What `heap_mark_blocks_taken` makes of a byte, the last of the blocks or one before it.
abbrev pub taken_last : ℕ → ℕ
taken_last entry = bit_or entry 0x01

abbrev pub taken_linked : ℕ → ℕ
taken_linked entry = bit_or (bit_or entry 0x01) 0x80

module _ (start total : ℕ) where
  -- The table after round `i`.
  abbrev round : ℕ → (ℕ → ℕ) → ℕ → ℕ
  round i entries =
      let taken = update entries (start + i) (taken_last (entries (start + i))) in
      if ltb (i + 1) total
      then update taken (start + i) (bit_or (taken (start + i)) 0x80)
      else taken

  round_other : (i : ℕ) (entries : ℕ → ℕ) (j : ℕ) → j ≢ start + i → round i entries j ≡ entries j
  round_other i entries j ne = ground arith

  round_self :
      (i : ℕ) (entries : ℕ → ℕ)
      → round i entries (start + i) ≡ (
          if ltb (i + 1) total
          then taken_linked (entries (start + i))
          else taken_last (entries (start + i)))
  round_self i entries = ground arith

  pub mark_from_outside :
      (left i : ℕ) (entries : ℕ → ℕ) (j : ℕ)
      → i + left ≡ total
      → (j < start + i) ⊎ (start + total ≤ j)
      → mark_from start total left i entries j ≡ entries j
  unfolding mark_from
  mark_from_outside zero i entries j e out = refl
  mark_from_outside (suc left) i entries j e out =
      mark_from_outside left (i + 1) (round i entries) j (omega arith) (omega arith)
      ∙ round_other i entries j (omega arith)

  pub mark_from_inside :
      (left i : ℕ) (entries : ℕ → ℕ) (j : ℕ)
      → i + left ≡ total
      → start + i ≤ j
      → j < start + total
      → mark_from start total left i entries j
        ≡ (if ltb (j + 1) (start + total) then taken_linked (entries j) else taken_last (entries j))
  unfolding mark_from
  mark_from_inside zero i entries j e p q = absurd (omega arith)
  mark_from_inside (suc left) i entries j e p q = elim (Bool-cases (j == start + i)) [
    | inl here ↦
        ground (arith, mark_from_outside left (i + 1) (round i entries) j, round_self i entries)
    | inr later ↦
        mark_from_inside left (i + 1) (round i entries) j (omega arith) (ground arith) q
        ∙ ap (λ entry. if ltb (j + 1) (start + total) then taken_linked entry else taken_last entry)
            (round_other i entries j (ground arith))
  ]

-- The blocks from `a` up to `b` are one allocation: each but the last is linked to the next.
pub record IsChain (entries : ℕ → ℕ) (a b : ℕ) : Type 0 where
  pub some_block : a < b
  pub linked : (i : ℕ) → a ≤ i → i + 1 < b → (bit_and (entries i) has_next == 0) ≡ false
  pub last : (i : ℕ) → i + 1 ≡ b → (bit_and (entries i) has_next == 0) ≡ true

IsChain-suc :
    (entries : ℕ → ℕ) (i b : ℕ)
    → IsChain entries i b
    → i + 1 < b
    → IsChain (update entries i 0) (i + 1) b
IsChain-suc entries i b c more = record {
  some_block = more;
  linked = λ k p q.
      let same = update_ne entries i k 0 (omega arith) in rw same (c.linked k (omega arith) q);
  last = λ k e. let same = update_ne entries i k 0 (omega arith) in rw same (c.last k e);
}

free_from_below :
    (left i : ℕ) (entries : ℕ → ℕ) (j : ℕ) → j < i → free_from left i entries j ≡ entries j
unfolding free_from
free_from_below zero i entries j p = refl
free_from_below (suc left) i entries j p =
    ground (arith, free_from_below left (i + 1) (update entries i 0) j)

-- Freeing clears the bytes of the chain, and changes no other.
pub free_from_chain :
    (left i : ℕ) (entries : ℕ → ℕ) (b j : ℕ)
    → IsChain entries i b
    → b ≤ i + left
    → free_from left i entries j ≡ (if leb i j && ltb j b then 0 else entries j)
unfolding free_from
free_from_chain zero i entries b j c fits = absurd (omega (arith, c.some_block))
free_from_chain (suc left) i entries b j c fits = elim (Bool-cases (leb b (i + 1))) [
  | inl end ↦ rw (c.last i (end_at (leb→le _ _ end))) (ground (arith, c.some_block))
  | inr more ↦
      let more' : i + 1 < b = ground arith in
      let rest =
        free_from_chain left (i + 1) (update entries i 0) b j (IsChain-suc entries i b c more')
          (omega arith) in
      rw (c.linked i (le_refl _) more') (ground (arith, rest))
]
  where
    end_at : b ≤ i + 1 → i + 1 ≡ b
    end_at h = omega (arith, c.some_block)
