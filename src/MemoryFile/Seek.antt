-- ===== src/MemoryFile/Seek.antt =====
-- Where the seeking of src/kernel/fs/memory/MemoryFS.cpp leads to.
use git_os.Base.{
  ℕ, ◌+◌, ◌-◌, ◌^◌, ◌≤◌, ◌<◌, ◌≡◌, refl, arith, true, false, ◌⊎◌, inl, inr, Bool-cases, leb, ◌==◌,
  ok, err, einvarg,
}
use git_os.Fat.{SeekMode, seek_set, seek_cur, seek_end, seek_other}
use git_os.MemoryFile.{MemoryFile, seek, seek_index}

-- The index is not behind the end, and the size is no negative `int`.
pub record IsValid (m : MemoryFile) : Type 0 where
  pub inside : m.buffer_idx ≤ m.buffer_size
  pub bounded : m.buffer_size < 2 ^ 31

-- The index that a seek goes to, if it succeeds.
abbrev pub Target : MemoryFile → ℕ → SeekMode → ℕ → Type 0
Target m offset seek_set i = i ≡ offset
Target m offset seek_cur i = (offset ≡ 0) × (i ≡ m.buffer_idx)
Target m offset seek_end i = (offset ≤ m.buffer_idx) × (i + offset ≡ m.buffer_idx)
Target m offset seek_other i = i ≡ m.buffer_idx

-- The seek succeeds with an index, or no index would do and it is refused.
abbrev pub Sought : MemoryFile → ℕ → SeekMode → Type 0
Sought m offset mode =
    ((i : ℕ) × (offset < m.buffer_size)
      × Target m offset mode i
      × (seek m offset mode ≡ (ok tt, record m { buffer_idx = i })))
    ⊎ (((i : ℕ) → ¬ ((offset < m.buffer_size) × Target m offset mode i))
        × (seek m offset mode ≡ (err einvarg, m)))

module _ (m : MemoryFile) (offset : ℕ) (v : IsValid m) where
  behind_end : (mode : SeekMode) → m.buffer_size ≤ offset → Sought m offset mode
  unfolding seek
  behind_end mode h =
      let late : leb m.buffer_size offset ≡ true = ground arith in
      inr ((λ i t. omega arith), rw late refl)

  inside : offset < m.buffer_size → (mode : SeekMode) → Sought m offset mode
  unfolding seek seek_index
  inside h seek_set =
      let early : leb m.buffer_size offset ≡ false = ground arith in
      inl (offset, h, refl, rw early refl)
  inside h seek_cur = elim (Bool-cases (offset == 0)) [
    | inl e ↦ inl (m.buffer_idx, h, (ground arith, refl), ground arith)
    | inr e ↦ inr ((λ i t. ground arith), ground arith)
  ]
  inside h seek_other =
      let early : leb m.buffer_size offset ≡ false = ground arith in
      inl (m.buffer_idx, h, refl, rw early refl)
  inside h seek_end = elim (Bool-cases (leb offset m.buffer_idx)) [
    | inl e ↦ inl (m.buffer_idx - offset, h, (ground arith, ground arith), ground arith)
    | inr e ↦ inr ((λ i t. ground arith), ground arith)
  ]

-- A seek in a file whose index is not behind its end succeeds exactly if the offset is below the size
-- and there is an index to go to: the offset from the start; from the current index on only for the
-- offset 0, to where it is; for `SEEK_END` the offset back from the current index; and for a mode that is
-- none of these where it is. It then
-- changes the index alone. Otherwise it returns -EINVARG and changes nothing.
pub seek-Sought : (m : MemoryFile) (offset : ℕ) (mode : SeekMode) → IsValid m → Sought m offset mode
seek-Sought m offset mode v = elim (Bool-cases (leb m.buffer_size offset)) [
  | inl late ↦ behind_end m offset v mode (ground arith)
  | inr early ↦ inside m offset v (ground arith) mode
]
