-- ===== src/Pipe/Overrun.antt =====
-- The memory behind a pipe after a write of any length, src/kernel/fs/pipe/PipeFS.cpp.
use git_os.Base.{
  ℕ, ◌+◌, ◌-◌, ◌<◌, ◌^◌, ◌≡◌, refl, ◌∙◌, arith, List, Bool-cases, inl, inr, ltb, leb, ◌==◌, ◌&&◌,
  if◌then◌else◌, length, get_or, length-drop, get_or-drop, length-take, get_or-take, add32, sub32,
}
use git_os.Pipe.{Pipe, write, discard, put}
use git_os.Pipe.Slots.{IsValid}

-- What lies at the offset `k` after a write: the part of the bytes that goes round, the part up to the
-- end of the buffer, or what was there.
abbrev pub written : Pipe → List ℕ → ℕ → ℕ
written p bytes k =
    let first_chunk = p.buffer_size - p.buffer_write_idx in
    if ltb k (length bytes - first_chunk)
    then get_or bytes (first_chunk + k) 0
    else if leb p.buffer_write_idx k
        && ltb k p.buffer_size
        && ltb k (p.buffer_write_idx + length bytes)
    then get_or bytes (k - p.buffer_write_idx) 0
    else p.buffer k

module _ (p : Pipe) (bytes : List ℕ) (k : ℕ) (inside : p.buffer_write_idx < p.buffer_size)
    (bounded : p.buffer_size < 2 ^ 31) (short : length bytes < 2 ^ 31) where
  put-written : (put p bytes (length bytes)).buffer k ≡ written p bytes k
  unfolding put
  put-written =
      let first : sub32 p.buffer_size p.buffer_write_idx ≡ p.buffer_size - p.buffer_write_idx =
        omega arith in
      elim (Bool-cases (leb (add32 p.buffer_write_idx (length bytes)) p.buffer_size)) [
        | inl fits ↦ rw (fits) (ground arith)
        | inr over ↦
            rw (over, first)
              (ground (
                arith,
                length-drop (p.buffer_size - p.buffer_write_idx) bytes,
                length-take (p.buffer_size - p.buffer_write_idx) bytes,
                get_or-drop (p.buffer_size - p.buffer_write_idx) bytes k 0,
                get_or-take (p.buffer_size - p.buffer_write_idx) bytes (k - p.buffer_write_idx) 0,
              ))
      ]

discard_keeps :
    (p : Pipe) (size : ℕ)
    → ((discard p size).buffer_size ≡ p.buffer_size)
      × ((discard p size).buffer_write_idx ≡ p.buffer_write_idx)
      × ((discard p size).buffer ≡ p.buffer)
unfolding discard
discard_keeps p size = elim (Bool-cases (ltb p.buffer_size (add32 size p.count))) [
  | inl over ↦ rw over (refl, refl, refl)
  | inr fits ↦ rw fits (refl, refl, refl)
]

-- After a write of any length below 2^31 to a pipe in order, at every offset from its buffer: the bytes
-- that do not fit between the write index and the end lie from the start of the buffer on, and past its
-- end where they are more than it holds, which is where the block is longer than the buffer and the
-- part of it behind the write index together. The bytes that fit lie from the write index on, as far as those
-- do not lie over them, and the rest is as it was.
pub write_overrun :
    (p : Pipe) (bytes : List ℕ) (k : ℕ)
    → IsValid p
    → length bytes < 2 ^ 31
    → (write p bytes).buffer k ≡ written p bytes k
unfolding write
write_overrun p bytes k v short = elim (Bool-cases (length bytes == 0)) [
  | inl empty ↦ rw empty (ground arith)
  | inr some_bytes ↦
      let q = discard p (length bytes) in
      let (size, index, buffer) = discard_keeps p (length bytes) in
      rw some_bytes (
        put-written q bytes k (omega (arith, size, index, v)) (omega (arith, size, v)) short
        ∙ rw (size, index, buffer) refl)
]
