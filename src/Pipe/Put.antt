-- ===== src/Pipe/Put.antt =====
-- The second part of a write to a pipe, src/kernel/fs/pipe/PipeFS.cpp: the bytes are put behind those held.
use git_os.Base.{
  ℕ, ◌+◌, ◌-◌, ◌%◌, ◌≤◌, ◌<◌, ◌≡◌, refl, ap, ◌∙◌, arith, ltb, leb, if◌then◌else◌, Bool-cases, inl,
  inr, List, ◌++◌, take, drop, length, get_or, add32, sub32, write_at, tabulate_ext,
  tabulate-append, get_or-take, get_or-drop, length-take, length-drop,
}
use native.Mathlib.Nat.{mod-lt, mod-add-mod}
use git_os.Pipe.{Pipe, put}
use git_os.Pipe.Slots.{IsValid, contents, slot, wrap}

module _ {p : Pipe} (bytes : List ℕ) (v : IsValid p)
    (h : p.count + length bytes ≤ p.buffer_size) where
  open p use {buffer, buffer_size, buffer_read_idx, buffer_write_idx, count}

  -- How far a place of the buffer lies behind the next to be written, going round.
  abbrev offset : ℕ → ℕ
  offset k =
      if leb buffer_write_idx k then k - buffer_write_idx else k + buffer_size - buffer_write_idx

  abbrev first_chunk : ℕ
  first_chunk = buffer_size - buffer_write_idx

  abbrev written : ℕ → ℕ
  written k = if ltb (offset k) (length bytes) then get_or bytes (offset k) 0 else buffer k

  in_one :
      (k : ℕ)
      → k < buffer_size
      → buffer_write_idx + length bytes ≤ buffer_size
      → write_at buffer buffer_write_idx bytes k ≡ written k
  in_one k below fits = ground arith

  in_two :
      (k : ℕ)
      → k < buffer_size
      → buffer_size < buffer_write_idx + length bytes
      → write_at
          (write_at buffer buffer_write_idx (take first_chunk bytes))
          0
          (drop first_chunk bytes)
          k
        ≡ written k
  in_two k below over = ground (
    arith,
    length-take first_chunk bytes,
    length-drop first_chunk bytes,
    get_or-take first_chunk bytes (k - buffer_write_idx) 0,
    get_or-drop first_chunk bytes k 0,
  )

  pub put_buffer : (k : ℕ) → k < buffer_size → (put p bytes (length bytes)).buffer k ≡ written k
  unfolding put
  put_buffer k below = elim (Bool-cases (leb (add32 buffer_write_idx (length bytes)) buffer_size)) [
    | inl fits ↦ rw fits (in_one k below (ground arith))
    | inr over ↦
        let chunk : sub32 buffer_size buffer_write_idx ≡ first_chunk = omega arith in
        rw (over, chunk) (in_two k below (ground arith))
  ]

  pub put_lem : put p bytes (length bytes) ≡ record p {
    buffer = (put p bytes (length bytes)).buffer;
    buffer_write_idx = (buffer_write_idx + length bytes) % buffer_size;
    count = count + length bytes;
  }
  unfolding put
  put_lem = elim (Bool-cases (leb (add32 buffer_write_idx (length bytes)) buffer_size)) [
    | inl fits ↦
        let next : add32 buffer_write_idx (length bytes) ≡ buffer_write_idx + length bytes =
          omega arith in
        let more : add32 count (length bytes) ≡ count + length bytes = omega arith in
        rw (fits, next, more) refl
    | inr over ↦
        let next : sub32 (length bytes) (sub32 buffer_size buffer_write_idx)
            ≡ (buffer_write_idx + length bytes) % buffer_size =
          ground (arith, wrap (buffer_write_idx + length bytes) buffer_size) in
        let more : add32 count (length bytes) ≡ count + length bytes = omega arith in
        rw (over, next, more) refl
  ]

  pub put-IsValid : IsValid (put p bytes (length bytes))
  put-IsValid =
      let same : buffer_read_idx + count + length bytes ≡ buffer_read_idx + (count + length bytes) =
        omega arith in
      rw put_lem (record {
        positive = v.positive;
        bounded = v.bounded;
        read_inside = v.read_inside;
        write_inside = mod-lt (buffer_write_idx + length bytes) v.positive;
        count_fits = h;
        ends =
            ap (λ (k : ℕ). (k + length bytes) % buffer_size) v.ends
            ∙ mod-add-mod (buffer_read_idx + count) buffer_size (length bytes)
            ∙ ap (λ (k : ℕ). k % buffer_size) same;
      })

  pub contents-put : contents (put p bytes (length bytes)) ≡ contents p ++ bytes
  contents-put =
      rw (put_lem, tabulate-append count (slot p) bytes 0)
        (tabulate_ext (count + length bytes) _ _ (λ i q.
          put_buffer ((buffer_read_idx + i) % buffer_size) (mod-lt (buffer_read_idx + i) v.positive)
          ∙ around i q))
    where
      around :
          (i : ℕ)
          → i < count + length bytes
          → written ((buffer_read_idx + i) % buffer_size)
            ≡ (if ltb i count then slot p i else get_or bytes (i - count) 0)
      around i q = ground (
        arith,
        wrap (buffer_read_idx + i) buffer_size,
        wrap (buffer_read_idx + count) buffer_size,
      )
