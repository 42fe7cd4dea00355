-- ===== src/MemoryFile/RoundTrip.antt =====
-- What is written to a file in memory, src/kernel/fs/memory/MemoryFS.cpp, is read from it.
use git_os.Base.{
  ℕ, zero, suc, ◌+◌, ◌-◌, ◌*◌, ◌^◌, ◌≤◌, ◌<◌, ◌≡◌, refl, sym, ap, ◌∙◌, arith, List, [], ◌∷◌, ◌++◌,
  take, drop, Bool-cases, inl, inr, length, get_or, ltb, leb, if◌then◌else◌, false, add32, write_at,
  read_at, tabulate, tabulate_ext, tabulate-append, length-tabulate, get_or-append, get_or-tabulate,
  length-append, length-take, length-drop, take-append-drop, tabulate-get_or, ok,
}
use mathlib.Core.Path.{ap₂, fun_ext}
use git_os.Fat.{seek_set}
use git_os.MemoryFile.{
  MemoryFile, read, write, seek, seek_index, memory_read, memory_read_from, memory_write,
  memory_write_from,
}

write_at-append :
    (f : ℕ → ℕ) (at : ℕ) (xs ys : List ℕ) (j : ℕ)
    → write_at (write_at f at xs) (at + length xs) ys j ≡ write_at f at (xs ++ ys) j
write_at-append f at xs ys j = ground (arith, length-append xs ys, get_or-append xs ys (j - at) 0)

read_at-add :
    (f : ℕ → ℕ) (at n k : ℕ) → read_at f at n ++ read_at f (at + n) k ≡ read_at f at (n + k)
read_at-add f at n k =
    let whole = n + length (read_at f (at + n) k) in
    let same : whole ≡ n + k = omega (arith, length-tabulate k (λ i. f (at + n + i))) in
    tabulate-append n (λ i. f (at + i)) (read_at f (at + n) k) 0
    ∙ ap (λ l. tabulate l both) same
    ∙ tabulate_ext (n + k) both (λ i. f (at + i)) here
  where
    both : ℕ → ℕ
    both i = if ltb i n then f (at + i) else get_or (read_at f (at + n) k) (i - n) 0

    here : (i : ℕ) → i < n + k → both i ≡ f (at + i)
    here i h = elim (Bool-cases (ltb i n)) [
      | inl e ↦ rw e refl
      | inr e ↦
          let index : at + n + (i - n) ≡ at + i = ground arith in
          rw e (get_or-tabulate k (λ j. f (at + n + j)) (i - n) 0 (ground arith) ∙ ap f index)
    ]

-- A block that is written is what is read there.
read_at-write_at :
    (f : ℕ → ℕ) (at : ℕ) (xs : List ℕ) → read_at (write_at f at xs) at (length xs) ≡ xs
read_at-write_at f at xs =
    tabulate_ext (length xs) _ (λ i. get_or xs i 0) (λ i h. here i h) ∙ tabulate-get_or xs 0
  where
    here : (i : ℕ) → i < length xs → write_at f at xs (at + i) ≡ get_or xs i 0
    here i h =
        let index : at + i - at ≡ i = omega arith in
        ground (arith, ap (λ (k : ℕ). get_or xs k 0) index)

write_room :
    (m : MemoryFile) (bytes : List ℕ)
    → m.buffer_size < 2 ^ 31
    → m.buffer_idx + length bytes ≤ m.buffer_size
    → (write m bytes).1 ≡ record m {
      buffer = write_at m.buffer m.buffer_idx bytes;
      buffer_idx = m.buffer_idx + length bytes;
    }
unfolding write
write_room m bytes b h =
    let room : ltb m.buffer_size (add32 m.buffer_idx (length bytes)) ≡ false = ground arith in
    let next : add32 m.buffer_idx (length bytes) ≡ m.buffer_idx + length bytes = omega arith in
    rw (room, next) refl

read_room :
    (m : MemoryFile) (size : ℕ)
    → m.buffer_size < 2 ^ 31
    → m.buffer_idx + size ≤ m.buffer_size
    → read m size
      ≡ (ok (read_at m.buffer m.buffer_idx size), record m { buffer_idx = m.buffer_idx + size })
unfolding read
read_room m size b h =
    let room : ltb m.buffer_size (add32 m.buffer_idx size) ≡ false = ground arith in
    let next : add32 m.buffer_idx size ≡ m.buffer_idx + size = omega arith in rw (room, next) refl

-- `memory_write` with room for all its blocks.
memory_write_room :
    (nmemb size : ℕ) (m : MemoryFile) (input : List ℕ)
    → m.buffer_size < 2 ^ 31
    → length input ≡ nmemb * size
    → m.buffer_idx + length input ≤ m.buffer_size
    → memory_write_from nmemb size input m ≡ record m {
      buffer = write_at m.buffer m.buffer_idx input;
      buffer_idx = m.buffer_idx + length input;
    }
unfolding memory_write_from
memory_write_room zero size m [] b e h =
    let stays : m.buffer_idx ≡ m.buffer_idx + 0 = omega arith in
    let nothing : m.buffer ≡ write_at m.buffer m.buffer_idx [] = fun_ext (λ j. ground arith) in
    ap₂ (λ (f : ℕ → ℕ) (i : ℕ). record m { buffer = f; buffer_idx = i }) nothing stays
memory_write_room zero size m (x ∷ input) b e h = absurd (omega arith)
memory_write_room (suc nmemb) size m input b e h =
    let one : (suc nmemb) * size ≡ size + nmemb * size = grind arith in
    let first : length (take size input) ≡ size = omega (arith, length-take size input) in
    let later : length (drop size input) ≡ nmemb * size = omega (arith, length-drop size input) in
    let next = m.buffer_idx + length (take size input) in
    let m' : MemoryFile = record m {
      buffer = write_at m.buffer m.buffer_idx (take size input);
      buffer_idx = next;
    } in
    let step : (write m (take size input)).1 ≡ m' =
      write_room m (take size input) b (omega arith) in
    let bytes : write_at m'.buffer next (drop size input) ≡ write_at m.buffer m.buffer_idx input =
      fun_ext (λ j. write_at-append m.buffer m.buffer_idx (take size input) (drop size input) j)
      ∙ ap (write_at m.buffer m.buffer_idx) (take-append-drop size input) in
    let end : next + length (drop size input) ≡ m.buffer_idx + length input = omega arith in
    ap (memory_write_from nmemb size (drop size input)) step
    ∙ memory_write_room nmemb size m' (drop size input) b later (omega arith)
    ∙ ap₂ (λ (f : ℕ → ℕ) (i : ℕ). record m { buffer = f; buffer_idx = i }) bytes end

memory_read_room :
    (nmemb size : ℕ) (m : MemoryFile) (out : List ℕ)
    → m.buffer_size < 2 ^ 31
    → length out ≡ nmemb * size
    → m.buffer_idx + nmemb * size ≤ m.buffer_size
    → (memory_read_from nmemb size out m).0 ≡ read_at m.buffer m.buffer_idx (nmemb * size)
unfolding memory_read_from
memory_read_room zero size m [] b e h =
    let none_left : 0 ≡ zero * size = omega arith in ap (read_at m.buffer m.buffer_idx) none_left
memory_read_room zero size m (x ∷ out) b e h = absurd (omega arith)
memory_read_room (suc nmemb) size m out b e h =
    let one : (suc nmemb) * size ≡ size + nmemb * size = grind arith in
    let m' : MemoryFile = record m { buffer_idx = m.buffer_idx + size } in
    let later =
      memory_read_room nmemb size m' (drop size out) b (omega (arith, length-drop size out))
        (omega arith) in
    rw (read_room m size b (omega arith), later, one)
      (read_at-add m.buffer m.buffer_idx size (nmemb * size))

-- Where there is room from the index on, the blocks that `memory_write` writes are what `memory_read`
-- reads after a seek back to where they start.
pub memory_read-memory_write :
    (nmemb size : ℕ) (m : MemoryFile) (input out : List ℕ)
    → m.buffer_size < 2 ^ 31
    → m.buffer_idx < m.buffer_size
    → length input ≡ nmemb * size
    → length out ≡ nmemb * size
    → m.buffer_idx + length input ≤ m.buffer_size
    → let (written, m') = memory_write m size nmemb input in
      let (res, m'') = seek m' m.buffer_idx seek_set in
      let (count, bytes, m''') = memory_read m'' size nmemb out in
      (written ≡ ok nmemb) × (res ≡ ok tt) × (count ≡ ok nmemb) × (bytes ≡ input)
unfolding memory_read memory_write seek seek_index
memory_read-memory_write nmemb size m input out b inside e e' h =
    let m' : MemoryFile = record m { buffer = write_at m.buffer m.buffer_idx input } in
    let early : leb m.buffer_size m.buffer_idx ≡ false = ground arith in
    rw (memory_write_room nmemb size m input b e h, early)
      (
        refl,
        refl,
        refl,
        memory_read_room nmemb size m' out b e' (omega arith)
            ∙ ap (read_at m'.buffer m.buffer_idx) (sym e)
            ∙ read_at-write_at m.buffer m.buffer_idx input,
      )
