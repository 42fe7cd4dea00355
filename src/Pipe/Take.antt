-- ===== src/Pipe/Take.antt =====
-- What a read of a pipe does, src/kernel/fs/pipe/PipeFS.cpp: the bytes come in one chunk or in two.
use git_os.Base.{
  ℕ, ◌+◌, ◌-◌, ◌%◌, ◌≤◌, ◌<◌, ◌≡◌, refl, sym, ap, leb→le, false, true, ◌∙◌, arith, ltb, leb,
  if◌then◌else◌, Bool-cases, inl, inr, none, some, ◌++◌, drop, length, length-tabulate, add32,
  sub32, tabulate, read_at, drop-tabulate, tabulate_ext, tabulate-append, get_or-tabulate, get_or,
}
use native.Mathlib.Nat.{mod-lt, mod-add-mod, mod-eq_of_lt}
use git_os.Pipe.{Pipe, read}
use git_os.Pipe.Slots.{IsValid, contents, slot, wrap}

module _ {p : Pipe} (size : ℕ) (v : IsValid p) (h : size ≤ p.count) where
  open p use {buffer, buffer_size, buffer_read_idx, count}

  chunk_in_one :
      buffer_read_idx + size ≤ buffer_size
      → read_at buffer buffer_read_idx size ≡ tabulate size (slot p)
  chunk_in_one fits = tabulate_ext size _ _ (λ i q. ap buffer (sym (mod-eq_of_lt (omega arith))))

  abbrev first : ℕ
  first = buffer_size - buffer_read_idx

  abbrev chunks : ℕ → ℕ
  chunks i =
      if ltb i first
      then buffer (buffer_read_idx + i)
      else get_or (read_at buffer 0 (size - first)) (i - first) 0

  chunks-slot : buffer_size < buffer_read_idx + size → (i : ℕ) → i < size → chunks i ≡ slot p i
  chunks-slot over i q = elim (Bool-cases (ltb i first)) [
    | inl e ↦ rw e (ap buffer (sym (mod-eq_of_lt (ground arith))))
    | inr e ↦
        let index : 0 + (i - first) ≡ (buffer_read_idx + i) % buffer_size =
          ground (arith, wrap (buffer_read_idx + i) buffer_size) in
        rw e (
          get_or-tabulate (size - first) (λ j. buffer (0 + j)) (i - first) 0 (ground arith)
          ∙ ap buffer index)
  ]

  chunk_in_two :
      buffer_size < buffer_read_idx + size
      → read_at buffer buffer_read_idx first ++ read_at buffer 0 (size - first)
        ≡ tabulate size (slot p)
  chunk_in_two over =
      let whole : first + length (read_at buffer 0 (size - first)) ≡ size =
        omega (arith, v.read_inside, length-tabulate (size - first) (λ i. buffer (0 + i))) in
      tabulate-append first (λ i. buffer (buffer_read_idx + i)) (read_at buffer 0 (size - first)) 0
      ∙ ap (λ n. tabulate n chunks) whole
      ∙ tabulate_ext size chunks (slot p) (chunks-slot over)

  -- What a read of no more than is held does.
  pub read_lem : read p size ≡ (
    some (tabulate size (slot p)),
    record p { buffer_read_idx = (buffer_read_idx + size) % buffer_size; count = count - size },
  )
  unfolding read
  read_lem =
      let enough : ltb count size ≡ false = ground arith in
      let left : sub32 count size ≡ count - size = ground arith in
      let next : add32 buffer_read_idx size ≡ buffer_read_idx + size = ground arith in
      elim (Bool-cases (leb (buffer_read_idx + size) buffer_size)) [
        | inl fits ↦ rw (enough, next, fits, left, chunk_in_one (leb→le _ _ fits)) refl
        | inr over ↦
            let first : sub32 buffer_size buffer_read_idx ≡ buffer_size - buffer_read_idx =
              ground arith in
            let second : sub32 size (buffer_size - buffer_read_idx)
                ≡ size - (buffer_size - buffer_read_idx) =
              ground arith in
            let place : size - (buffer_size - buffer_read_idx)
                ≡ (buffer_read_idx + size) % buffer_size =
              ground (arith, wrap (buffer_read_idx + size) buffer_size) in
            rw (enough, next, over, left, first, second, chunk_in_two (ground arith), place) refl
      ]

  pub read-IsValid :
      IsValid (record p {
        buffer_read_idx = (buffer_read_idx + size) % buffer_size;
        count = count - size;
      })
  read-IsValid =
      let same : buffer_read_idx + count ≡ buffer_read_idx + size + (count - size) = omega arith in
      record {
        positive = v.positive;
        bounded = v.bounded;
        read_inside = mod-lt (buffer_read_idx + size) v.positive;
        write_inside = v.write_inside;
        count_fits = omega (arith, v.count_fits);
        ends =
            v.ends
            ∙ ap (λ (k : ℕ). k % buffer_size) same
            ∙ sym (mod-add-mod (buffer_read_idx + size) buffer_size (count - size));
      }

  pub contents-read :
      contents (record p {
        buffer_read_idx = (buffer_read_idx + size) % buffer_size;
        count = count - size;
      })
      ≡ drop size (contents p)
  contents-read =
      let same : (i : ℕ) → buffer_read_idx + size + i ≡ buffer_read_idx + (size + i) =
        λ i. omega arith in
      rw drop-tabulate (
        tabulate_ext (count - size) _ _ (λ i q. ap buffer (
          mod-add-mod (buffer_read_idx + size) buffer_size i
          ∙ ap (λ (k : ℕ). k % buffer_size) (same i))))

pub read_less : {p : Pipe} (size : ℕ) → ltb p.count size ≡ true → read p size ≡ (none, p)
unfolding read
read_less size less = rw less refl
