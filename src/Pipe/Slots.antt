-- ===== src/Pipe/Slots.antt =====
-- The bytes that a pipe holds, going round its buffer, and what each part of a write does to them.
use git_os.Base.{
  ℕ, ◌+◌, ◌-◌, ◌%◌, ◌^◌, ◌≤◌, ◌<◌, ◌≡◌, refl, sym, ap, ◌∙◌, arith, ltb, if◌then◌else◌, Bool-cases,
  inl, inr, ltb→lt, List, drop, add32, sub32, tabulate, tabulate_ext, drop-tabulate,
}
use native.Mathlib.Nat.{mod-eq_of_lt, mod-eq-sub-mod, mod-lt, mod-add-mod}
use git_os.Pipe.{Pipe, discard}

-- The indices lie in the buffer, and the bytes held end where the next is written.
pub record IsValid (p : Pipe) : Type 0 where
  pub positive : 0 < p.buffer_size
  pub bounded : p.buffer_size < 2 ^ 31
  pub read_inside : p.buffer_read_idx < p.buffer_size
  pub write_inside : p.buffer_write_idx < p.buffer_size
  pub count_fits : p.count ≤ p.buffer_size
  pub ends : p.buffer_write_idx ≡ (p.buffer_read_idx + p.count) % p.buffer_size

abbrev pub slot : Pipe → ℕ → ℕ
slot p i = p.buffer ((p.buffer_read_idx + i) % p.buffer_size)

abbrev pub contents : Pipe → List ℕ
contents p = tabulate p.count (slot p)

-- Less than twice round.
pub wrap : (k n : ℕ) → k < n + n → k % n ≡ (if ltb k n then k else k - n)
wrap k n h = elim (Bool-cases (ltb k n)) [
  | inl below ↦ rw (below, mod-eq_of_lt (ltb→lt k n below)) refl
  | inr above ↦
      let le : n ≤ k = ground arith in
      rw (above, mod-eq-sub-mod le, mod-eq_of_lt {n = k - n} {m = n} (omega arith)) refl
]

module _ {p : Pipe} (size : ℕ) (v : IsValid p) (h : size ≤ p.buffer_size) where
  open p use {buffer, buffer_size, buffer_read_idx, buffer_write_idx, count}

  abbrev pub excess : ℕ
  excess = count + size - buffer_size

  -- What the first part of a write leaves.
  pub discard_lem : discard p size ≡ record p {
    buffer_read_idx = (buffer_read_idx + excess) % buffer_size;
    count = count - excess;
  }
  unfolding discard
  discard_lem = elim (Bool-cases (ltb buffer_size (add32 size count))) [
    | inl over ↦
        let read : add32 buffer_read_idx (sub32 (add32 size count) buffer_size)
            ≡ buffer_read_idx + excess =
          ground arith in
        let left : sub32 count (sub32 (add32 size count) buffer_size) ≡ count - excess =
          ground arith in
        rw (over, read, left) refl
    | inr fits ↦
        let none_left : excess ≡ 0 = ground arith in
        let read : (buffer_read_idx + 0) % buffer_size ≡ buffer_read_idx =
          (let e : buffer_read_idx + 0 ≡ buffer_read_idx = omega arith in
            ap (λ (k : ℕ). k % buffer_size) e)
          ∙ mod-eq_of_lt v.read_inside in
        let left : count - 0 ≡ count = omega arith in rw (fits, none_left, read, left) refl
  ]

  pub discard-IsValid : IsValid (discard p size) × ((discard p size).count + size ≤ buffer_size)
  discard-IsValid =
      let same : buffer_read_idx + count ≡ buffer_read_idx + excess + (count - excess) =
        omega (arith, v.count_fits) in
      rw discard_lem (
        record {
          positive = v.positive;
          bounded = v.bounded;
          read_inside = mod-lt (buffer_read_idx + excess) v.positive;
          write_inside = v.write_inside;
          count_fits = omega arith;
          ends =
              v.ends
              ∙ ap (λ (k : ℕ). k % buffer_size) same
              ∙ sym (mod-add-mod (buffer_read_idx + excess) buffer_size (count - excess));
        },
        omega arith,
      )

  pub contents-discard : contents (discard p size) ≡ drop excess (contents p)
  contents-discard =
      let same : (i : ℕ) → buffer_read_idx + excess + i ≡ buffer_read_idx + (excess + i) =
        λ i. omega arith in
      rw (discard_lem, drop-tabulate)
        (tabulate_ext (count - excess) _ _ (λ i q. ap buffer (
          mod-add-mod (buffer_read_idx + excess) buffer_size i
          ∙ ap (λ (k : ℕ). k % buffer_size) (same i))))
