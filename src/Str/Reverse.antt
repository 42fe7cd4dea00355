-- ===== src/Str/Reverse.antt =====
-- `strrev` turns a string round in its buffer.
use git_os.Base.{
  ℕ, zero, suc, ◌+◌, ◌-◌, ◌<◌, ◌≡◌, refl, ap, ◌∙◌, sym, arith, true, false, ◌&&◌, some, List, [],
  ◌∷◌, ltb, leb, ◌==◌, if◌then◌else◌, get_or, set, length, length-set, length-append, Bool-cases,
  inl, inr, get_or-set, get_or_ext, get_or-append, get_or-reverse, length-reverse, ltb→lt,
}
use mathlib.Core.List.{reverse}
use git_os.Str.{swap_bytes, reverse_loop, strrev}
use git_os.Str.Copy.{IsText, buffer, ne_zero, strlen-buffer}

length-swap_bytes : (str : List ℕ) (i j : ℕ) → length (swap_bytes str i j) ≡ length str
length-swap_bytes str i j =
    length-set (set str i (get_or str j 0)) j (get_or str i 0) ∙ length-set str i (get_or str j 0)

get_or-swap_bytes :
    (str : List ℕ) (i j k : ℕ)
    → i < length str
    → j < length str
    → get_or (swap_bytes str i j) k 0
      ≡ (if k == j then get_or str i 0 else if k == i then get_or str j 0 else get_or str k 0)
get_or-swap_bytes str i j k p q = ground (
  arith,
  get_or-set (set str i (get_or str j 0)) j k (get_or str i 0) 0,
  get_or-set str i k (get_or str j 0) 0,
  length-set str i (get_or str j 0),
)

length-reverse_loop : (i j : ℕ) (str : List ℕ) → length (reverse_loop i j str) ≡ length str
unfolding reverse_loop
length-reverse_loop zero j str = refl
length-reverse_loop (suc i) j str = ground (
  arith,
  length-reverse_loop i (j + 1) (swap_bytes str (suc i) j),
  length-swap_bytes str (suc i) j,
)

-- The loop reflects the bytes from `j` to `i` and leaves the others.
get_or-reverse_loop :
    (i j : ℕ) (str : List ℕ) (k : ℕ)
    → i < length str
    → get_or (reverse_loop i j str) k 0
      ≡ (if leb j k && leb k i then get_or str (i + j - k) 0 else get_or str k 0)
unfolding reverse_loop
get_or-reverse_loop zero j str k h = elim (Bool-cases (leb j k && leb k 0)) [
  | inl both ↦ let index : 0 + j - k ≡ k = ground arith in rw (both, index)
  | inr out ↦ rw out
]
get_or-reverse_loop (suc i) j str k h = elim (Bool-cases (ltb j (suc i))) [
  | inr met ↦ rw met (elim (Bool-cases (leb j k && leb k (suc i))) [
    | inl both ↦ let index : suc i + j - k ≡ k = ground arith in rw (both, index)
    | inr out ↦ rw out
  ])
  | inl more ↦
      let swapped = swap_bytes str (suc i) j in
      let index : i + (j + 1) - k ≡ suc i + j - k = omega arith in
      let rest = get_or-reverse_loop i (j + 1) swapped k (rw length-swap_bytes (omega arith)) in
      rw (more, rest, index)
        (ground (
          arith,
          get_or-swap_bytes str (suc i) j k,
          get_or-swap_bytes str (suc i) j (suc i + j - k),
        ))
]

reversed_bytes :
    (s rest : List ℕ) (k : ℕ)
    → 0 < length s
    → get_or (reverse_loop (length s - 1) 0 (buffer s rest)) k 0
      ≡ get_or (buffer (reverse s) rest) k 0
reversed_bytes s rest k pos =
    get_or-reverse_loop (length s - 1) 0 (buffer s rest) k
      (omega (arith, length-append s (0 ∷ rest)))
    ∙ elim (Bool-cases (ltb k (length s))) [
      | inl within ↦
          let inside : leb 0 k && leb k (length s - 1) ≡ true = ground arith in
          let index : length s - 1 + 0 - k ≡ length s - 1 - k = omega arith in
          let below : ltb (length s - 1 - k) (length s) ≡ true = ground arith in
          let below' : ltb k (length (reverse s)) ≡ true = rw length-reverse within in
          rw (inside, index, get_or-append, below, get_or-append, below')
            (sym (get_or-reverse s k 0 (ltb→lt _ _ within)))
      | inr behind ↦
          let outside : leb 0 k && leb k (length s - 1) ≡ false = ground arith in
          let behind' : ltb k (length (reverse s)) ≡ false = rw length-reverse behind in
          rw (outside, get_or-append, behind, get_or-append, behind', length-reverse)
    ]

length-reversed :
    (s rest : List ℕ)
    → length (reverse_loop (length s - 1) 0 (buffer s rest)) ≡ length (buffer (reverse s) rest)
length-reversed s rest = omega (
  arith,
  length-reverse_loop (length s - 1) 0 (buffer s rest),
  length-append s (0 ∷ rest),
  length-append (reverse s) (0 ∷ rest),
  length-reverse s,
)

-- `strrev` reverses the bytes of a string and keeps the terminator and what lies behind it.
pub strrev-buffer :
    (s rest : List ℕ) → IsText s → strrev (buffer s rest) ≡ some (buffer (reverse s) rest)
unfolding strrev
strrev-buffer [] rest t = refl
strrev-buffer (c ∷ s) rest t =
    rw (ne_zero c t.0, strlen-buffer (c ∷ s) rest t)
      (ap some (
        get_or_ext 0 _ _ (length-reversed (c ∷ s) rest)
          (λ k h. reversed_bytes (c ∷ s) rest k (omega arith))))
