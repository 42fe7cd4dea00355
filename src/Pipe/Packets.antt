-- ===== src/Pipe/Packets.antt =====
-- Blocks of bytes that go through a pipe, src/kernel/fs/pipe/PipeFS.cpp.
use git_os.Base.{
  drop-drop, take_more, take_all, lt→ltb, ℕ, zero, suc, ◌+◌, ◌*◌, ◌≤◌, ◌<◌, ◌≡◌, refl, sym, ap, ◌∙◌,
  arith, List, [], ◌∷◌, ◌++◌, Option, some, ltb, false, take, drop, length, length-append,
  length-tabulate, length-take, length-drop, take-append-drop, ok,
}
use mathlib.Core.List.{append_assoc, append-nil}
use git_os.Pipe.{Pipe, read, write, pipe_read_from, pipe_read, pipe_write_from, pipe_write}
use git_os.Pipe.Slots.{IsValid, contents, slot}
use git_os.Pipe.Take.{read_less}
use git_os.Pipe.Refine.{write_refines, read_refines}
use git_os.Pipe.Queue

drop-zero : (k : ℕ) (xs : List ℕ) → k ≡ 0 → drop k xs ≡ xs
drop-zero k xs e = ap (λ (j : ℕ). drop j xs) e

-- A write for which there is room.
write_room :
    {p : Pipe} (bytes : List ℕ)
    → IsValid p
    → p.count + length bytes ≤ p.buffer_size
    → IsValid (write p bytes)
      × (contents (write p bytes) ≡ contents p ++ bytes)
      × ((write p bytes).buffer_size ≡ p.buffer_size)
unfolding Queue.push
write_room {p} bytes v h =
    let (v', held, kept) = write_refines bytes v (omega arith) in
    (
      v',
      held ∙ drop-zero _ (contents p ++ bytes) (omega (arith, length-tabulate p.count (slot p))),
      kept,
    )

-- All that `pipe_write` is given is behind what the pipe held.
pipe_write_room :
    (nmemb size : ℕ) {p : Pipe} (input : List ℕ)
    → IsValid p
    → length input ≡ nmemb * size
    → p.count + length input ≤ p.buffer_size
    → IsValid (pipe_write_from nmemb size input p)
      × (contents (pipe_write_from nmemb size input p) ≡ contents p ++ input)
unfolding pipe_write_from
pipe_write_room zero size [] v e h = (v, sym (append-nil _))
pipe_write_room zero size (b ∷ input) v e h = absurd (omega arith)
pipe_write_room (suc nmemb) size {p} input v e h =
    let one : (suc nmemb) * size ≡ size + nmemb * size = grind arith in
    let first : length (take size input) ≡ size = omega (arith, length-take size input) in
    let later : length (drop size input) ≡ nmemb * size = omega (arith, length-drop size input) in
    let (v', held, kept) = write_room (take size input) v (omega arith) in
    let count' : (write p (take size input)).count ≡ p.count + size =
      sym (length-tabulate _ (slot (write p (take size input))))
      ∙ ap length held
      ∙ length-append (contents p) (take size input)
      ∙ omega (arith, length-tabulate p.count (slot p)) in
    let (v'', held') = pipe_write_room nmemb size (drop size input) v' later (omega arith) in
    (
      v'',
      held'
          ∙ ap (λ xs. xs ++ drop size input) held
          ∙ append_assoc (contents p) (take size input) (drop size input)
          ∙ ap (λ xs. contents p ++ xs) (take-append-drop size input),
    )

-- The read of a block from a pipe that holds enough.
read_block :
    {p : Pipe} (size : ℕ) (xs : List ℕ)
    → IsValid p
    → contents p ≡ xs
    → size ≤ length xs
    → IsValid (read p size).1
      × ((read p size).0 ≡ some (take size xs))
      × (contents (read p size).1 ≡ drop size xs)
unfolding Queue.pop
read_block {p} size xs v c h =
    let (v', told, kept) = read_refines size v in
    let enough : ltb (length (contents p)) size ≡ false = rw c (ground arith) in
    let told' = told ∙ rw (enough, c) refl in
    (
      v',
      ap (λ (r : Option (List ℕ) × List ℕ). r.0) told',
      ap (λ (r : Option (List ℕ) × List ℕ). r.1) told',
    )

-- What lies first in a pipe is what `pipe_read` gives.
pipe_read_held :
    (nmemb size : ℕ) {p : Pipe} (out xs : List ℕ)
    → IsValid p
    → contents p ≡ xs
    → nmemb * size ≤ length xs
    → length out ≤ nmemb * size
    → IsValid (pipe_read_from nmemb size out p).1
      × (contents (pipe_read_from nmemb size out p).1 ≡ drop (nmemb * size) xs)
      × ((pipe_read_from nmemb size out p).0 ≡ take (nmemb * size) xs)
unfolding pipe_read_from
pipe_read_held zero size {p} [] xs v c e h =
    let none_left : zero * size ≡ 0 = omega arith in rw none_left (v, c, refl)
pipe_read_held zero size (b ∷ out) xs v c e h = absurd (omega arith)
pipe_read_held (suc nmemb) size {p} out xs v c e h =
    let one : (suc nmemb) * size ≡ size + nmemb * size = grind arith in
    let (v', told, left) = read_block size xs v c (omega arith) in
    let (v'', held, got) =
      pipe_read_held nmemb size (drop size out) (drop size xs) v' left
        (omega (arith, length-drop size xs)) (omega (arith, length-drop size out)) in
    rw (one, told)
      (
        v'',
        held ∙ drop-drop size (nmemb * size) xs,
        ap (λ ys. take size xs ++ ys) got ∙ take_more size (nmemb * size) xs,
      )

-- A pipe that is empty and has room: what `pipe_write` puts in, `pipe_read` gets out, and the pipe is
-- empty again.
pub pipe_read-pipe_write :
    (nmemb size : ℕ) {p : Pipe} (input : List ℕ)
    → IsValid p
    → contents p ≡ []
    → length input ≡ nmemb * size
    → length input ≤ p.buffer_size
    → (pipe_read (pipe_write p size nmemb input).1 size nmemb []).1 ≡ input
unfolding pipe_read pipe_write
pipe_read-pipe_write nmemb size {p} input v c e h =
    let zero_held : p.count ≡ 0 = sym (length-tabulate p.count (slot p)) ∙ ap length c in
    let (v', held) = pipe_write_room nmemb size input v e (omega arith) in
    let (v'', left, got) =
      pipe_read_held nmemb size [] input v' (held ∙ ap (λ xs. xs ++ input) c) (omega arith)
        (omega arith) in
    got ∙ ap (λ (n : ℕ). take n input) (sym e) ∙ take_all input

pipe_read_from_short :
    (nmemb size : ℕ) (out : List ℕ) (p : Pipe)
    → p.count < size
    → length out ≡ nmemb * size
    → pipe_read_from nmemb size out p ≡ (out, p)
unfolding pipe_read_from
pipe_read_from_short zero size [] p h e = refl
pipe_read_from_short zero size (b ∷ out) p h e = absurd (omega arith)
pipe_read_from_short (suc nmemb) size out p h e =
    let one : (suc nmemb) * size ≡ size + nmemb * size = grind arith in
    rw (
      read_less {p = p} size (lt→ltb _ _ h),
      pipe_read_from_short nmemb size (drop size out) p h (omega (arith, length-drop size out)),
      take-append-drop size out,
    )

-- `pipe_read` of blocks that are longer than what is held says that it has read them all, and has
-- changed neither the buffer of the caller nor the pipe.
pub pipe_read_short :
    (p : Pipe) (size nmemb : ℕ) (out : List ℕ)
    → p.count < size
    → length out ≡ nmemb * size
    → pipe_read p size nmemb out ≡ (ok nmemb, out, p)
unfolding pipe_read
pipe_read_short p size nmemb out h e = rw (pipe_read_from_short nmemb size out p h e)
