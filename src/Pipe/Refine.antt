-- ===== src/Pipe/Refine.antt =====
-- The pipes of src/kernel/fs/pipe/PipeFS.cpp are bounded queues of bytes.
use git_os.Base.{
  ℕ, zero, suc, ◌+◌, ◌-◌, ◌^◌, ◌≤◌, ◌<◌, ◌≡◌, refl, sym, ap, false, ◌∙◌, arith, ltb, ◌==◌,
  Bool-cases, inl, inr, Option, List, [], ◌∷◌, ◌++◌, drop, length, length-tabulate, take-tabulate,
}
use native.Mathlib.Nat.{mod-eq_of_lt}
use git_os.Pipe.{Pipe, new_pipe, read, write, discard, run}
use git_os.Pipe.Slots.{
  IsValid, contents, slot, discard-IsValid, contents-discard, excess, discard_lem,
}
use git_os.Pipe.Take.{read_lem, read_less, read-IsValid, contents-read}
use git_os.Pipe.Put.{put-IsValid, contents-put, put_lem}
use mathlib.Core.Path.{ap₂}
use mathlib.Core.List.{append-nil}
use git_os.Pipe.Queue
use git_os.Pipe.Queue.{Op, put_bytes, get_bytes}

drop-append : (d : ℕ) (xs ys : List ℕ) → d ≤ length xs → drop d (xs ++ ys) ≡ drop d xs ++ ys
drop-append zero xs ys h = refl
drop-append (suc d) [] ys h = absurd (omega arith)
drop-append (suc d) (x ∷ xs) ys h = drop-append d xs ys (omega arith)

suc-ne-zero : (n : ℕ) → (suc n == 0) ≡ false
suc-ne-zero n = ground arith

-- A write that is no longer than the buffer: what the pipe holds, and that it is valid again.
pub write_refines :
    {p : Pipe} (bytes : List ℕ)
    → IsValid p
    → length bytes ≤ p.buffer_size
    → IsValid (write p bytes)
      × (contents (write p bytes) ≡ Queue.push p.buffer_size (contents p) bytes)
      × ((write p bytes).buffer_size ≡ p.buffer_size)
unfolding write Queue.push
write_refines {p} [] v h =
    let none_left : length (contents p) + 0 - p.buffer_size ≡ 0 =
      omega (arith, length-tabulate p.count (slot p), v.count_fits) in
    (v, rw none_left (sym (append-nil (contents p))), refl)
write_refines {p} (b ∷ bytes) v h =
    let some_bytes = b ∷ bytes in
    let over : length (contents p) + length some_bytes - p.buffer_size
        ≡ excess (length some_bytes) v h =
      omega (arith, length-tabulate p.count (slot p)) in
    let (v', fits) = discard-IsValid (length some_bytes) v h in
    let same : (discard p (length some_bytes)).buffer_size ≡ p.buffer_size =
      ap (λ (q : Pipe). q.buffer_size) (discard_lem (length some_bytes) v h) in
    let fits' : (discard p (length some_bytes)).count + length some_bytes
        ≤ (discard p (length some_bytes)).buffer_size =
      omega arith in
    rw suc-ne-zero (
      put-IsValid some_bytes v' fits',
      rw (contents-put some_bytes v' fits', contents-discard (length some_bytes) v h, over)
          (sym (
            drop-append (excess (length some_bytes) v h) (contents p) some_bytes
              (omega (arith, length-tabulate p.count (slot p))))),
      ap (λ (q : Pipe). q.buffer_size) (put_lem some_bytes v' fits') ∙ same,
    )

pub read_refines :
    {p : Pipe} (size : ℕ)
    → IsValid p
    → IsValid (read p size).1
      × (((read p size).0, contents (read p size).1) ≡ Queue.pop (contents p) size)
      × ((read p size).1.buffer_size ≡ p.buffer_size)
unfolding Queue.pop
read_refines {p} size v = elim (Bool-cases (ltb p.count size)) [
  | inl less ↦ let q = read_less {p = p} size less in rw (q, length-tabulate, less) (v, refl, refl)
  | inr enough ↦
      let h : size ≤ p.count = ground arith in
      rw
        (
          read_lem size v h,
          length-tabulate,
          enough,
          contents-read size v h,
          take-tabulate size p.count (slot p) h,
        )
        (read-IsValid size v h, refl, refl)
]

-- No write is longer than the buffer.
abbrev pub Fit : ℕ → List Op → Type 0
Fit bound [] = Unit {0}
Fit bound (put_bytes bytes ∷ ops) = (length bytes ≤ bound) × Fit bound ops
Fit bound (get_bytes size ∷ ops) = Fit bound ops

run_from :
    (ops : List Op) {p : Pipe} (bound : ℕ)
    → IsValid p
    → p.buffer_size ≡ bound
    → Fit bound ops
    → run p ops ≡ Queue.run bound (contents p) ops
unfolding run Queue.run
run_from [] bound v e f = refl
run_from (put_bytes bytes ∷ ops) {p} bound v e f =
    let (v', held, kept) = write_refines bytes v (rw e f.0) in
    run_from ops bound v' (kept ∙ e) f.1
    ∙ ap (λ q. Queue.run bound q ops) (held ∙ ap (λ b. Queue.push b (contents p) bytes) e)
run_from (get_bytes size ∷ ops) {p} bound v e f =
    let (v', told, kept) = read_refines size v in
    ap₂ ◌∷◌ (ap (λ (r : Option (List ℕ) × List ℕ). r.0) told) (
      run_from ops bound v' (kept ∙ e) f
      ∙ ap (λ (r : Option (List ℕ) × List ℕ). Queue.run bound r.1 ops) told)

-- A client that writes no block longer than the buffer cannot tell the pipe from a bounded queue of
-- bytes: whatever writes and reads follow one another from the constructor on, each read returns what
-- the queue does, from the oldest byte on, or -1 where fewer are held; and a write to a full queue
-- drops as many of the oldest bytes as it needs.
pub run_refines :
    (bound : ℕ) (ops : List Op)
    → 0 < bound
    → bound < 2 ^ 31
    → Fit bound ops
    → run (new_pipe bound) ops ≡ Queue.run bound [] ops
unfolding new_pipe
run_refines bound ops positive bounded f =
    run_from ops {p = new_pipe bound} bound
      (record {
        positive = positive;
        bounded = bounded;
        read_inside = positive;
        write_inside = positive;
        count_fits = omega arith;
        ends = sym (mod-eq_of_lt positive);
      })
      refl f
