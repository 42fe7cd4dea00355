-- ===== src/FilePath/Split.antt =====
-- The parts into which src/kernel/fs/Path.cpp takes a path apart, and the path that
-- src/kernel/fs/file.c puts together from them.
use git_os.Base.{
  ℕ, zero, suc, ◌+◌, ◌-◌, ◌<◌, ◌≡◌, refl, sym, ap, ◌∙◌, arith, true, false, ◌==◌, if◌then◌else◌,
  Bool-cases, inl, inr, some, List, [], ◌∷◌, ◌++◌, map, set, replicate, length, ltb, lt→ltb,
  length-append,
}
use mathlib.Core.Path.{ap₂}
use mathlib.Core.List.{append_assoc, append-nil}
use git_os.File.{max_path, reconstruct}
use git_os.Str.Copy.{IsText}
use git_os.FilePath.{parse_from, text_of}

-- The parts of a path between its slashes, the first of which begins with `part`.
unfoldable pub split : List ℕ → List ℕ → List (List ℕ)
split part [] = part ∷ []
split part (c ∷ path) =
    let next = split [] path in
    let more = split (part ++ (c ∷ [])) path in if c == b'/' then part ∷ next else more

-- The buffer that holds a part.
abbrev pub buffer_of : List ℕ → List ℕ
buffer_of part = part ++ replicate (max_path - length part) 0

reconstruct-cons :
    (part : List ℕ) (q : List ℕ) (parts : List (List ℕ))
    → reconstruct (part ∷ q ∷ parts) ≡ part ++ (b'/' ∷ reconstruct (q ∷ parts))
unfolding reconstruct
reconstruct-cons part q parts = refl

split-cons :
    (part path : List ℕ) → (q : List ℕ) × (parts : List (List ℕ)) × (split part path ≡ q ∷ parts)
unfolding split
split-cons part [] = (part, [], refl)
split-cons part (c ∷ path) = elim (Bool-cases (c == b'/')) [
  | inl e ↦ (part, split [] path, rw e refl)
  | inr e ↦ rw e (split-cons (part ++ (c ∷ [])) path)
]

pub reconstruct-split : (part path : List ℕ) → reconstruct (split part path) ≡ part ++ path
unfolding reconstruct split
reconstruct-split part [] = sym (append-nil part)
reconstruct-split part (c ∷ path) = elim (Bool-cases (c == b'/')) [
  | inl e ↦
      let slash : c ≡ b'/' = ground arith in
      let (q, parts, split_up) = split-cons [] path in
      rw (e, slash, split_up)
        (ap (λ s. part ++ (b'/' ∷ s)) (ap reconstruct (sym split_up) ∙ reconstruct-split [] path))
  | inr e ↦ rw e (reconstruct-split (part ++ (c ∷ [])) path ∙ append_assoc part (c ∷ []) path)
]

set-append :
    (xs ys : List ℕ) (y v : ℕ) → set (xs ++ (y ∷ ys)) (length xs) v ≡ (xs ++ (v ∷ [])) ++ ys
set-append [] ys y v = refl
set-append (x ∷ xs) ys y v = ap (◌∷◌ x) (set-append xs ys y v)

-- Putting one more byte into the buffer of a part.
set-buffer_of :
    (part : List ℕ) (c : ℕ)
    → length part < max_path
    → set (buffer_of part) (length part) c ≡ buffer_of (part ++ (c ∷ []))
set-buffer_of part c h =
    let one : max_path - length part ≡ suc (max_path - length (part ++ (c ∷ []))) =
      omega (arith, length-append part (c ∷ [])) in
    rw one (set-append part (replicate (max_path - length (part ++ (c ∷ []))) 0) 0 c)

pub parse_from-split :
    (path part : List ℕ)
    → length part + length path < max_path
    → parse_from path (buffer_of part) (length part) ≡ some (map buffer_of (split part path))
unfolding parse_from split
parse_from-split [] part h = refl
parse_from-split (c ∷ path) part h = elim (Bool-cases (c == b'/')) [
  | inl e ↦ rw (e, parse_from-split path [] (omega arith)) refl
  | inr e ↦
      let inside : ltb (length part) max_path ≡ true = lt→ltb _ _ (omega arith) in
      let next : length part + 1 ≡ length (part ++ (c ∷ [])) =
        omega (arith, length-append part (c ∷ [])) in
      rw (e, inside, next, set-buffer_of part c (omega arith))
        (parse_from-split path (part ++ (c ∷ [])) (omega (arith, length-append part (c ∷ []))))
]

-- A part and its text.
text_of-buffer : (part : List ℕ) (n : ℕ) → IsText part → text_of (part ++ replicate n 0) ≡ part
unfolding text_of
text_of-buffer [] zero t = refl
text_of-buffer [] (suc n) t = refl
text_of-buffer (c ∷ part) n t =
    let other : (c == 0) ≡ false = ground (arith, t.0) in
    rw other (ap (◌∷◌ c) (text_of-buffer part n t.1))

IsText-append : (xs ys : List ℕ) → IsText xs → IsText ys → IsText (xs ++ ys)
IsText-append [] ys a b = b
IsText-append (x ∷ xs) ys a b = (a.0, IsText-append xs ys a.1 b)

pub texts-split :
    (part path : List ℕ)
    → IsText part
    → IsText path
    → map text_of (map buffer_of (split part path)) ≡ split part path
unfolding split
texts-split part [] a b = ap (λ p. p ∷ []) (text_of-buffer part _ a)
texts-split part (c ∷ path) a b = elim (Bool-cases (c == b'/')) [
  | inl e ↦ rw e (ap₂ ◌∷◌ (text_of-buffer part _ a) (texts-split [] path tt b.1))
  | inr e ↦ rw e (texts-split (part ++ (c ∷ [])) path (IsText-append part (c ∷ []) a (b.0, tt)) b.1)
]
