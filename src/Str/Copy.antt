-- ===== src/Str/Copy.antt =====
-- `strlen`, `strcpy` and `strncpy` on strings that end in the byte 0.
use git_os.Base.{
  ℕ, zero, suc, ◌+◌, ◌-◌, ◌<◌, ◌≡◌, ◌≢◌, refl, ap, ◌∙◌, arith, false, some, List, [], ◌∷◌, ◌++◌,
  ◌==◌, length, take, drop,
}
use git_os.Str.{strlen_from, strlen, strcpy, strncpy_from, strncpy}

-- The bytes of a string, none of them 0.
abbrev pub IsText : List ℕ → Type 0
IsText [] = Unit {0}
IsText (c ∷ s) = (c ≢ 0) × IsText s

-- The buffer that holds a string, its terminator, and what lies behind it.
abbrev pub buffer : List ℕ → List ℕ → List ℕ
buffer s rest = s ++ (0 ∷ rest)

pub ne_zero : (c : ℕ) → c ≢ 0 → (c == 0) ≡ false
ne_zero c h = ground arith

strlen_from-buffer :
    (len : ℕ) (s rest : List ℕ) → IsText s → strlen_from len (buffer s rest) ≡ some (len + length s)
unfolding strlen_from
strlen_from-buffer len [] rest t = ap some (omega arith)
strlen_from-buffer len (c ∷ s) rest t =
    rw (ne_zero c t.0) (strlen_from-buffer (len + 1) s rest t.1 ∙ ap some (omega arith))

-- `strlen` counts the bytes before the terminator.
pub strlen-buffer : (s rest : List ℕ) → IsText s → strlen (buffer s rest) ≡ some (length s)
unfolding strlen
strlen-buffer s rest t = strlen_from-buffer 0 s rest t ∙ ap some (omega arith)

-- `strcpy` of a string into a buffer that has room for it and its terminator writes exactly them,
-- and leaves the bytes behind as they were.
pub strcpy-buffer :
    (dest s rest : List ℕ)
    → IsText s
    → length s < length dest
    → strcpy dest (buffer s rest) ≡ some (buffer s (drop (suc (length s)) dest))
unfolding strcpy
strcpy-buffer [] s rest t room = absurd (omega arith)
strcpy-buffer (d ∷ dest) [] rest t room = refl
strcpy-buffer (d ∷ dest) (c ∷ s) rest t room =
    rw (ne_zero c t.0, strcpy-buffer dest s rest t.1 (omega arith))

strncpy_from-buffer :
    (left : ℕ) (dest s rest : List ℕ)
    → IsText s
    → length (take left s) < length dest
    → strncpy_from left dest (buffer s rest)
      ≡ some (buffer (take left s) (drop (suc (length (take left s))) dest))
unfolding strncpy_from
strncpy_from-buffer left [] s rest t room = absurd (omega arith)
strncpy_from-buffer zero (d ∷ dest) s rest t room = refl
strncpy_from-buffer (suc left) (d ∷ dest) [] rest t room = refl
strncpy_from-buffer (suc left) (d ∷ dest) (c ∷ s) rest t room =
    rw (ne_zero c t.0, strncpy_from-buffer left dest s rest t.1 (omega arith))

-- `strncpy` into a buffer with room copies the first `n - 1` bytes of the string, or the whole
-- string if it is shorter, always with a terminator, and leaves the bytes behind as they were.
pub strncpy-buffer :
    (dest s rest : List ℕ) (n : ℕ)
    → IsText s
    → length (take (n - 1) s) < length dest
    → strncpy dest (buffer s rest) n
      ≡ some (buffer (take (n - 1) s) (drop (suc (length (take (n - 1) s))) dest))
unfolding strncpy
strncpy-buffer dest s rest n t room = strncpy_from-buffer (n - 1) dest s rest t room
