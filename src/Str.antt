-- ===== src/Str.antt =====
-- The string functions of src/kernel/common/string.c, but for the formatting. A string is its
-- buffer of bytes from the first one on; `none` is a read or a write past the end of a buffer.
pub mod Copy
pub mod Compare
pub mod Begins
pub mod Reverse
mod Tests
use git_os.Base.{
  ℕ, zero, suc, ◌+◌, ◌-◌, Bool, ◌&&◌, ◌||◌, not, Option, none, some, List, [], ◌∷◌, ltb, leb, ◌==◌,
  if◌then◌else◌, get_or, set,
}
use git_os.Base.Int.{ℤ, pos, sub_ℕ}
use mathlib.Core.Option

-- The loop of `strlen` with `len` bytes behind it.
unfoldable pub strlen_from : ℕ → List ℕ → Option ℕ
strlen_from len [] = none
strlen_from len (c ∷ str) =
    let rest = strlen_from (len + 1) str in if c == 0 then some len else rest

unfoldable pub strlen : List ℕ → Option ℕ
strlen str = strlen_from 0 str

-- `strnlen_terminator`; `strnlen` is the same with the terminator 0.
pub strnlen_from : ℕ → List ℕ → ℕ → ℕ → Option ℕ
strnlen_from len str zero terminator = some len
strnlen_from len [] (suc left) terminator = none
strnlen_from len (c ∷ str) (suc left) terminator =
    let rest = strnlen_from (len + 1) str left terminator in
    if c == 0 || c == terminator then some len else rest

pub strnlen_terminator : List ℕ → ℕ → ℕ → Option ℕ
strnlen_terminator str max terminator = strnlen_from 0 str max terminator

pub strnlen : List ℕ → ℕ → Option ℕ
strnlen str max_len = strnlen_from 0 str max_len 0

-- `str[i]` and `str[j]` change places.
abbrev pub swap_bytes : List ℕ → ℕ → ℕ → List ℕ
swap_bytes str i j = set (set str i (get_or str j 0)) j (get_or str i 0)

-- The loop of `strrev`: `i` goes down by one each round, `j` up.
pub reverse_loop : ℕ → ℕ → List ℕ → List ℕ
reverse_loop zero j str = str
reverse_loop (suc i) j str =
    let rest = reverse_loop i (j + 1) (swap_bytes str (suc i) j) in
    if ltb j (suc i) then rest else str

pub strrev : List ℕ → Option (List ℕ)
strrev str =
    if get_or str 0 0 == 0
    then some str
    else Option.map (λ len. reverse_loop (len - 1) 0 str) (strlen str)

-- `strcpy`: the destination buffer with the string and its terminator written over it.
pub strcpy : List ℕ → List ℕ → Option (List ℕ)
strcpy dest [] = none
strcpy [] (c ∷ src) = none
strcpy (d ∷ dest) (c ∷ src) =
    let rest = Option.map (◌∷◌ c) (strcpy dest src) in if c == 0 then some (0 ∷ dest) else rest

-- `strncpy` with at most `left` bytes before the terminator.
pub strncpy_from : ℕ → List ℕ → List ℕ → Option (List ℕ)
strncpy_from left [] src = none
strncpy_from zero (d ∷ dest) src = some (0 ∷ dest)
strncpy_from (suc left) (d ∷ dest) [] = none
strncpy_from (suc left) (d ∷ dest) (c ∷ src) =
    let rest = Option.map (◌∷◌ c) (strncpy_from left dest src) in
    if c == 0 then some (0 ∷ dest) else rest

-- `n - 1` is negative at 0, and no round is made then.
pub strncpy : List ℕ → List ℕ → ℕ → Option (List ℕ)
strncpy dest src n = strncpy_from (n - 1) dest src

unfoldable pub strncmp : List ℕ → List ℕ → ℕ → Option ℤ
strncmp str1 str2 zero = some (pos 0)
strncmp [] str2 (suc n) = none
strncmp (u1 ∷ str1) [] (suc n) = none
strncmp (u1 ∷ str1) (u2 ∷ str2) (suc n) =
    let rest = strncmp str1 str2 n in
    if not (u1 == u2) then some (sub_ℕ u1 u2) else if u1 == 0 then some (pos 0) else rest

unfoldable pub strcmp : List ℕ → List ℕ → Option ℤ
strcmp str1 str2 = elim (strlen str1) [ none ↦ none | some n ↦ strncmp str1 str2 n ]

-- On the letters of `char`, which is signed: bytes from 128 on are negative, and no letters.
unfoldable pub to_lower : ℕ → ℕ
to_lower c = if leb 65 c && leb c 90 then c + 32 else c

unfoldable pub istrncmp : List ℕ → List ℕ → ℕ → Option ℤ
istrncmp str1 str2 zero = some (pos 0)
istrncmp [] str2 (suc n) = none
istrncmp (u1 ∷ str1) [] (suc n) = none
istrncmp (u1 ∷ str1) (u2 ∷ str2) (suc n) =
    let rest = istrncmp str1 str2 n in
    if not (u1 == u2) && not (to_lower u1 == to_lower u2)
    then some (sub_ℕ u1 u2)
    else if u1 == 0
    then some (pos 0)
    else rest

pub is_digit : ℕ → Bool
is_digit c = leb 48 c && leb c 57

-- The `char` is signed.
pub to_numeric_digit : ℕ → ℤ
to_numeric_digit c = if ltb c 128 then sub_ℕ c 48 else sub_ℕ c (256 + 48)
