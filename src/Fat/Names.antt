-- ===== src/Fat/Names.antt =====
-- The names in directory records, `fat16_to_proper_string` and `fat16_get_full_relative_filename` of
-- src/kernel/fs/fat16/fat16.c. The output pointer is the rest of the buffer that it points into, and
-- a write behind the buffer has no result.
pub mod Buffer
use git_os.Base.{
  ℕ, zero, suc, ◌+◌, Bool, ◌||◌, ◌&&◌, not, Option, none, some, List, [], ◌∷◌, ◌++◌, ◌==◌,
  if◌then◌else◌, get_or, replicate,
}
use mathlib.Core.Option
use git_os.Fat.{FatFile}

-- `**out = 0`
abbrev pub terminate : List ℕ → Option (List ℕ × List ℕ)
terminate [] = none
terminate (_ ∷ out) = some ([], 0 ∷ out)

-- What ends a name.
abbrev pub is_blank : ℕ → Bool
is_blank c = c == 0x00 || c == 0x20

-- The bytes written, and the rest of the buffer from where `out` points on. The input has `max_len`
-- bytes.
unfoldable pub to_proper_string : List ℕ → List ℕ → ℕ → Option (List ℕ × List ℕ)
to_proper_string out input zero = some ([], out)
to_proper_string out [] (suc max_len) = none
to_proper_string [] (c ∷ input) (suc max_len) = none
to_proper_string (o ∷ out) (c ∷ input) (suc max_len) =
    let rest = to_proper_string out input max_len in
    if is_blank c then terminate (o ∷ out) else Option.map (λ r. (c ∷ r.0, r.1)) rest

-- The `.` and the extension.
unfoldable pub with_extension : List ℕ → List ℕ → Option (List ℕ × List ℕ)
with_extension [] ext = none
with_extension (o ∷ out) ext = Option.map (λ r. (b'.' ∷ r.0, r.1)) (to_proper_string out ext 3)

-- The buffer of 11 bytes.
unfoldable pub get_full_relative_filename : FatFile → Option (List ℕ)
get_full_relative_filename file = elim (to_proper_string (replicate 11 0) file.filename 8) [
  | none ↦ none
  | some (name, out) ↦
      if not (get_or file.ext 0 0 == 0x00) && not (get_or file.ext 0 0 == 0x20)
      then Option.map (λ r. name ++ r.0 ++ r.1) (with_extension out file.ext)
      else some (name ++ out)
]
