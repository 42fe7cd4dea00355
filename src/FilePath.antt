-- ===== src/FilePath.antt =====
-- Paths, src/kernel/fs/Path.cpp. A path is the list of its bytes before the terminator, and a parsed
-- path the buffers of its parts, in order. The memory for them is taken to be given.
pub mod Split
mod Parse
mod Free
mod Tests
use git_os.Base.{
  ℕ, zero, suc, ◌+◌, ◌-◌, Bool, true, false, ◌&&◌, not, ◌==◌, if◌then◌else◌, Option, none, some,
  List, [], ◌∷◌, ◌++◌, Result, ok, err, einvarg, set, replicate, length, ltb, sub32,
}
use git_os.Base.Int.{ℤ, pos, sub_ℕ}
use git_os.Heap.{Heap, free}
use git_os.File.{terminated, max_path}
use git_os.Str.{strlen, strcmp}

-- "0:/"
abbrev pub root : List ℕ
root = b'0' ∷ b':' ∷ b'/' ∷ []

-- `Path::valid`; `none` is a read past the end of the text.
pub valid : List ℕ → Option Bool
valid path = elim (strlen path) [
  | none ↦ none
  | some len ↦ if len == 0 then some false else elim (strcmp (terminated root) path) [
    | none ↦ none
    | some (pos zero) ↦ some true
    | some _ ↦ some false
  ]
]

-- `new path_part` with a buffer from `kzalloc(MAX_PATH)`.
abbrev pub new_part : List ℕ
new_part = replicate max_path 0

-- The loop of `Path::parse`: the bytes of the path from `path_idx` on, the buffer of the current part
-- and the index in it. A byte behind the buffer of a part has no result.
pub parse_from : List ℕ → List ℕ → ℕ → Option (List (List ℕ))
parse_from [] current relative_path_idx = some (current ∷ [])
parse_from (c ∷ path) current relative_path_idx =
    let next = parse_from path new_part 0 in
    let more = parse_from path (set current relative_path_idx c) (relative_path_idx + 1) in
    if c == b'/'
    then elim next [ none ↦ none | some parts ↦ some (current ∷ parts) ]
    else if ltb relative_path_idx max_path
    then more
    else none

-- `Path::parse` and `pathparser_parse`, with the buffers of the parts.
pub pathparser_parse : List ℕ → Option (Result (List (List ℕ)))
pathparser_parse path = elim (valid (terminated path)) [
  | none ↦ none
  | some false ↦ some (err einvarg)
  | some true ↦ elim (parse_from path new_part 0) [ none ↦ none | some parts ↦ some (ok parts) ]
]

-- The text that a buffer holds.
unfoldable pub text_of : List ℕ → List ℕ
text_of [] = []
text_of (c ∷ buffer) = let rest = text_of buffer in if c == 0 then [] else c ∷ rest

-- `pathparser_get_drive_number`
pub get_drive_number : ℕ → ℤ
get_drive_number c = if ltb c 128 then sub_ℕ c b'0' else sub_ℕ c (256 + b'0')

-- `pathparser_free`, of the addresses of the parts' buffers and of the parts. The first part is freed
-- once more at the end.
pub free_parts : Heap → List (ℕ × ℕ) → Heap
free_parts heap [] = heap
free_parts heap ((part, node) ∷ parts) = free_parts (free (free heap part) node) parts

pub pathparser_free : Heap → ℕ → List (ℕ × ℕ) → Heap
pathparser_free heap path parts = free (free_parts heap parts) path
