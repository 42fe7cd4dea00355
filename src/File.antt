-- ===== src/File.antt =====
-- The open files, src/kernel/fs/file.c. The tables are functions from indices to what stands there,
-- and `none` is a null pointer in them. A driver is a record of its operations, over the state `W` of
-- all that lies behind the drivers, their private data `P` and their descriptors `D`. A result that
-- is missing is a kernel panic or a read through a null pointer. Allocations are taken to succeed.
pub mod Table
mod Errors
pub mod Calls
pub mod Mount
mod Tests
use git_os.Base.{
  ℕ, zero, suc, ◌+◌, ◌-◌, ◌^◌, ◌<◌, Bool, true, false, ◌&&◌, ◌||◌, not, Option, none, some, List,
  [], ◌∷◌, ◌++◌, ltb, leb, ◌==◌, if◌then◌else◌, Result, ok, err, eio, einvarg, enomem, take, drop,
  length, update,
}
use mathlib.Core.Option
use git_os.Base.Int.{ℤ, pos, negsuc}
use git_os.Str.{strlen, strcmp, strncmp}
use git_os.Fat.{SeekMode, FileStat}

-- `MAX_FILEDESCRIPTORS`, `MAX_FILESYSTEMS`, `MAX_MOUNTED` and `MAX_PATH`.
abbrev pub max_filedescriptors : ℕ
max_filedescriptors = 1024

abbrev pub max_filesystems : ℕ
max_filesystems = 12

abbrev pub max_mounted : ℕ
max_mounted = 16384

abbrev pub max_path : ℕ
max_path = 1024

-- `FILE_MODE`
pub data FileMode : Type 0 where
  mode_read mode_write mode_append mode_invalid : FileMode

-- `struct filesystem`, without its name: `open` gets the parts of the path from the mount on.
pub record Filesystem (W P D : Type 0) : Type 0 where
  pub fs_open : W → P → List (List ℕ) → FileMode → Option D × W
  pub fs_read : W → P → D → ℕ → ℕ → Result ℕ × List ℕ × W
  pub fs_write : W → P → D → ℕ → ℕ → List ℕ → Result ℕ × W
  pub fs_seek : W → D → ℕ → SeekMode → Result (Unit {0}) × W
  pub fs_stat : W → D → Result FileStat × W
  pub fs_close : W → D → Result (Unit {0}) × W

-- `struct file_descriptor`
pub record OpenFile (W P D : Type 0) : Type 0 where
  pub index : ℕ
  pub filesystem : Filesystem W P D
  pub private_fs_descriptor : D
  pub private_fs : P

-- `struct mounted_file`
pub record MountedFile (W P D : Type 0) : Type 0 where
  pub filename : List ℕ
  pub fs : Filesystem W P D
  pub fs_data : P

pub record Files (W P D : Type 0) : Type 0 where
  pub filesystems : ℕ → Option (Filesystem W P D)
  pub file_descriptors : ℕ → Option (OpenFile W P D)
  pub mounted : ℕ → Option (MountedFile W P D)
  pub world : W

-- The first free place of a table, as `fs_get_free_filesystem_slot`, `file_new_descriptor` and
-- `mount` look for it, with `left` places to go from `i` on.
unfoldable pub free_slot {ℓ} : {A : Type ℓ} → (ℕ → Option A) → ℕ → ℕ → Option ℕ
free_slot slots zero i = none
free_slot slots (suc left) i =
    let rest = free_slot slots left (i + 1) in elim (slots i) [ none ↦ some i | some _ ↦ rest ]

-- The text of a path as C keeps it.
abbrev pub terminated : List ℕ → List ℕ
terminated s = s ++ (0 ∷ [])

-- `strncmp(str, "…", 1) == 0`
abbrev pub begins : List ℕ → ℕ → Bool
begins str c = elim (strncmp str (c ∷ 0 ∷ []) 1) [ some (pos zero) ↦ true | _ ↦ false ]

unfoldable pub file_get_mode_by_string : List ℕ → FileMode
file_get_mode_by_string str =
    if begins str b'r'
    then mode_read
    else if begins str b'w'
    then mode_write
    else if begins str b'a'
    then mode_append
    else mode_invalid

-- The path that `fopen` puts together from the first parts.
unfoldable pub reconstruct : List (List ℕ) → List ℕ
reconstruct [] = []
reconstruct (part ∷ []) = part
reconstruct (part ∷ next ∷ parts) = part ++ (b'/' ∷ reconstruct (next ∷ parts))

abbrev pub is_equal : Option ℕ → Option ℕ → Option ℤ → Option Bool
is_equal (some n) (some m) (some (pos zero)) = some (n == m)
is_equal (some n) (some m) (some _) = some false
is_equal _ _ _ = none

-- The test for a mount: equal lengths, and equal by `strcmp`.
unfoldable pub same_path : List ℕ → List ℕ → Option Bool
same_path a b =
    is_equal (strlen (terminated a)) (strlen (terminated b)) (strcmp (terminated a) (terminated b))

abbrev pub is_invalid : FileMode → Bool
is_invalid mode_invalid = true
is_invalid _ = false

-- `fd < 1` on an `int`.
abbrev pub is_below_one : ℕ → Bool
is_below_one fd = fd == 0 || leb (2 ^ 31) fd

module _ {W P D : Type 0} where
  unfoldable pub file_new_descriptor :
      Files W P D → Filesystem W P D → D → P → Result ℕ × Files W P D
  file_new_descriptor st fs d p = elim (free_slot st.file_descriptors max_filedescriptors 0) [
    | none ↦ (err enomem, st)
    | some i ↦
        let desc : OpenFile W P D = record {
          index = i + 1;
          filesystem = fs;
          private_fs_descriptor = d;
          private_fs = p;
        } in
        (ok (i + 1), record st { file_descriptors = update st.file_descriptors i (some desc) })
  ]

  -- A descriptor is an `int`; a negative one is a word of 2^31 or more.
  unfoldable pub file_get_descriptor : Files W P D → ℕ → Option (OpenFile W P D)
  file_get_descriptor st fd =
      if fd == 0 || leb max_filedescriptors fd then none else st.file_descriptors (fd - 1)

  unfoldable pub file_free_descriptor : Files W P D → OpenFile W P D → Files W P D
  file_free_descriptor st desc = record st {
    file_descriptors = update st.file_descriptors (desc.index - 1) none;
  }

  pub fs_insert_filesystem : Files W P D → Filesystem W P D → Option (Files W P D)
  fs_insert_filesystem st fs =
      Option.map (λ i. record st { filesystems = update st.filesystems i (some fs) })
        (free_slot st.filesystems max_filesystems 0)

  unfoldable pub mount : Files W P D → List ℕ → Filesystem W P D → P → Option (Files W P D)
  mount st filename fs data_of =
      Option.map
        (λ i. record st {
          mounted =
              update st.mounted i
                (some (record { filename = filename; fs = fs; fs_data = data_of }));
        })
        (free_slot st.mounted max_mounted 0)

  -- The inner loop of `fopen`: the first mount of a path, with `left` places to go.
  unfoldable pub find_mount :
      (ℕ → Option (MountedFile W P D)) → List ℕ → ℕ → ℕ → Option (Option (MountedFile W P D))
  find_mount mounted path zero idx = some none
  find_mount mounted path (suc left) idx =
      let rest = find_mount mounted path left (idx + 1) in
      elim (mounted idx) [
        | none ↦ rest
        | some m ↦ elim (same_path path m.filename) [
          | none ↦ none
          | some equal ↦ if equal then some (some m) else rest
        ]
      ]

  -- A round of the outer loop, for the first `count` parts: the mount, and the parts from there on.
  -- Behind the last part the array of the parts is taken to hold a null pointer.
  unfoldable pub prefix_at :
      Files W P D → List (List ℕ) → ℕ → Option (Option (MountedFile W P D × List (List ℕ)))
  prefix_at st parts count =
      let path = reconstruct (take count parts) in
      if leb max_path (length path)
      then none
      else Option.map (Option.map (λ m. (m, drop count parts)))
          (find_mount st.mounted path max_mounted 0)

  -- The outer loop, from `count` parts down.
  unfoldable pub find_prefix :
      Files W P D → List (List ℕ) → ℕ → Option (Option (MountedFile W P D × List (List ℕ)))
  find_prefix st parts zero = prefix_at st parts zero
  find_prefix st parts (suc count) =
      let shorter = find_prefix st parts count in
      elim (prefix_at st parts (suc count)) [
        | none ↦ none
        | some (some r) ↦ some (some r)
        | some none ↦ shorter
      ]

  -- `fopen` behind the search: the driver opens, and the descriptor is made. Both are asserted.
  unfoldable pub open_mounted :
      Files W P D → MountedFile W P D → List (List ℕ) → FileMode → Option (Result ℕ × Files W P D)
  open_mounted st m parts mode =
      let (opened, world') = m.fs.fs_open st.world m.fs_data parts mode in
      elim opened [
        | none ↦ none
        | some d ↦
            let (res, st') = file_new_descriptor (record st { world = world' }) m.fs d m.fs_data in
            elim res [ err e ↦ none | ok fd ↦ some (ok fd, st') ]
      ]

  -- `fopen`, of a path as `pathparser_parse` leaves it.
  unfoldable pub fopen :
      Files W P D → Result (List (List ℕ)) → List ℕ → Option (Result ℕ × Files W P D)
  fopen st (err e) str_mode = some (err e, st)
  fopen st (ok parts) str_mode =
      let mode = file_get_mode_by_string str_mode in
      if leb (length parts) 1
      then some (err einvarg, st)
      else if is_invalid mode
      then some (err einvarg, st)
      else elim (find_prefix st parts (length parts)) [
        | none ↦ none
        | some none ↦ some (err einvarg, st)
        | some (some (m, rest)) ↦ open_mounted st m rest mode
      ]

  unfoldable pub fread : Files W P D → ℕ → ℕ → ℕ → Option (Result ℕ × List ℕ × Files W P D)
  fread st size nmemb fd =
      if size == 0 || nmemb == 0 || is_below_one fd
      then some (err einvarg, [], st)
      else elim (file_get_descriptor st fd) [
        | none ↦ none
        | some desc ↦
            let (res, out, world') =
              desc.filesystem.fs_read st.world desc.private_fs desc.private_fs_descriptor size
                nmemb in
            some (res, out, record st { world = world' })
      ]

  pub fwrite : Files W P D → List ℕ → ℕ → ℕ → ℕ → Option (Result ℕ × Files W P D)
  fwrite st input size nmemb fd =
      if size == 0 || nmemb == 0 || is_below_one fd
      then some (err einvarg, st)
      else elim (file_get_descriptor st fd) [
        | none ↦ none
        | some desc ↦
            let (res, world') =
              desc.filesystem.fs_write st.world desc.private_fs desc.private_fs_descriptor size
                nmemb input in
            some (res, record st { world = world' })
      ]

  pub fseek : Files W P D → ℕ → ℕ → SeekMode → Result (Unit {0}) × Files W P D
  fseek st fd offset whence = elim (file_get_descriptor st fd) [
    | none ↦ (err eio, st)
    | some desc ↦
        let (res, world') =
          desc.filesystem.fs_seek st.world desc.private_fs_descriptor offset whence in
        (res, record st { world = world' })
  ]

  unfoldable pub fstat : Files W P D → ℕ → Result FileStat × Files W P D
  fstat st fd = elim (file_get_descriptor st fd) [
    | none ↦ (err eio, st)
    | some desc ↦
        let (res, world') = desc.filesystem.fs_stat st.world desc.private_fs_descriptor in
        (res, record st { world = world' })
  ]

  unfoldable pub fclose : Files W P D → ℕ → Result (Unit {0}) × Files W P D
  fclose st fd = elim (file_get_descriptor st fd) [
    | none ↦ (err eio, st)
    | some desc ↦
        let (res, world') = desc.filesystem.fs_close st.world desc.private_fs_descriptor in
        (res, file_free_descriptor (record st { world = world' }) desc)
  ]
