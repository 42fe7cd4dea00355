-- ===== src/Syscall/Ipc.antt =====
-- A pipe that `sys$open_ipc` of src/kernel/syscall/syscall.cpp makes, and the file that stands for it.
use git_os.Base.{
  ◌>>=◌, ℕ, ◌+◌, ◌*◌, ◌<◌, ◌≡◌, ◌≢◌, refl, sym, ap, ◌∙◌, arith, false, Option, none, some, List, [],
  ◌∷◌, ◌++◌, length, Result, ok, err, u32, update, update_self, eq_of_some,
}
use mathlib.Core.Option
use git_os.Str.Copy.{IsText}
use git_os.File.{
  Files, OpenFile, mount, fopen, open_mounted, file_new_descriptor, file_get_descriptor, free_slot,
  file_get_mode_by_string, is_invalid, max_path, max_filedescriptors, reconstruct,
}
use git_os.File.Mount.{NotMounted, mounted_file, fopen-mount, mount_keeps}
use git_os.File.Calls.{file_get_descriptor-open}
use git_os.Pipe.{Pipe, new_pipe, pipe_fs}
use git_os.Pipe.Driver.{pipe_file}
use git_os.Process.Machine.{Machine}
use git_os.Process.Segments.{kzalloc}
use git_os.Process.Load.{Kernel}
use git_os.Syscall.{peek_stack, copy_string_from}
use git_os.Syscall.Handlers.{open_ipc}

abbrev PipeFiles : Type 0
PipeFiles = Files (Option (ℕ → Pipe)) ℕ ℕ

-- The path of a name, and its parts.
abbrev pub ipc_path : List ℕ → List ℕ
ipc_path name = b'0' ∷ b':' ∷ b'/' ∷ b'i' ∷ b'p' ∷ b'c' ∷ b'/' ∷ name

abbrev pub ipc_parts : List ℕ → List (List ℕ)
ipc_parts name = (b'0' ∷ b':' ∷ []) ∷ (b'i' ∷ b'p' ∷ b'c' ∷ []) ∷ name ∷ []

IsText-append : (start name : List ℕ) → IsText start → IsText name → IsText (start ++ name)
IsText-append [] name s t = t
IsText-append (c ∷ start) name s t = (s.0, IsText-append start name s.1 t)

ipc-IsText : (name : List ℕ) → IsText name → IsText (ipc_path name)
ipc-IsText name t = IsText-append (ipc_path []) name (omega arith) t

whole_path : (name : List ℕ) → reconstruct (ipc_parts name) ≡ ipc_path name
unfolding reconstruct
whole_path name = refl

-- The files with a new pipe behind the driver.
abbrev with_pipe : PipeFiles → (ℕ → Pipe) → ℕ → ℕ → PipeFiles
with_pipe files pipes pipe size = record files { world = some (update pipes pipe (new_pipe size)) }

-- What a file of the pipe gets where a number is free.
abbrev opened_pipe : PipeFiles → ℕ → ℕ → PipeFiles
opened_pipe files pipe i = record files {
  file_descriptors = update files.file_descriptors i (some (pipe_file (i + 1) pipe));
}

open_mounted-pipe :
    (files : PipeFiles) (path : List ℕ) (pipe i : ℕ) (str_mode : List ℕ)
    → free_slot files.file_descriptors max_filedescriptors 0 ≡ some i
    → open_mounted files (mounted_file path pipe_fs pipe) [] (file_get_mode_by_string str_mode)
      ≡ some (ok (i + 1), opened_pipe files pipe i)
unfolding open_mounted file_new_descriptor
open_mounted-pipe files path pipe i str_mode e =
    let made : file_new_descriptor files pipe_fs pipe pipe
        ≡ (ok (i + 1), opened_pipe files pipe i) =
      rw (file_new_descriptor, e) refl in
    ap numbered made
  where
    numbered : Result ℕ × PipeFiles → Option (Result ℕ × PipeFiles)
    numbered q = elim q.0 [ err e ↦ none | ok fd ↦ some (ok fd, q.1) ]

abbrev answer : Machine → PipeFiles → ℕ × Kernel (Option (ℕ → Pipe)) ℕ ℕ
answer st files' = (0, record { machine = st; files = files' })

mounted_file_of :
    (st : Machine) (k' : Kernel (Option (ℕ → Pipe)) ℕ ℕ) (r : Option PipeFiles)
    → Option.map (answer st) r ≡ some (0, k')
    → r ≡ some k'.files
mounted_file_of st k' none e = absurd (none_ne e)
  where
    none_ne : {x : ℕ × Kernel (Option (ℕ → Pipe)) ℕ ℕ} → none ≢ some x
    none_ne q = cc
mounted_file_of st k' (some files') e =
    ap (λ (x : ℕ × Kernel (Option (ℕ → Pipe)) ℕ ℕ). some x.1.files) (eq_of_some e)

as_map :
    (st : Machine) (r : Option PipeFiles)
    → (do files' ← r; some (answer st files')) ≡ Option.map (answer st) r
as_map st none = refl
as_map st (some files') = refl

-- The call, where the name could be copied and there is room for the mount.
open_ipc_lem :
    (k k' : Kernel (Option (ℕ → Pipe)) ℕ ℕ) (pipes : ℕ → Pipe) (name : List ℕ) (st1 : Machine)
    (name_at packet_size packet_count : ℕ)
    → peek_stack k.machine 0 ≡ some name_at
    → peek_stack st1 1 ≡ some packet_size
    → peek_stack st1 2 ≡ some packet_count
    → copy_string_from k.machine name_at 1024 ≡ some (name, st1)
    → k.files.world ≡ some pipes
    → open_ipc k ≡ some (0, k')
    → mount
        (with_pipe k.files pipes (kzalloc st1 20).0 (u32 (packet_size * packet_count)))
        (ipc_path name)
        pipe_fs
        (kzalloc st1 20).0
      ≡ some k'.files
unfolding open_ipc
open_ipc_lem k k' pipes name st1 name_at packet_size packet_count p q r copied behind h =
    let pipe = (kzalloc st1 20).0 in
    let size = u32 (packet_size * packet_count) in
    let (_, st3) = kzalloc (kzalloc st1 20).1 size in
    let (_, st4) = kzalloc st3 1024 in
    let made : open_ipc k
        ≡ Option.map (answer st4)
            (mount (with_pipe k.files pipes pipe size) (ipc_path name) pipe_fs pipe) =
      rw (open_ipc, p, copied, q, r, behind)
        (as_map st4 (mount (with_pipe k.files pipes pipe size) (ipc_path name) pipe_fs pipe)) in
    mounted_file_of st4 k' (mount (with_pipe k.files pipes pipe size) (ipc_path name) pipe_fs pipe)
      (sym made ∙ h)

-- What `sys$open_ipc` makes can be opened: where its three arguments could be read from the stack, the
-- name of the task could be copied and is a text, the
-- path "0:/ipc/" with the name has fewer than `MAX_PATH` bytes and is not mounted yet, the call does not
-- panic, and a number is free, `fopen` of the path then gives this number, and it stands for an empty
-- pipe that holds as many bytes as the two sizes make, in 32 bits.
pub fopen-open_ipc :
    (k k' : Kernel (Option (ℕ → Pipe)) ℕ ℕ) (pipes : ℕ → Pipe) (name str_mode : List ℕ)
    (st1 : Machine) (name_at packet_size packet_count i : ℕ)
    → peek_stack k.machine 0 ≡ some name_at
    → peek_stack st1 1 ≡ some packet_size
    → peek_stack st1 2 ≡ some packet_count
    → copy_string_from k.machine name_at 1024 ≡ some (name, st1)
    → k.files.world ≡ some pipes
    → open_ipc k ≡ some (0, k')
    → IsText name
    → length (ipc_path name) < max_path
    → NotMounted k.files (ipc_path name)
    → free_slot k.files.file_descriptors max_filedescriptors 0 ≡ some i
    → i + 1 < max_filedescriptors
    → is_invalid (file_get_mode_by_string str_mode) ≡ false
    → let pipe = (kzalloc st1 20).0 in
      (files' : PipeFiles) × (fopen k'.files (ok (ipc_parts name)) str_mode
        ≡ some (ok (i + 1), files'))
      × (file_get_descriptor files' (i + 1) ≡ some (pipe_file (i + 1) pipe))
      × (files'.world ≡ some (update pipes pipe (new_pipe (u32 (packet_size * packet_count)))))
fopen-open_ipc k k' pipes name str_mode st1 name_at packet_size packet_count i a b c copied behind h
      text short free place inside mode =
    let pipe = (kzalloc st1 20).0 in
    let size = u32 (packet_size * packet_count) in
    let mounts =
      open_ipc_lem k k' pipes name st1 name_at packet_size packet_count a b c copied behind h in
    let (same, world) =
      mount_keeps (with_pipe k.files pipes pipe size) k'.files (ipc_path name) pipe_fs pipe
        mounts in
    let file = opened_pipe k'.files pipe i in
    (
      file,
      fopen-mount (with_pipe k.files pipes pipe size) k'.files (ipc_path name) (ipc_parts name)
            str_mode pipe_fs pipe mounts free (ipc-IsText name text) short (whole_path name)
            (omega arith) mode
          ∙ open_mounted-pipe k'.files (ipc_path name) pipe i str_mode (
              ap
                (λ (f : ℕ → Option (OpenFile (Option (ℕ → Pipe)) ℕ ℕ)).
                  free_slot f max_filedescriptors 0)
                same
              ∙ place),
      file_get_descriptor-open file i inside
          ∙ update_self k'.files.file_descriptors i (some (pipe_file (i + 1) pipe)),
      world,
    )
