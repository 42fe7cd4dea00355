-- ===== src/Syscall/Handlers.antt =====
-- What the system calls of src/kernel/syscall/syscall.cpp do, and how they are reached.
use git_os.Base.{
  ◌>>=◌, ℕ, ◌+◌, ◌*◌, ◌/◌, ◌%◌, Option, none, some, List, [], ◌∷◌, ◌==◌, if◌then◌else◌, ok, err, u8,
  u32, update, write_at, read_at,
}
use mathlib.Core.Option
use git_os.Tasks.{Registers, current_save_state, task_switch}
use git_os.Fat.{SeekMode, seek_set, seek_cur, seek_end, seek_other, FileStat}
use git_os.File.{mount, fread, fwrite, fseek, fstat, fclose, fopen, terminated}
use git_os.FilePath.{pathparser_parse}
use git_os.Pipe.{Pipe, new_pipe, pipe_fs}
use git_os.Process.{popkey}
use git_os.Process.Machine.{
  Process, Machine, process_malloc, process_free, process_terminate, with_process,
}
use git_os.Process.Segments.{kzalloc}
use git_os.Process.Keys.{new_keyboard_buffer}
use git_os.Heap.{free}
use git_os.Process.Load.{Kernel, word_of, process_load_switch}
use git_os.Syscall.{
  Call, out_of_bounds, peek_stack, copy_string_from, task_directory, current, code_of, status_of,
  char_word, parts_of,
}
use git_os.Paging.Translate.{translate}

-- A word in memory, least byte first.
abbrev word_bytes : ℕ → List ℕ
word_bytes n = n % 256 ∷ n / 256 % 256 ∷ n / 65536 % 256 ∷ n / 16777216 % 256 ∷ []

-- A store of the current task to its own memory, of which each byte goes through the page tables.
pub store : Machine → ℕ → List ℕ → Option Machine
store st a [] = some st
store st a (b ∷ bytes) = elim (translate st.words (task_directory st st.tasks.current_task) a) [
  | none ↦ none
  | some at ↦ store (record st { bytes = update st.bytes at b }) (a + 1) bytes
]

-- `sys$getchar`
pub getchar : Machine → ℕ × Machine
getchar st =
    let a = current st in
    let (c, keyboard') = popkey (st.processes a).keyboard in
    (char_word c, with_process st a (record (st.processes a) { keyboard = keyboard' }))

-- `sys$malloc`
pub malloc_call : Machine → Option (ℕ × Machine)
malloc_call st = do size ← peek_stack st 0; some (process_malloc st (current st) size)

-- `sys$free`
pub free_call : Machine → Option (ℕ × Machine)
free_call st = do ptr ← peek_stack st 0; some (0, process_free st (current st) ptr)

-- `sys$exit`: the current process ends, and the task of the next one goes on. The code that is returned
-- is only printed.
unfoldable pub exit : Machine → Option (ℕ × Machine)
exit st = do
  return_code ← peek_stack st 0
  st' ← process_terminate st st.current_process
  tasks' ← task_switch st'.tasks (st'.processes st'.current_process).task
  some (0, record st' { tasks = tasks' })

-- `sys$getpid`
pub getpid : Machine → ℕ
getpid st = u8 (st.processes (current st)).id

-- `FILE_SEEK_MODE` of an `int`, which is passed on whatever it is.
abbrev pub seek_mode : ℕ → SeekMode
seek_mode n =
    if n == 0
    then seek_set
    else if n == 1
    then seek_cur
    else if n == 2
    then seek_end
    else seek_other

-- What `new process` gives.
abbrev pub zero_process : Process
zero_process = record {
  id = 0;
  filename = [];
  task = 0;
  allocations = λ i. 0;
  elf = 0;
  stack = 0;
  bss = 0;
  framebuffer = 0;
  keyboard = new_keyboard_buffer;
  elf_entry = 0;
}

module _ {W P D : Type 0} where
  -- `sys$fopen`
  pub fopen_call : Kernel W P D → Option (ℕ × Kernel W P D)
  fopen_call k = do
    path_ptr ← peek_stack k.machine 0
    mode_ptr ← peek_stack k.machine 1
    (path, st1) ← copy_string_from k.machine path_ptr 1024
    (mode, st2) ← copy_string_from st1 mode_ptr 1024
    parsed ← pathparser_parse path
    (res, files') ← fopen k.files (parts_of parsed) (terminated mode)
    some (code_of res, record { machine = st2; files = files' })

  -- `sys$fclose`
  pub fclose_call : Kernel W P D → Option (ℕ × Kernel W P D)
  fclose_call k = do
    fd ← peek_stack k.machine 0
    let (res, files') = fclose k.files fd
    some (status_of res, record k { files = files' })

  -- `sys$fread`: what is read is written while the page directory of the kernel is in use, in which an
  -- address is that of the memory itself.
  pub fread_call : Kernel W P D → Option (ℕ × Kernel W P D)
  fread_call k = do
    buf ← peek_stack k.machine 0
    size ← peek_stack k.machine 1
    nmemb ← peek_stack k.machine 2
    fd ← peek_stack k.machine 3
    (res, out, files') ← fread k.files size nmemb fd
    some (
      code_of res,
      record {
        machine = record (k.machine) { bytes = write_at k.machine.bytes buf out };
        files = files';
      },
    )

  -- `sys$fwrite`, in the same page directory.
  pub fwrite_call : Kernel W P D → Option (ℕ × Kernel W P D)
  fwrite_call k = do
    buf ← peek_stack k.machine 0
    size ← peek_stack k.machine 1
    nmemb ← peek_stack k.machine 2
    fd ← peek_stack k.machine 3
    (res, files') ← fwrite k.files (read_at k.machine.bytes buf (size * nmemb)) size nmemb fd
    some (code_of res, record k { files = files' })

  -- `sys$fstat`. Where there is no status, the words of a stack that was used before are stored;
  -- they are the argument.
  pub fstat_call : FileStat → Kernel W P D → Option (ℕ × Kernel W P D)
  fstat_call unset k = do
    fd ← peek_stack k.machine 0
    task_stat ← peek_stack k.machine 1
    let (res, files') = fstat k.files fd
    let stat : FileStat = elim res [ ok stat ↦ stat | err e ↦ unset ]
    let code : ℕ = elim res [ ok _ ↦ 0 | err e ↦ word_of e ]
    st1 ← store k.machine (task_stat + 4) (word_bytes stat.filesize)
    st2 ← store st1 task_stat (word_bytes stat.flags)
    some (code, record { machine = st2; files = files' })

  -- `sys$fseek`
  pub fseek_call : Kernel W P D → Option (ℕ × Kernel W P D)
  fseek_call k = do
    fd ← peek_stack k.machine 0
    offset ← peek_stack k.machine 1
    whence ← peek_stack k.machine 2
    let (res, files') = fseek k.files fd offset (seek_mode whence)
    some (status_of res, record k { files = files' })

  -- `sys$execprocess`, where `framebuffer_size` is that of the screen: the new process becomes the current
  -- one and its task goes on. `sizeof(struct process)` is 6188.
  pub execprocess : ℕ → Kernel W P D → Option (ℕ × Kernel W P D)
  execprocess framebuffer_size k = do
    path_ptr ← peek_stack k.machine 0
    (path, st1) ← copy_string_from k.machine path_ptr 1024
    parsed ← pathparser_parse path
    let (a, st2) = kzalloc st1 6188
    let loading : Kernel W P D = record k { machine = with_process st2 a zero_process }
    (res, k') ← process_load_switch framebuffer_size loading (parts_of parsed) path a
    let st' = k'.machine
    elim res [
      | err e ↦ some (word_of e, record k' { machine = record st' { heap = free st'.heap a } })
      | ok _ ↦ do
        tasks' ← task_switch st'.tasks (st'.processes a).task
        some (0, record k' { machine = record st' { tasks = tasks' } })
    ]

-- `sys$open_ipc`: the path "0:/ipc/" with the name behind it; the buffer of 1024 bytes for it is taken
-- to be long enough.
unfoldable pub open_ipc :
    Kernel (Option (ℕ → Pipe)) ℕ ℕ → Option (ℕ × Kernel (Option (ℕ → Pipe)) ℕ ℕ)
open_ipc k = do
  filename_ptr ← peek_stack k.machine 0
  (filename, st1) ← copy_string_from k.machine filename_ptr 1024
  packet_size ← peek_stack st1 1
  packet_count ← peek_stack st1 2
  let buffer_size = u32 (packet_size * packet_count)
  let (pipe, st2) = kzalloc st1 20
  let (_, st3) = kzalloc st2 buffer_size
  let (_, st4) = kzalloc st3 1024
  let world' : Option (ℕ → Pipe) =
      Option.map (λ (pipes : ℕ → Pipe). update pipes pipe (new_pipe buffer_size)) k.files.world
  let path = b'0' ∷ b':' ∷ b'/' ∷ b'i' ∷ b'p' ∷ b'c' ∷ b'/' ∷ filename
  files' ← mount (record (k.files) { world = world' }) path pipe_fs pipe
  some (0, record { machine = st4; files = files' })

-- `syscall_handle_command`, where `call` runs the function that is found. A number that has none
-- returns 0.
unfoldable pub handle_command {ℓ} :
    {S : Type ℓ} → (Call → S → Option (ℕ × S)) → (ℕ → Option Call) → ℕ → S → Option (ℕ × S)
handle_command call syscalls syscall_id st =
    if out_of_bounds syscall_id
    then some (0, st)
    else elim (syscalls syscall_id) [ none ↦ some (0, st) | some func ↦ call func st ]

-- `syscall_handler`, without the changes of the page directory around it.
pub syscall_handler :
    (Call → Machine → Option (ℕ × Machine))
    → (ℕ → Option Call)
    → ℕ
    → Registers
    → Machine
    → Option (ℕ × Machine)
syscall_handler call syscalls syscall_id frame st = elim (current_save_state st.tasks frame) [
  | none ↦ none
  | some tasks' ↦ handle_command call syscalls syscall_id (record st { tasks = tasks' })
]
