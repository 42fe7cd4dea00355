-- ===== src/Syscall.antt =====
-- The system calls, src/kernel/syscall/syscall.cpp and syscall.hpp, with the access to a task's memory
-- from src/kernel/task/task.c. A result that is missing is a kernel panic, a page fault or an access
-- through a null pointer. What is printed is left out, and so are the calls that only print.
pub mod Handlers
mod Numbers
mod Stack
mod Ipc
mod Exit
mod Tests
use git_os.Base.{
  ◌>>=◌, ℕ, zero, suc, ◌+◌, ◌*◌, ◌-◌, ◌^◌, Bool, true, false, Option, none, some, List, [], ◌∷◌,
  ◌++◌, ltb, leb, ◌==◌, ◌||◌, if◌then◌else◌, Result, ok, err, add32, bit_or, u32, update, write_at,
  read_at,
}
use git_os.Heap.{free}
use git_os.Paging.{page_size, get_page, set_page}
use git_os.Paging.Translate.{translate}
use git_os.Tasks.{Tasks, Registers, current_save_state}
use git_os.Elf.{word_at}
use git_os.Fat.{SeekMode, seek_set, seek_cur, seek_end, FileStat}
use git_os.File.{fread, fwrite, fseek, fstat, fclose, fopen, terminated}
use git_os.FilePath.{pathparser_parse, text_of}
use git_os.Process.{popkey}
use git_os.Process.Machine.{
  Machine, Process, process_malloc, process_free, process_terminate, with_process, directory_of,
}
use git_os.Process.Segments.{kzalloc}
use git_os.Process.Load.{Kernel, word_of}

-- The functions that `syscall_init` registers.
pub data Call : Type 0 where
  sys_getchar sys_putchar sys_putstring sys_execprocess sys_malloc sys_free : Call
  sys_get_process_arguments sys_exit sys_get_framebuffer_info sys_fopen sys_fread : Call
  sys_fstat sys_fseek sys_fclose sys_fwrite sys_open_ipc sys_getpid : Call

-- `enum syscalls`
pub number : Call → ℕ
number sys_getchar = 0
number sys_putchar = 1
number sys_putstring = 2
number sys_execprocess = 3
number sys_malloc = 4
number sys_free = 5
number sys_get_process_arguments = 6
number sys_exit = 7
number sys_get_framebuffer_info = 8
number sys_fopen = 9
number sys_fread = 10
number sys_fstat = 11
number sys_fseek = 12
number sys_fclose = 13
number sys_fwrite = 14
number sys_open_ipc = 15
number sys_getpid = 16

-- `MAX_SYSCALLS`
abbrev pub max_syscalls : ℕ
max_syscalls = 1024

-- `syscall_id < 0 || syscall_id >= MAX_SYSCALLS` on an `int`.
abbrev pub out_of_bounds : ℕ → Bool
out_of_bounds syscall_id = leb (2 ^ 31) syscall_id || leb max_syscalls syscall_id

-- `syscall_register`
pub syscall_register : (ℕ → Option Call) → ℕ → Call → Option (ℕ → Option Call)
syscall_register syscalls syscall_id func =
    if out_of_bounds syscall_id then none else elim (syscalls syscall_id) [
      | some _ ↦ none
      | none ↦ some (update syscalls syscall_id (some func))
    ]

pub register_all : List Call → (ℕ → Option Call) → Option (ℕ → Option Call)
register_all [] syscalls = some syscalls
register_all (func ∷ funcs) syscalls = elim (syscall_register syscalls (number func) func) [
  | none ↦ none
  | some syscalls' ↦ register_all funcs syscalls'
]

-- `syscall_init`
pub syscall_init : (ℕ → Option Call) → Option (ℕ → Option Call)
syscall_init syscalls =
    register_all
      (sys_putstring ∷ sys_getchar ∷ sys_putchar ∷ sys_execprocess ∷ sys_malloc ∷ sys_free
        ∷ sys_get_process_arguments ∷ sys_exit ∷ sys_get_framebuffer_info ∷ sys_fopen ∷ sys_fread
        ∷ sys_fwrite ∷ sys_fstat ∷ sys_fseek ∷ sys_fclose ∷ sys_open_ipc ∷ sys_getpid ∷ [])
      syscalls

-- A byte of the memory as a task sees it; `none` is a page fault.
pub seen_by : Machine → ℕ → ℕ → Option ℕ
seen_by st directory a = do at ← translate st.words directory a; some (st.bytes at)

-- A word of it.
abbrev pub word_seen : (ℕ → Option ℕ) → ℕ → Option ℕ
word_seen mem a = do
  b0 ← mem a
  b1 ← mem (a + 1)
  b2 ← mem (a + 2)
  b3 ← mem (a + 2 + 1)
  some (b0 + 256 * b1 + 65536 * (b2 + 256 * b3))

abbrev pub task_directory : Machine → ℕ → ℕ
task_directory st task = st.words (st.tasks.tasks task).page_directory

-- `task_peek_stack` of the current task, which stays so.
pub peek_stack : Machine → ℕ → Option ℕ
peek_stack st offset =
    let task = st.tasks.current_task in
    word_seen (seen_by st (task_directory st task))
      (add32 (st.tasks.tasks task).registers.esp (4 * offset))

-- The bytes of a memory before the first 0, at most so many.
pub text_at : (ℕ → Option ℕ) → ℕ → ℕ → Option (List ℕ)
text_at mem a zero = some []
text_at mem a (suc left) =
    let rest = text_at mem (a + 1) left in
    do c ← mem a; if c == 0 then some [] else do cs ← rest; some (c ∷ cs)

-- `task_copy_string_from` of the current task: the text that is copied. The string is read before the
-- copy of it is written, which goes through the page tables as well.
pub copy_string_from : Machine → ℕ → ℕ → Option (List ℕ × Machine)
copy_string_from st virtual_address max =
    let directory = task_directory st st.tasks.current_task in
    let (tmp, st1) = kzalloc st max in
    let old_entry = get_page st1.words directory tmp in
    let (_, words1) = set_page st1.words directory tmp (bit_or tmp 7) in
    let st2 : Machine = record st1 { words = words1 } in
    let (res, words2) = set_page words1 directory tmp old_entry in
    if leb page_size max || tmp == 0 then none else elim res [
      | err e ↦ none
      | ok _ ↦ do
        text ← text_at (seen_by st2 directory) virtual_address (max - 1)
        at ← translate words1 directory tmp
        some (
          text,
          record st2 {
            bytes = write_at st2.bytes at (terminated text);
            words = words2;
            heap = free st2.heap tmp;
          },
        )
    ]

-- What a call returns in `eax`.
abbrev pub code_of : Result ℕ → ℕ
code_of (ok n) = n
code_of (err e) = word_of e

abbrev pub status_of : Result (Unit {0}) → ℕ
status_of (ok _) = 0
status_of (err e) = word_of e

-- A signed `char` as a word.
abbrev pub char_word : ℕ → ℕ
char_word c = if ltb c 128 then c else c + 2 ^ 32 - 256

-- The process of the current task.
abbrev pub current : Machine → ℕ
current st = (st.tasks.tasks st.tasks.current_task).process

abbrev pub parts_of : Result (List (List ℕ)) → Result (List (List ℕ))
parts_of (err e) = err e
parts_of (ok buffers) = ok (texts buffers)
  where
    texts : List (List ℕ) → List (List ℕ)
    texts [] = []
    texts (b ∷ bs) = text_of b ∷ texts bs
