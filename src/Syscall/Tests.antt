-- ===== src/Syscall/Tests.antt =====
-- A task with page tables and a stack, and the theorems on system calls applied to it.
use git_os.Base.{
  ℕ, ◌+◌, ◌-◌, ◌*◌, ◌/◌, ◌≤◌, ◌<◌, ◌≡◌, ◌≢◌, refl, arith, ltb, ◌==◌, if◌then◌else◌, Option, none,
  some, List, [], ◌∷◌, ok, update,
}
use git_os.Heap.{malloc, malloc_blocks, align_size, get_start_block, find_from, block_to_address}
use git_os.Memory.{memset, memset_from}
use git_os.Elf.{word_at}
use git_os.Paging.{
  Words, entries_per_table, map_to, map_range, map_page, set_page, get_page, get_indexes,
  slot_address, align_address,
}
use git_os.Paging.Slots.{IsDirectory}
use git_os.Paging.Translate.{translate}
use git_os.Tasks.{zero_registers, task_switch}
use git_os.File.{
  Files, MountedFile, fopen, file_get_descriptor, mount, free_slot, file_get_mode_by_string,
}
use git_os.Str.{strncmp}
use git_os.Str.Copy.{IsText}
use git_os.Pipe.{Pipe, new_pipe}
use git_os.Pipe.Driver.{pipe_file}
use git_os.Process.Keys.{new_keyboard_buffer}
use git_os.Process.Machine.{
  Machine, Process, max_processes, process_terminate, leave_slots, clear_slots, first_process,
  release, task_free, delete_elf, free_allocations,
}
use git_os.Process.Segments.{kzalloc}
use git_os.Process.Load.{Kernel}
use git_os.Syscall.{
  Call, current, number, syscall_init, peek_stack, copy_string_from, seen_by, text_at,
}
use git_os.Process.Machine.Slots.{Left}
use git_os.Syscall.Exit.{exit-Left}
use git_os.Syscall.Handlers.{handle_command, open_ipc, exit}
use git_os.Syscall.Numbers.{handle_command-syscall_init}
use git_os.Syscall.Stack.{peek_stack-map_to}
use git_os.Syscall.Ipc.{fopen-open_ipc, ipc_path, ipc_parts}

-- Each call counts, and returns its number.
handle_command-syscall_init_example :
    (syscalls : ℕ → Option Call) × (syscall_init (λ i. none) ≡ some syscalls)
    × ((func : Call)
        → handle_command (λ f (n : ℕ). some (number f, n + 1)) syscalls (number func) 0
          ≡ some (number func, 1))
    × ((syscall_id : ℕ)
        → 17 ≤ syscall_id
        → handle_command (λ f (n : ℕ). some (number f, n + 1)) syscalls syscall_id 0 ≡ some (0, 0))
handle_command-syscall_init_example =
    handle_command-syscall_init (λ f (n : ℕ). some (number f, n + 1)) 0

-- The directory is the page at 0x100000, and its tables, which follow it, map every page to itself.
-- Its chunk is at 16.
abbrev tables : Words
tables a =
    if a == 16
    then 0x100000
    else if ltb a 0x101000
    then (a - 0x100000) / 4 * 0x1000 + 0x101007
    else (a - 0x101000) / 4 * 0x1000 + 7

table_at : (i : ℕ) → i < entries_per_table → tables (0x100000 + 4 * i) ≡ i * 0x1000 + 0x101007
table_at i h = ground arith

tables-IsDirectory : IsDirectory tables 0x100000
tables-IsDirectory = record {
  aligned = refl;
  entry_word = λ i h. rw (table_at i h) (omega arith);
  table_apart = λ i h. rw (table_at i h) (omega arith);
  table_distinct = λ i j h k ne. rw (table_at i h, table_at j k) (omega arith);
}

-- The stack of four pages in front of 0x3ff000 is at 0x800000.
abbrev with_stack : Words
with_stack = (map_to tables 0x100000 0x3fb000 0x800000 0x804000 7).1

-- At 0x3000 stand the arguments 0x4000, 4 and 2, and at 0x4000 the text "x".
abbrev memory : ℕ → ℕ
memory a =
    if a == 0x3001
    then 0x40
    else if a == 0x3004
    then 4
    else if a == 0x3008
    then 2
    else if a == 0x4000
    then b'x'
    else 0

abbrev process : Process
process = record {
  id = 0;
  filename = [];
  task = 0x7000;
  allocations = λ i. 0;
  elf = 0;
  stack = 0;
  bss = 0;
  framebuffer = 0;
  keyboard = new_keyboard_buffer;
  elf_entry = 0x400000;
}

abbrev machine : Words → ℕ → Machine
machine words esp = record {
  heap = record { entries = λ i. 0; total = 4; start_address = 0x1000000 };
  bytes = memory;
  words = words;
  tasks = record {
    tasks = λ a. record {
      page_directory = 16;
      registers = record zero_registers { esp = esp };
      process = 0x5000;
      next = 0;
      prev = 0;
    };
    current_task = 0x7000;
    task_head = 0x7000;
    task_tail = 0x7000;
  };
  processes = λ a. process;
  elf_files = λ a. record { m_data = 0; m_data_sz = 0 };
  slots = λ i. if i == 0 then 0x5000 else 0;
  current_process = 0x5000;
}

peek_stack-map_to_example :
    peek_stack (machine with_stack 0x3fefe0) 1 ≡ some (word_at memory (0x800000 + 0x3fe4))
unfolding map_to map_range map_page set_page get_indexes slot_address align_address
peek_stack-map_to_example =
    peek_stack-map_to (machine with_stack 0x3fefe0) tables 0x100000 0x3fb000 0x800000 4 7 1
      tables-IsDirectory (omega arith) refl (omega arith) (omega arith) (omega arith) refl
      (λ i h. rw (table_at i h) (omega arith)) refl refl (omega arith) (omega arith)

-- Without the present bit the access is a page fault.
faults :
    peek_stack (machine (map_to tables 0x100000 0x3fb000 0x800000 0x804000 6).1 0x3fefe0) 1 ≡ none
unfolding peek_stack seen_by translate get_page map_to map_range map_page set_page get_indexes
    slot_address align_address
faults = refl

-- No file is open, nothing is mounted, and the pipes are empty.
abbrev kernel : Kernel (Option (ℕ → Pipe)) ℕ ℕ
kernel = record {
  machine = machine tables 0x3000;
  files = record {
    filesystems = λ i. none;
    file_descriptors = λ i. none;
    mounted = λ i. none;
    world = some (λ a. new_pipe 0);
  };
}

abbrev machine_of : Option (List ℕ × Machine) → Machine
machine_of none = machine tables 0
machine_of (some (_, st)) = st

abbrev kernel_of : Option (ℕ × Kernel (Option (ℕ → Pipe)) ℕ ℕ) → Kernel (Option (ℕ → Pipe)) ℕ ℕ
kernel_of none = kernel
kernel_of (some (_, k)) = k

abbrev copied : Machine
copied = machine_of (copy_string_from (machine tables 0x3000) 0x4000 1024)

copies : copy_string_from (machine tables 0x3000) 0x4000 1024 ≡ some (b'x' ∷ [], copied)
unfolding copy_string_from kzalloc malloc malloc_blocks align_size get_start_block find_from
    block_to_address set_page get_page get_indexes slot_address translate seen_by text_at memset
    memset_from
copies = refl

nothing-NotMounted :
    (name : List ℕ) (j : ℕ) (m : MountedFile (Option (ℕ → Pipe)) ℕ ℕ)
    → ◌≡◌ {A = Option (MountedFile (Option (ℕ → Pipe)) ℕ ℕ)} none (some m)
    → IsText m.filename × (name ≢ m.filename)
nothing-NotMounted name j m e = cc

fopen-open_ipc_example :
    let pipe = (kzalloc copied 20).0 in
    let k' = kernel_of (open_ipc kernel) in
    (files' : Files (Option (ℕ → Pipe)) ℕ ℕ) × (fopen k'.files
        (ok (ipc_parts (b'x' ∷ [])))
        (b'r' ∷ 0 ∷ [])
      ≡ some (ok 1, files'))
    × (file_get_descriptor files' 1 ≡ some (pipe_file 1 pipe))
    × (files'.world ≡ some (update (λ a. new_pipe 0) pipe (new_pipe 8)))
unfolding copy_string_from kzalloc malloc malloc_blocks align_size get_start_block find_from
    block_to_address set_page get_page get_indexes slot_address translate seen_by text_at memset
    memset_from peek_stack open_ipc mount free_slot file_get_mode_by_string strncmp
fopen-open_ipc_example =
    fopen-open_ipc kernel (kernel_of (open_ipc kernel)) (λ a. new_pipe 0) (b'x' ∷ [])
      (b'r' ∷ 0 ∷ []) copied 0x4000 4 2 0 refl refl refl copies refl refl (omega arith)
      (omega arith) (nothing-NotMounted (ipc_path (b'x' ∷ []))) refl (omega arith) refl

-- The process 0x6000 is the current one, while a task of the process 0x5000 calls.
abbrev two : Machine
two = record (machine tables 0x3000) {
  slots = λ i. if i == 0 then 0x5000 else if i == 1 then 0x6000 else 0;
  current_process = 0x6000;
}

abbrev after_exit : Option (ℕ × Machine) → Machine
after_exit none = two
after_exit (some (_, st)) = st

exit-Left_example :
    let st = after_exit (exit two) in
    Left two 0x6000 st
    × (st.tasks.current_task ≡ (st.processes st.current_process).task)
    × (current two ≢ two.current_process
        → (j : ℕ) → j < max_processes
        → two.slots j ≡ 0x5000
        → st.slots j ≡ 0x5000)
unfolding exit peek_stack seen_by translate get_page get_indexes slot_address task_switch
    process_terminate leave_slots clear_slots first_process release task_free delete_elf
    free_allocations
exit-Left_example = exit-Left two (after_exit (exit two)) 0 (1, omega arith, refl, omega arith) refl
