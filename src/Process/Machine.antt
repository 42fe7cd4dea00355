-- ===== src/Process/Machine.antt =====
-- The processes with what they are made of, src/kernel/task/process.cpp: the heap, the page tables, the
-- tasks and the open files of the kernel. A result that is missing is a kernel panic or an access
-- through a null pointer.
mod Loops
pub mod Slots
pub mod Allocate
mod Exhausted
mod Tests
use git_os.Base.{
  ℕ, zero, suc, ◌+◌, ◌-◌, ◌<◌, ◌^◌, Bool, true, false, not, Option, none, some, List, [], ◌∷◌, ltb,
  leb, ◌==◌, ◌||◌, if◌then◌else◌, Result, ok, err, eistkn, enomem, bit_and, bit_or, add32, update,
}
use git_os.Heap.{Heap, malloc, free}
use git_os.Memory.{Bytes, memcpy}
use git_os.Paging.{Words, map_to, align_address, align_address_to_lower_page, free_directory}
use git_os.Tasks.{Task, Tasks, list_remove}
use git_os.Elf.{ElfFile, get_header, get_program_header}
use git_os.Process.{KeyboardBuffer}

-- `MAX_PROCESSES` and `PROCESS_MAX_ALLOCATIONS`
abbrev pub max_processes : ℕ
max_processes = 12

abbrev pub max_allocations : ℕ
max_allocations = 1024

-- `struct process`, but for its arguments, which nothing here uses.
pub record Process : Type 0 where
  pub id : ℕ
  pub filename : List ℕ
  pub task : ℕ
  pub allocations : ℕ → ℕ
  pub elf : ℕ
  pub stack : ℕ
  pub bss : ℕ
  pub framebuffer : ℕ
  pub keyboard : KeyboardBuffer
  pub elf_entry : ℕ

-- The state of the kernel. The processes and the loaded files are functions from addresses; `slots` is
-- the array `processes`. The page tables are words of a memory that is kept apart from the bytes.
pub record Machine : Type 0 where
  pub heap : Heap
  pub bytes : Bytes
  pub words : Words
  pub tasks : Tasks
  pub processes : ℕ → Process
  pub elf_files : ℕ → ElfFile
  pub slots : ℕ → ℕ
  pub current_process : ℕ

-- The first null pointer of a table, as `process_get_free_slot` and
-- `process_get_next_allocation_index` look for it, with `left` places to go from `i` on.
unfoldable pub free_place : (ℕ → ℕ) → ℕ → ℕ → Option ℕ
free_place table zero i = none
free_place table (suc left) i =
    let rest = free_place table left (i + 1) in if table i == 0 then some i else rest

-- `process_get`; a negative number is a word of 2^31 or more.
unfoldable pub process_get : Machine → ℕ → ℕ
process_get st process_id = if leb max_processes process_id then 0 else st.slots process_id

pub process_switch : Machine → ℕ → Machine
process_switch st process = record st { current_process = process }

-- `none` is `-EISTKN`.
unfoldable pub get_free_slot : Machine → Option ℕ
get_free_slot st = free_place st.slots max_processes 0

-- `none` is `-ENOMEM`.
unfoldable pub get_next_allocation_index : Process → Option ℕ
get_next_allocation_index process = free_place process.allocations max_allocations 0

abbrev pub with_process : Machine → ℕ → Process → Machine
with_process st a process = record st { processes = update st.processes a process }

-- The directory of the task of a process.
abbrev pub directory_of : Machine → Process → ℕ
directory_of st process = st.words (st.tasks.tasks process.task).page_directory

-- `process_malloc_flags`
unfoldable pub malloc_flags : Machine → ℕ → ℕ → ℕ → ℕ × Machine
malloc_flags st a size flags = elim (get_next_allocation_index (st.processes a)) [
  | none ↦ (0, st)
  | some next_alloc_idx ↦
      let process = st.processes a in
      let (ptr, heap') = malloc st.heap size in
      let process' : Process = record process {
        allocations = update process.allocations next_alloc_idx ptr;
      } in
      let (res, words') =
        map_to st.words (directory_of st process) ptr ptr (align_address (add32 ptr size)) flags in
      let st' : Machine = record (with_process st a process') { heap = heap'; words = words' } in
      elim res [ err e ↦ (0, record st' { heap = free heap' ptr }) | ok _ ↦ (ptr, st') ]
]

-- `process_malloc`: `PAGING_IS_PRESENT | PAGING_IS_WRITEABLE | PAGING_ACCESS_FROM_ALL`.
unfoldable pub process_malloc : Machine → ℕ → ℕ → ℕ × Machine
process_malloc st a size = malloc_flags st a size 7

-- The loop of `process_free`, with `left` places to go from `i` on.
unfoldable pub process_free_from : Machine → ℕ → ℕ → ℕ → ℕ → Machine
process_free_from st a address zero i = st
process_free_from st a address (suc left) i =
    let process = st.processes a in
    let rest = process_free_from st a address left (i + 1) in
    if process.allocations i == address
    then record (with_process st a
        (record process { allocations = update process.allocations i 0 })) {
          heap = free st.heap (process.allocations i);
        }
    else rest

unfoldable pub process_free : Machine → ℕ → ℕ → Machine
process_free st a address = process_free_from st a address max_allocations 0

-- `task_free`
unfoldable pub task_free : Machine → ℕ → Machine
task_free st task = record st {
  heap = free (free_directory st.words (st.tasks.tasks task).page_directory st.heap) task;
  tasks = list_remove st.tasks task;
}

-- `delete` of an `ELFFile`: nothing for a null pointer.
unfoldable pub delete_elf : Machine → ℕ → Machine
delete_elf st elf =
    if elf == 0 then st else record st { heap = free (free st.heap (st.elf_files elf).m_data) elf }

-- The first loop of `process_terminate`.
unfoldable pub clear_slots : ℕ → ℕ → ℕ → (ℕ → ℕ) → ℕ → ℕ
clear_slots process zero i slots = slots
clear_slots process (suc left) i slots =
    clear_slots process left (i + 1) (if slots i == process then update slots i 0 else slots)

-- The second loop: the first process that is left, `none` where there is none.
unfoldable pub first_process : ℕ → ℕ → (ℕ → ℕ) → Option ℕ
first_process zero i slots = none
first_process (suc left) i slots =
    let rest = first_process left (i + 1) slots in if slots i == 0 then rest else some (slots i)

-- The third loop.
unfoldable pub free_allocations : ℕ → ℕ → Heap → (ℕ → ℕ) → Heap × (ℕ → ℕ)
free_allocations zero i heap allocations = (heap, allocations)
free_allocations (suc left) i heap allocations =
    free_allocations left (i + 1) (if allocations i == 0 then heap else free heap (allocations i))
      (if allocations i == 0 then allocations else update allocations i 0)

-- The part of `process_terminate` that takes the process out of the table.
unfoldable pub leave_slots : Machine → ℕ → Machine
leave_slots st a =
    let slots' = clear_slots a max_processes 0 st.slots in
    record st {
      slots = slots';
      current_process =
          if st.current_process == a
          then elim (first_process max_processes 0 slots') [ none ↦ a | some p ↦ p ]
          else st.current_process;
    }

-- The part that frees what the process has.
unfoldable pub release : Machine → ℕ → Machine
release st a =
    let process = st.processes a in
    let (heap', allocations') = free_allocations max_allocations 0 st.heap process.allocations in
    let st' : Machine = record (with_process st a (record process { allocations = allocations' })) {
      heap = heap';
    } in
    let st'' = delete_elf (task_free st' process.task) process.elf in
    record st'' { heap = free (free (free st''.heap process.stack) process.bss) a }

-- `process_terminate`
unfoldable pub process_terminate : Machine → ℕ → Option Machine
process_terminate st a =
    let st' = leave_slots st a in if st'.current_process == a then none else some (release st' a)
