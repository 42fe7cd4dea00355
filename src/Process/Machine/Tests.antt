-- ===== src/Process/Machine/Tests.antt =====
-- Two processes, and one with page tables and a small heap: the theorems on processes applied to them.
use git_os.Base.{
  ℕ, ◌+◌, ◌-◌, ◌*◌, ◌/◌, ◌<◌, ◌≡◌, ◌⊎◌, ◌↔◌, inl, refl, arith, ltb, ◌==◌, if◌then◌else◌, none, [],
}
use git_os.Heap.{
  Heap, malloc, malloc_blocks, align_size, get_start_block, find_from, block_to_address,
}
use git_os.Heap.Malloc.{IsTable}
use git_os.Paging.{
  Words, map_to, map_range, map_page, set_page, get_indexes, slot_address, align_address,
}
use git_os.Tasks.{zero_registers}
use git_os.Process.Keys.{new_keyboard_buffer}
use git_os.Process.Machine.{
  Machine, Process, max_processes, free_place, get_next_allocation_index, malloc_flags,
  process_malloc, process_free, clear_slots, first_process, leave_slots, release, process_terminate,
}
use git_os.Process.Machine.Slots.{Left, process_terminate-Left, process_terminate_panics}
use git_os.Process.Machine.Allocate.{process_free-process_malloc}

abbrev process : Process
process = record {
  id = 0;
  filename = [];
  task = 0x7000;
  allocations = λ i. 0;
  elf = 0;
  stack = 0;
  bss = 0;
  framebuffer = 0;
  keyboard = new_keyboard_buffer;
  elf_entry = 0x400000;
}

-- The directory is the page at 0x100000; its tables follow it, each entry with flags 7. Its chunk is 16.
abbrev tables : Words
tables a =
    if a == 16
    then 0x100000
    else if ltb a 0x101000
    then (a - 0x100000) / 4 * 0x1000 + 0x101007
    else 0

-- A heap of four blocks, all free or all taken.
abbrev heap_of : ℕ → Heap
heap_of entry = record {
  entries = λ i. if ltb i 4 then entry else 0;
  total = 4;
  start_address = 0x1000000;
}

-- The processes 0x5000 and 0x6000, or the first alone.
abbrev machine : ℕ → ℕ → Machine
machine entry second = record {
  heap = heap_of entry;
  bytes = λ a. 0;
  words = tables;
  tasks = record {
    tasks = λ a. record {
      page_directory = 16;
      registers = zero_registers;
      process = 0;
      next = 0;
      prev = 0;
    };
    current_task = 0;
    task_head = 0;
    task_tail = 0;
  };
  processes = λ a. process;
  elf_files = λ a. record { m_data = 0; m_data_sz = 0 };
  slots = λ i. if i == 0 then 0x5000 else if i == 1 then second else 0;
  current_process = 0x5000;
}

process_terminate-Left_example :
    Left (machine 0 0x6000) 0x5000 (release (leave_slots (machine 0 0x6000) 0x5000) 0x5000)
unfolding process_terminate leave_slots clear_slots first_process
process_terminate-Left_example =
    process_terminate-Left (machine 0 0x6000) 0x5000 (omega arith)
      (release (leave_slots (machine 0 0x6000) 0x5000) 0x5000) (0, omega arith, refl, omega arith)
      refl

process_terminate_panics_example : (process_terminate (machine 0 0) 0x5000 ≡ none) ↔ (
    ((machine 0 0).current_process ≡ 0x5000)
    × ((j : ℕ)
        → j < max_processes
        → ((machine 0 0).slots j ≡ 0) ⊎ ((machine 0 0).slots j ≡ 0x5000)))
process_terminate_panics_example = process_terminate_panics (machine 0 0) 0x5000 (omega arith)

four-IsTable : IsTable (heap_of 0)
four-IsTable i h = inl (ground arith)

given_address : (process_malloc (machine 0 0) 0x5000 5000).0 ≡ 0x1000000
unfolding process_malloc malloc_flags get_next_allocation_index free_place malloc malloc_blocks
    align_size get_start_block find_from block_to_address map_to map_range map_page set_page
    get_indexes slot_address align_address
given_address = refl

process_free-process_malloc_example :
    let (ptr, st) = process_malloc (machine 0 0) 0x5000 5000 in
    ((j : ℕ) → (process_free st 0x5000 ptr).heap.entries j ≡ (heap_of 0).entries j)
    × ((k : ℕ) → ((process_free st 0x5000 ptr).processes 0x5000).allocations k ≡ 0)
unfolding align_size
process_free-process_malloc_example =
    process_free-process_malloc (machine 0 0) 0x5000 5000 0 four-IsTable (omega arith) (omega arith)
      (omega arith) (λ i p q. ground arith) (rw given_address (omega arith))
      (λ k. rw given_address (omega arith))
