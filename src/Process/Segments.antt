-- ===== src/Process/Segments.antt =====
-- What a process is made of when it is loaded, src/kernel/task/process.cpp: its task with the page
-- directory, and the segments of its file. A result that is missing is a kernel panic or an access
-- through a null pointer.
use git_os.Base.{
  ℕ, zero, suc, ◌+◌, ◌*◌, ◌-◌, Option, none, some, ltb, ◌==◌, if◌then◌else◌, Result, ok, err,
  bit_and, bit_or, add32, update,
}
use git_os.Heap.{malloc}
use git_os.Memory.{memset, memcpy}
use git_os.Paging.{
  map_to, align_address, align_address_to_lower_page, fill_directory, entries_per_table,
}
use git_os.Tasks.{new_task}
use git_os.Elf.{ElfFile, ProgramHeader, get_header, get_program_header}
use git_os.Process.Machine.{Machine, malloc_flags, directory_of}

-- `kzalloc`
unfoldable pub kzalloc : Machine → ℕ → ℕ × Machine
kzalloc st size =
    let (ptr, heap') = malloc st.heap size in
    if ptr == 0
    then (0, record st { heap = heap' })
    else (ptr, record st { heap = heap'; bytes = memset st.bytes ptr 0 size })

-- `new ELFFile(data, size)`
unfoldable pub new_elf : Machine → ℕ → ℕ → ℕ × Machine
new_elf st data_at size =
    let (elf, st') = kzalloc st 8 in
    (
      elf,
      record st' {
        elf_files = update st'.elf_files elf (record { m_data = data_at; m_data_sz = size });
      },
    )

-- The loop of `paging_new_directory` that allocates the tables, with `left` of them to go from `i` on.
unfoldable pub allocate_tables : ℕ → ℕ → Machine → (ℕ → ℕ) → (ℕ → ℕ) × Machine
allocate_tables zero i st table = (table, st)
allocate_tables (suc left) i st table =
    let (page_table, st') = kzalloc st 4096 in
    allocate_tables left (i + 1) st' (update table i page_table)

-- `paging_new_directory`: the address of the chunk.
unfoldable pub new_directory_chunk : Machine → ℕ → ℕ × Machine
new_directory_chunk st flags =
    let (directory, st') = kzalloc st 4096 in
    let (table, st'') = allocate_tables entries_per_table 0 st' (λ i. 0) in
    let (chunk, st''') = kzalloc st'' 4 in
    (
      chunk,
      record st''' {
        words =
            update (fill_directory st'''.words directory table flags entries_per_table 0) chunk
              directory;
      },
    )

-- `task_new`, with what it allocates.
unfoldable pub task_new : Machine → ℕ → Option (ℕ × Machine)
task_new st a =
    let (task, st') = kzalloc st 64 in
    let (chunk, st'') = new_directory_chunk st' 5 in
    elim (new_task st''.tasks task chunk a (st.processes a).elf_entry) [
      | none ↦ none
      | some (t, tasks') ↦ some (t, record st'' { tasks = tasks' })
    ]

-- The page flags of a segment.
abbrev pub segment_flags : ProgramHeader → ℕ
segment_flags h = if bit_and h.p_flags 2 == 0 then 5 else bit_or 5 2

-- The memory of a segment: a copy, where it is longer than what the file has of it.
unfoldable pub segment_memory : Machine → ℕ → ElfFile → ProgramHeader → ℕ × Machine
segment_memory st a elf h =
    let source = add32 elf.m_data h.p_offset in
    let (mem, st') = malloc_flags st a h.p_memsz (segment_flags h) in
    if ltb h.p_filesz h.p_memsz
    then (mem, record st' { bytes = memcpy st'.bytes mem source h.p_filesz })
    else (source, st)

-- The loop of `process_map_memory`, with `left` segments to go from `i` on.
unfoldable pub map_segments : ℕ → ℕ → Machine → ℕ → ElfFile → Result (Unit {0}) × Machine
map_segments zero i st a elf = (ok tt, st)
map_segments (suc left) i st a elf =
    let h = get_program_header st.bytes elf i in
    let (physical_address, st') = segment_memory st a elf h in
    let (res, words') =
      map_to st'.words (directory_of st' (st'.processes a)) (align_address_to_lower_page h.p_vaddr)
        (align_address_to_lower_page physical_address)
        (align_address (add32 physical_address h.p_memsz)) (segment_flags h) in
    let st'' : Machine = record st' { words = words' } in
    elim res [ err e ↦ (err e, st'') | ok _ ↦ map_segments left (i + 1) st'' a elf ]

-- `PROGRAM_VIRTUAL_STACK_SIZE` and `PROGRAM_VIRTUAL_STACK_ADDRESS_END`
abbrev pub stack_size : ℕ
stack_size = 1024 * 16

abbrev pub stack_end : ℕ
stack_end = 0x3FF000 - stack_size

-- `process_map_memory`
unfoldable pub map_memory : Machine → ℕ → Result (Unit {0}) × Machine
map_memory st a =
    let elf = st.elf_files (st.processes a).elf in
    let (res, st') = map_segments (get_header st.bytes elf).e_phnum 0 st a elf in
    elim res [
      | err e ↦ (err e, st')
      | ok _ ↦
          let stack = (st'.processes a).stack in
          let (res', words') =
            map_to st'.words (directory_of st' (st'.processes a)) stack_end stack
              (align_address (add32 stack stack_size)) 7 in
          (res', record st' { words = words' })
    ]
