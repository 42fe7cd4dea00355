-- ===== src/Process/Load.antt =====
-- The loading of a process, src/kernel/task/process.cpp, over the open files of src/kernel/fs/file.c. A
-- result that is missing is a kernel panic or an access through a null pointer.
mod Descriptor
mod Keeps
mod Reading
mod Table
mod Tests
use git_os.Base.{
  ℕ, zero, suc, ◌+◌, ◌*◌, ◌-◌, ◌%◌, ◌^◌, Bool, true, false, not, Option, none, some, List, [], ◌∷◌,
  ltb, leb, ◌==◌, if◌then◌else◌, Result, ok, err, Errno, eio, einvarg, enomem, enotimpl, einformat,
  eistkn, bit_and, bit_or, add32, u32, update, write_at, take,
}
use git_os.Heap.{Heap, malloc, free}
use git_os.Memory.{Bytes, memset, memcpy}
use git_os.Paging.{
  map_to, align_address, align_address_to_lower_page, fill_directory, entries_per_table,
}
use git_os.Tasks.{Tasks, new_task}
use git_os.Elf.{ElfFile, ProgramHeader, get_header, get_program_header, get_entry, parse}
use git_os.File.{Files, fopen, fstat, fread, fclose}
use git_os.Process.Segments.{kzalloc, new_elf, task_new, map_memory, stack_size}
use git_os.Process.Machine.{
  Machine, Process, process_get, get_free_slot, malloc_flags, process_malloc, process_free,
  process_switch, task_free, delete_elf, with_process, directory_of,
}

-- A negative `int`, as the word of it.
abbrev pub word_of : Errno → ℕ
word_of eio = 2 ^ 32 - 1
word_of einvarg = 2 ^ 32 - 2
word_of enomem = 2 ^ 32 - 3
word_of enotimpl = 2 ^ 32 - 4
word_of einformat = 2 ^ 32 - 5
word_of eistkn = 2 ^ 32 - 8

-- What `process_load_for_slot` does at its end where the result is an error.
pub clean_up : Machine → ℕ → Machine
clean_up st a =
    let p = st.processes a in
    let st1 = if p.task == 0 then st else task_free st p.task in
    let st2 = delete_elf st1 p.elf in
    let st3 = if p.framebuffer == 0 then st2 else process_free st2 a p.framebuffer in
    if p.bss == 0 then st3 else record st3 { heap = free st3.heap p.bss }

-- `process_load_for_slot` behind the mapping: the process gets its slot and its frame buffer.
pub enter_slot : ℕ → Machine → ℕ → ℕ → Machine
enter_slot framebuffer_size st a process_slot =
    let (framebuffer, st1) =
      process_malloc (record st { slots = update st.slots process_slot a }) a framebuffer_size in
    with_process st1 a (record (st1.processes a) { framebuffer = framebuffer })

-- The rest of `process_load_for_slot`, from the stack on; `framebuffer_size` is that of the screen.
pub load_task : ℕ → Machine → List ℕ → ℕ → ℕ → Option (Result (Unit {0}) × Machine)
load_task framebuffer_size st filename a process_slot =
    let (stack, st1) = kzalloc st stack_size in
    let st2 : Machine = with_process st1 a (record (st1.processes a) {
      filename = take (1024 - 1) filename;
      stack = stack;
      id = process_slot;
    }) in
    if stack == 0 then some (err enomem, clean_up st1 a) else elim (task_new st2 a) [
      | none ↦ none
      | some (task, st3) ↦
          let (res, st4) =
            map_memory (with_process st3 a (record (st3.processes a) { task = task })) a in
          elim res [
            | err e ↦ some (err e, clean_up st4 a)
            | ok _ ↦ some (ok tt, enter_slot framebuffer_size st4 a process_slot)
          ]
    ]

pub record Kernel (W P D : Type 0) : Type 0 where
  pub machine : Machine
  pub files : Files W P D

module _ {W P D : Type 0} where
  -- The end of `elf_load`: `fclose` is given the result, and not the number of the file.
  pub close_result : ℕ → Machine → Files W P D → Result ℕ → ℕ × Result ℕ × Kernel W P D
  close_result elf st files (err e) =
      (elf, err e, record { machine = st; files = (fclose files (word_of e)).1 })
  close_result elf st files (ok n) =
      (elf, ok n, record { machine = st; files = (fclose files n).1 })

  -- `elf_load` behind `fopen`, with the number of the file. The address of the file is 0 where there is
  -- none.
  pub load_open : Machine → Files W P D → ℕ → Option (ℕ × Result ℕ × Kernel W P D)
  load_open st files fd =
      let (res, files1) = fstat files fd in
      elim res [
        | err e ↦ some (close_result 0 st files1 (err e))
        | ok stat ↦
            let (data_at, st1) = kzalloc st stat.filesize in
            elim (fread files1 stat.filesize 1 fd) [
              | none ↦ none
              | some (res1, out, files2) ↦
                  let st2 : Machine = record st1 { bytes = write_at st1.bytes data_at out } in
                  elim res1 [
                    | err e ↦ some (close_result 0 st2 files2 (err e))
                    | ok n ↦
                        let (elf, st3) = new_elf st2 data_at stat.filesize in
                        some (close_result elf st3 files2 (ok n))
                  ]
            ]
      ]

  -- `elf_load` of a path as `pathparser_parse` leaves it.
  pub elf_load : Kernel W P D → Result (List (List ℕ)) → Option (ℕ × Result ℕ × Kernel W P D)
  elf_load k path = elim (fopen k.files path (b'r' ∷ 0 ∷ [])) [
    | none ↦ none
    | some (res, files) ↦ elim res [
      | err e ↦ some (close_result 0 k.machine files (err e))
      | ok fd ↦ load_open k.machine files fd
    ]
  ]

  -- `process_load_data`
  pub load_data :
      Kernel W P D → Result (List (List ℕ)) → ℕ → Option (Result (Unit {0}) × Kernel W P D)
  load_data k path a = elim (elf_load k path) [
    | none ↦ none
    | some (elf, res, k1) ↦ elim res [
      | err e ↦ some (err e, k1)
      | ok n ↦
          let st = k1.machine in
          let file = st.elf_files elf in
          let process : Process = record (st.processes a) {
            elf = elf;
            elf_entry = get_entry st.bytes file;
          } in
          some (parse st.bytes file, record k1 { machine = with_process st a process })
    ]
  ]

  -- `process_load_for_slot`
  pub load_for_slot :
      ℕ
      → Kernel W P D
      → Result (List (List ℕ))
      → List ℕ
      → ℕ
      → ℕ
      → Option (Result (Unit {0}) × Kernel W P D)
  load_for_slot framebuffer_size k path filename a process_slot =
      if not (process_get k.machine process_slot == 0)
      then some (err eistkn, record k { machine = clean_up k.machine a })
      else elim (load_data k path a) [
        | none ↦ none
        | some (res, k1) ↦ elim res [
          | err e ↦ some (err e, record k1 { machine = clean_up k1.machine a })
          | ok _ ↦ elim (load_task framebuffer_size k1.machine filename a process_slot) [
            | none ↦ none
            | some (res1, st) ↦ some (res1, record k1 { machine = st })
          ]
        ]
      ]

  -- `process_load`
  pub process_load :
      ℕ
      → Kernel W P D
      → Result (List (List ℕ))
      → List ℕ
      → ℕ
      → Option (Result (Unit {0}) × Kernel W P D)
  process_load framebuffer_size k path filename a = elim (get_free_slot k.machine) [
    | none ↦ some (err eistkn, k)
    | some process_slot ↦ load_for_slot framebuffer_size k path filename a process_slot
  ]

  -- `process_load_switch`
  pub process_load_switch :
      ℕ
      → Kernel W P D
      → Result (List (List ℕ))
      → List ℕ
      → ℕ
      → Option (Result (Unit {0}) × Kernel W P D)
  process_load_switch framebuffer_size k path filename a =
      elim (process_load framebuffer_size k path filename a) [
        | none ↦ none
        | some (res, k1) ↦ elim res [
          | err e ↦ some (err e, k1)
          | ok _ ↦ some (ok tt, record k1 { machine = process_switch k1.machine a })
        ]
      ]
