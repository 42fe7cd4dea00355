-- ===== src/Process/Load/Tests.antt =====
-- A file of four bytes that is loaded while two others are open.
use git_os.Base.{
  Result, err, Errno, einformat, ◌⊎◌, ◌<◌, ℕ, ◌+◌, ◌≡◌, ◌≢◌, refl, ap, arith, Option, none, some,
  List, [], ◌∷◌, ◌==◌, ltb, if◌then◌else◌, ok, update, write_at, Bool-cases, inl, inr, eq_of_some,
  sym, ◌∙◌,
}
use git_os.Str.{strlen, strlen_from, strcmp, strncmp}
use git_os.Heap.{malloc, malloc_blocks, align_size, get_start_block, find_from}
use git_os.Tasks.{zero_registers}
use git_os.Process.Keys.{new_keyboard_buffer}
use git_os.Process.Machine.{Machine, Process, max_processes, get_free_slot, free_place, process_get}
use git_os.File.{
  file_get_descriptor, Files, Filesystem, OpenFile, fopen, fread, fstat, fclose,
  file_new_descriptor, open_mounted, find_prefix, prefix_at, find_mount, same_path, reconstruct,
  file_get_mode_by_string, free_slot, file_get_descriptor, file_free_descriptor,
}
use git_os.File.Calls.{IsNumbered}
use git_os.Process.Segments.{kzalloc, new_elf}
use git_os.Process.Load.{
  Kernel, process_load, load_for_slot, load_data, elf_load, load_open, close_result,
}
use git_os.Elf.{parse, is_valid}
use git_os.Process.Load.Table.{process_load-slots}
use git_os.Process.Load.Descriptor.{elf_load-keeps_open}

abbrev driver : Filesystem (Unit {0}) (Unit {0}) ℕ
driver = record {
  fs_open = λ w p parts mode. (some 7, w);
  fs_read = λ w p d size nmemb. (ok nmemb, 1 ∷ 2 ∷ 3 ∷ 4 ∷ [], w);
  fs_write = λ w p d size nmemb input. (ok nmemb, w);
  fs_seek = λ w d offset whence. (ok tt, w);
  fs_stat = λ w d. (ok (record { flags = 0; filesize = 4 }), w);
  fs_close = λ w d. (ok tt, w);
}

abbrev desc : ℕ → OpenFile (Unit {0}) (Unit {0}) ℕ
desc n = record { index = n; filesystem = driver; private_fs_descriptor = 7; private_fs = tt }

abbrev path : List (List ℕ)
path = (b'0' ∷ b':' ∷ []) ∷ (b'f' ∷ []) ∷ []

-- The file 0:/f is mounted, and the numbers below one are open, except for some.
abbrev files : (ℕ → Option (OpenFile (Unit {0}) (Unit {0}) ℕ)) → Files (Unit {0}) (Unit {0}) ℕ
files descriptors = record {
  filesystems = λ i. none;
  file_descriptors = descriptors;
  mounted = λ i.
      if i == 0
      then some (record { filename = b'0' ∷ b':' ∷ b'/' ∷ b'f' ∷ []; fs = driver; fs_data = tt })
      else none;
  world = tt;
}

abbrev below : ℕ → ℕ → Option (OpenFile (Unit {0}) (Unit {0}) ℕ)
below n i = if ltb i n then some (desc (i + 1)) else none

abbrev process : Process
process = record {
  id = 0;
  filename = [];
  task = 0;
  allocations = λ i. 0;
  elf = 0;
  stack = 0;
  bss = 0;
  framebuffer = 0;
  keyboard = new_keyboard_buffer;
  elf_entry = 0;
}

-- The heap has no block.
abbrev machine : Machine
machine = record {
  heap = record { entries = λ i. 0; total = 0; start_address = 0 };
  bytes = λ a. 0;
  words = λ a. 0;
  tasks = record {
    tasks = λ a. record {
      page_directory = 0;
      registers = zero_registers;
      process = 0;
      next = 0;
      prev = 0;
    };
    current_task = 0;
    task_head = 0;
    task_tail = 0;
  };
  processes = λ a. process;
  elf_files = λ a. record { m_data = 0; m_data_sz = 0 };
  slots = λ i. 0;
  current_process = 0;
}

abbrev kernel : Kernel (Unit {0}) (Unit {0}) ℕ
kernel = record { machine = machine; files = files (below 2) }

-- The third number was opened, and the first was closed.
abbrev opened : ℕ → Option (OpenFile (Unit {0}) (Unit {0}) ℕ)
opened = update (below 2) 2 (some (desc 3))

abbrev loaded : Kernel (Unit {0}) (Unit {0}) ℕ
loaded = record {
  machine = record machine {
    bytes = write_at (λ a. 0) 0 (1 ∷ 2 ∷ 3 ∷ 4 ∷ []);
    elf_files = update machine.elf_files 0 (record { m_data = 0; m_data_sz = 4 });
  };
  files = files (update opened 0 none);
}

below-IsNumbered : IsNumbered (files (below 2))
below-IsNumbered i d e = elim (Bool-cases (ltb i 2)) [
  | inl under ↦
      let here : below 2 i ≡ some (desc (i + 1)) = rw under refl in
      ap (λ x. x.index) (sym (eq_of_some (sym here ∙ e)))
  | inr over ↦ let gone : below 2 i ≡ none = rw over refl in absurd (not_some (sym gone ∙ e))
]
  where
    not_some : none ≢ some d
    not_some q = cc

elf_load-keeps_open_example :
    (update opened 0 none 2 ≢ none)
    × (file_get_descriptor (files (update opened 0 none)) 1 ≡ none)
    × (update opened 0 none 1 ≡ opened 1)
unfolding elf_load load_open close_result kzalloc new_elf malloc malloc_blocks align_size
    get_start_block find_from fopen fread fstat fclose find_prefix prefix_at find_mount same_path
    reconstruct file_get_mode_by_string open_mounted file_new_descriptor free_slot
    file_get_descriptor file_free_descriptor strlen strlen_from strcmp strncmp
elf_load-keeps_open_example =
    elf_load-keeps_open kernel loaded (ok path) 3 0 1 1 (files opened) below-IsNumbered refl refl
      (omega arith) (omega arith)

abbrev kernel_of :
    Option (Result (Unit {0}) × Kernel (Unit {0}) (Unit {0}) ℕ) → Kernel (Unit {0}) (Unit {0}) ℕ
kernel_of none = kernel
kernel_of (some (_, k)) = k

-- The four bytes are no program.
process_load-slots_example :
    let k' = kernel_of (process_load 64 kernel (ok path) [] 0x5000) in
    (k'.machine.current_process ≡ 0)
    × (((e : Errno) × ◌≡◌ {A = Result (Unit {0})} (err einformat) (err e)
          × (k'.machine.slots ≡ machine.slots))
        ⊎ ((slot : ℕ) × ◌≡◌ {A = Result (Unit {0})} (err einformat) (ok tt)
            × (slot < max_processes)
            × (machine.slots slot ≡ 0)
            × (k'.machine.slots ≡ update machine.slots slot 0x5000)))
unfolding process_load get_free_slot free_place load_for_slot process_get load_data elf_load
    load_open close_result kzalloc new_elf malloc malloc_blocks align_size get_start_block find_from
    fopen fread fstat fclose find_prefix prefix_at find_mount same_path reconstruct
    file_get_mode_by_string open_mounted file_new_descriptor free_slot file_get_descriptor
    file_free_descriptor strlen strlen_from strcmp strncmp parse is_valid
process_load-slots_example =
    process_load-slots 64 kernel (kernel_of (process_load 64 kernel (ok path) [] 0x5000)) (ok path)
      [] 0x5000 (err einformat) refl
