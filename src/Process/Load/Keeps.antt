-- ===== src/Process/Load/Keeps.antt =====
-- What the steps of loading a process, src/kernel/task/process.cpp, leave of the table of processes.
use git_os.Base.{
  ℕ, zero, suc, ◌+◌, ◌≡◌, ◌≢◌, ◌⊎◌, refl, sym, ap, ◌∙◌, Bool, true, false, ◌==◌, if◌then◌else◌, ltb,
  add32, Bool-cases, Option-cases, inl, inr, none, some, Result, ok, err, Errno, eq_of_some, update,
}
use mathlib.Core.Path.{subst}
use git_os.Heap.{malloc, free}
use git_os.Paging.{entries_per_table, map_to, align_address, align_address_to_lower_page}
use git_os.Tasks.{new_task}
use git_os.Elf.{ElfFile, ProgramHeader, get_program_header, get_header}
use git_os.Process.Machine.{
  Machine, max_allocations, get_next_allocation_index, malloc_flags, process_malloc,
  process_free_from, process_free, delete_elf, task_free, directory_of,
}
use git_os.Process.Segments.{
  kzalloc, new_elf, allocate_tables, new_directory_chunk, task_new, segment_memory, map_segments,
  map_memory, segment_flags,
}
use git_os.Process.Load.{clean_up}

-- The table of processes and the current process are the same.
abbrev pub SameTable : Machine → Machine → Type 0
SameTable st st' = (st'.slots ≡ st.slots) × (st'.current_process ≡ st.current_process)

pub then-SameTable :
    (st st1 st2 : Machine) → SameTable st st1 → SameTable st1 st2 → SameTable st st2
then-SameTable st st1 st2 p q = (q.0 ∙ p.0, q.1 ∙ p.1)

if-SameTable :
    (st st1 st2 : Machine) (b : Bool)
    → SameTable st st1
    → SameTable st st2
    → SameTable st (if b then st1 else st2)
if-SameTable st st1 st2 true p q = p
if-SameTable st st1 st2 false p q = q

pub Result-cases : (r : Result (Unit {0})) → (r ≡ ok tt) ⊎ ((e : Errno) × (r ≡ err e))
Result-cases (ok t) = inl refl
Result-cases (err e) = inr (e, refl)

pub kzalloc-SameTable : (st : Machine) (size : ℕ) → SameTable st (kzalloc st size).1
unfolding kzalloc
kzalloc-SameTable st size = elim (Bool-cases ((malloc st.heap size).0 == 0)) [
  | inl null ↦ rw (kzalloc, null) (refl, refl)
  | inr there ↦ rw (kzalloc, there) (refl, refl)
]

pub new_elf-SameTable : (st : Machine) (a size : ℕ) → SameTable st (new_elf st a size).1
unfolding new_elf
new_elf-SameTable st a size = kzalloc-SameTable st 8

allocate_tables-SameTable :
    (left i : ℕ) (st : Machine) (table : ℕ → ℕ) → SameTable st (allocate_tables left i st table).1
unfolding allocate_tables
allocate_tables-SameTable zero i st table = (refl, refl)
allocate_tables-SameTable (suc left) i st table =
    let (page_table, st1) = kzalloc st 4096 in
    let table1 = update table i page_table in
    then-SameTable st st1 (allocate_tables left (i + 1) st1 table1).1 (kzalloc-SameTable st 4096)
      (allocate_tables-SameTable left (i + 1) st1 table1)

new_directory_chunk-SameTable :
    (st : Machine) (flags : ℕ) → SameTable st (new_directory_chunk st flags).1
unfolding new_directory_chunk
new_directory_chunk-SameTable st flags =
    let st1 = (kzalloc st 4096).1 in
    let st2 = (allocate_tables entries_per_table 0 st1 (λ i. 0)).1 in
    let st3 = (kzalloc st2 4).1 in
    let (p, q) =
      then-SameTable st st2 st3
        (then-SameTable st st1 st2 (kzalloc-SameTable st 4096)
          (allocate_tables-SameTable entries_per_table 0 st1 (λ i. 0)))
        (kzalloc-SameTable st2 4) in
    (p, q)

malloc_flags-SameTable :
    (st : Machine) (a size flags : ℕ) → SameTable st (malloc_flags st a size flags).1
unfolding malloc_flags
malloc_flags-SameTable st a size flags =
    elim (Option-cases (get_next_allocation_index (st.processes a))) [
      | inl full ↦ rw (malloc_flags, full) (refl, refl)
      | inr (i, found) ↦
          let ptr = (malloc st.heap size).0 in
          elim (Result-cases
            (map_to st.words (directory_of st (st.processes a)) ptr ptr
              (align_address (add32 ptr size)) flags).0) [
                | inl done ↦ rw (malloc_flags, found, done) (refl, refl)
                | inr (e, failed) ↦ rw (malloc_flags, found, failed) (refl, refl)
              ]
    ]

process_free_from-SameTable :
    (st : Machine) (a address left i : ℕ) → SameTable st (process_free_from st a address left i)
unfolding process_free_from
process_free_from-SameTable st a address zero i = (refl, refl)
process_free_from-SameTable st a address (suc left) i =
    elim (Bool-cases ((st.processes a).allocations i == address)) [
      | inl here ↦ rw (process_free_from, here) (refl, refl)
      | inr other ↦
          rw (process_free_from, other) (process_free_from-SameTable st a address left (i + 1))
    ]

pub process_free-SameTable :
    (st : Machine) (a address : ℕ) → SameTable st (process_free st a address)
unfolding process_free
process_free-SameTable st a address = process_free_from-SameTable st a address max_allocations 0

pub process_malloc-SameTable :
    (st : Machine) (a size : ℕ) → SameTable st (process_malloc st a size).1
unfolding process_malloc
process_malloc-SameTable st a size = malloc_flags-SameTable st a size 7

delete_elf-SameTable : (st : Machine) (elf : ℕ) → SameTable st (delete_elf st elf)
unfolding delete_elf
delete_elf-SameTable st elf = if-SameTable st st _ (elf == 0) (refl, refl) (refl, refl)

task_free-SameTable : (st : Machine) (task : ℕ) → SameTable st (task_free st task)
unfolding task_free
task_free-SameTable st task = (refl, refl)

pub clean_up-SameTable : (st : Machine) (a : ℕ) → SameTable st (clean_up st a)
unfolding clean_up
clean_up-SameTable st a =
    let p = st.processes a in
    let st1 = if p.task == 0 then st else task_free st p.task in
    let st2 = delete_elf st1 p.elf in
    let st3 = if p.framebuffer == 0 then st2 else process_free st2 a p.framebuffer in
    let first =
      if-SameTable st st (task_free st p.task) (p.task == 0) (refl, refl)
        (task_free-SameTable st p.task) in
    let second = then-SameTable st st1 st2 first (delete_elf-SameTable st1 p.elf) in
    let third = if-SameTable st st2 (process_free st2 a p.framebuffer) (p.framebuffer == 0) second (
      then-SameTable st st2 (process_free st2 a p.framebuffer) second
        (process_free-SameTable st2 a p.framebuffer)) in
    if-SameTable st st3 (record st3 { heap = free st3.heap p.bss }) (p.bss == 0) third third

none_ne : {A : Type 0} {r : A} → none ≢ some r
none_ne e = cc

pub task_new-SameTable :
    (st st' : Machine) (a t : ℕ) → task_new st a ≡ some (t, st') → SameTable st st'
unfolding task_new
task_new-SameTable st st' a t h =
    let st1 = (kzalloc st 64).1 in
    let task = (kzalloc st 64).0 in
    let (chunk, st2) = new_directory_chunk st1 5 in
    let kept =
      then-SameTable st st1 st2 (kzalloc-SameTable st 64) (new_directory_chunk-SameTable st1 5) in
    elim (Option-cases (new_task st2.tasks task chunk a (st.processes a).elf_entry)) [
      | inl e ↦
          let panics : task_new st a ≡ none = rw (task_new, e) refl in
          absurd (none_ne (sym panics ∙ h))
      | inr ((u, tasks'), e) ↦
          let made : task_new st a ≡ some (u, record st2 { tasks = tasks' }) =
            rw (task_new, e) refl in
          subst (SameTable st) (ap (λ (q : ℕ × Machine). q.1) (eq_of_some (sym made ∙ h))) kept
    ]

segment_memory-SameTable :
    (st : Machine) (a : ℕ) (elf : ElfFile) (h : ProgramHeader)
    → SameTable st (segment_memory st a elf h).1
unfolding segment_memory
segment_memory-SameTable st a elf h = elim (Bool-cases (ltb h.p_filesz h.p_memsz)) [
  | inl longer ↦
      rw (segment_memory, longer) (malloc_flags-SameTable st a h.p_memsz (segment_flags h))
  | inr whole ↦ rw (segment_memory, whole) (refl, refl)
]

map_segments-SameTable :
    (left i : ℕ) (st : Machine) (a : ℕ) (elf : ElfFile)
    → SameTable st (map_segments left i st a elf).1
unfolding map_segments
map_segments-SameTable zero i st a elf = (refl, refl)
map_segments-SameTable (suc left) i st a elf =
    let h = get_program_header st.bytes elf i in
    let (physical_address, st1) = segment_memory st a elf h in
    let (res, words1) =
      map_to st1.words (directory_of st1 (st1.processes a)) (align_address_to_lower_page h.p_vaddr)
        (align_address_to_lower_page physical_address)
        (align_address (add32 physical_address h.p_memsz)) (segment_flags h) in
    let st2 : Machine = record st1 { words = words1 } in
    let kept : SameTable st st2 = segment_memory-SameTable st a elf h in
    elim (Result-cases res) [
      | inl done ↦
          rw (map_segments, done)
            (then-SameTable st st2 (map_segments left (i + 1) st2 a elf).1 kept
              (map_segments-SameTable left (i + 1) st2 a elf))
      | inr (e, failed) ↦ rw (map_segments, failed) kept
    ]

pub map_memory-SameTable : (st : Machine) (a : ℕ) → SameTable st (map_memory st a).1
unfolding map_memory
map_memory-SameTable st a =
    let elf = st.elf_files (st.processes a).elf in
    let segments = (get_header st.bytes elf).e_phnum in
    let kept = map_segments-SameTable segments 0 st a elf in
    elim (Result-cases (map_segments segments 0 st a elf).0) [
      | inl done ↦ rw (map_memory, done) kept
      | inr (e, failed) ↦ rw (map_memory, failed) kept
    ]
