-- ===== src/Process/Machine/Allocate.antt =====
-- The memory that a process asks for, src/kernel/task/process.cpp.
use git_os.Base.{
  ℕ, zero, suc, ◌+◌, ◌≤◌, ◌<◌, ◌≡◌, ◌≢◌, refl, sym, ap, ◌∙◌, arith, true, false, ◌==◌, Bool-cases,
  Option-cases, inl, inr, none, some, Result, ok, err, Errno, ◌⊎◌, eq_of_some, update, update_self,
  update_ne, add32,
}
use git_os.Heap.{malloc, free}
use git_os.Heap.Search.{AllFree}
use git_os.Heap.Malloc.{IsTable, blocks_of}
use git_os.Heap.RoundTrip.{IsPlaced, free-malloc}
use git_os.Paging.{map_to, align_address}
use git_os.Process.Machine.{
  Machine, Process, max_allocations, free_place, get_next_allocation_index, with_process,
  directory_of, malloc_flags, process_malloc, process_free_from, process_free,
}

none_ne : {k : ℕ} → none ≢ some k
none_ne e = cc

-- The place that is found is the first null pointer.
pub free_place-first :
    (table : ℕ → ℕ) (left i j : ℕ)
    → free_place table left i ≡ some j
    → (table j ≡ 0) × (i ≤ j) × (j < i + left)
unfolding free_place
free_place-first table zero i j h = absurd (none_ne h)
free_place-first table (suc left) i j h = elim (Bool-cases (table i == 0)) [
  | inl here ↦
      let e : i ≡ j = eq_of_some (sym (rw (free_place, here) refl) ∙ h) in
      (ap table (sym e) ∙ ground arith, omega arith, omega arith)
  | inr taken ↦
      let (z, le, lt) =
        free_place-first table left (i + 1) j (sym (rw (free_place, taken) refl) ∙ h) in
      (z, omega arith, omega arith)
]

-- What `process_free` does at the place that it finds.
abbrev freed_at : Machine → ℕ → ℕ → Machine
freed_at st a i =
    record (with_process st a
      (record (st.processes a) { allocations = update (st.processes a).allocations i 0 })) {
        heap = free st.heap ((st.processes a).allocations i);
      }

process_free_from-found :
    (st : Machine) (a address left i j : ℕ)
    → i ≤ j
    → j < i + left
    → (st.processes a).allocations j ≡ address
    → ((k : ℕ) → k < j → (st.processes a).allocations k ≢ address)
    → process_free_from st a address left i ≡ freed_at st a j
unfolding process_free_from
process_free_from-found st a address zero i j le lt e others = absurd (omega arith)
process_free_from-found st a address (suc left) i j le lt e others = elim (Bool-cases (i == j)) [
  | inl here ↦
      let same : i ≡ j = ground arith in
      let hit : ((st.processes a).allocations i == address) ≡ true =
        ground (arith, ap (st.processes a).allocations same) in
      rw (process_free_from, hit) (ap (freed_at st a) same)
  | inr there ↦
      let miss : ((st.processes a).allocations i == address) ≡ false =
        ground (arith, others i (ground arith)) in
      rw (process_free_from, miss)
        (process_free_from-found st a address left (i + 1) j (ground arith) (omega arith) e others)
]

-- A process whose memory was given to it at a place of its allocations.
abbrev pub given : Machine → ℕ → ℕ → ℕ → ℕ → Machine
given st a size flags i =
    let process = st.processes a in
    let ptr = (malloc st.heap size).0 in
    record (with_process st a (record process { allocations = update process.allocations i ptr })) {
      heap = (malloc st.heap size).1;
      words =
          (map_to st.words (directory_of st process) ptr ptr (align_address (add32 ptr size))
            flags).1;
    }

Result-cases : (r : Result (Unit {0})) → (r ≡ ok tt) ⊎ ((e : Errno) × (r ≡ err e))
Result-cases (ok t) = inl refl
Result-cases (err e) = inr (e, refl)

module _ (st : Machine) (a size flags : ℕ) where
  abbrev pub mapped : Result (Unit {0})
  mapped =
      let ptr = (malloc st.heap size).0 in
      (map_to st.words (directory_of st (st.processes a)) ptr ptr (align_address (add32 ptr size))
        flags).0

  pub malloc_flags-mapped :
      (i : ℕ)
      → get_next_allocation_index (st.processes a) ≡ some i
      → mapped ≡ ok tt
      → malloc_flags st a size flags ≡ ((malloc st.heap size).0, given st a size flags i)
  unfolding malloc_flags
  malloc_flags-mapped i found done = rw (malloc_flags, found, done) refl

  -- An address other than 0 is what the heap gave, and stands among the allocations.
  malloc_flags-given :
      (malloc_flags st a size flags).0 ≢ 0
      → (i : ℕ) × (i < max_allocations)
        × ((st.processes a).allocations i ≡ 0)
        × (malloc_flags st a size flags ≡ ((malloc st.heap size).0, given st a size flags i))
  unfolding malloc_flags get_next_allocation_index
  malloc_flags-given ne = elim (Option-cases (get_next_allocation_index (st.processes a))) [
    | inl full ↦ absurd (ne (rw (malloc_flags, full) refl))
    | inr (i, found) ↦
        let (empty, le, lt) =
          free_place-first (st.processes a).allocations max_allocations 0 i found in
        elim (Result-cases mapped) [
          | inl done ↦ (i, omega arith, empty, malloc_flags-mapped i found done)
          | inr (e, failed) ↦ absurd (ne (rw (malloc_flags, found, failed) refl))
        ]
  ]

update_back : (f : ℕ → ℕ) (i v k : ℕ) → f i ≡ 0 → update (update f i v) i 0 k ≡ f k
update_back f i v k e = ground (arith, e)

-- What `process_free` leaves of such a process.
abbrev returned : Machine → ℕ → ℕ → ℕ → ℕ → Machine
returned st a size flags i =
    let g = given st a size flags i in
    record (with_process g a
      (record (g.processes a) { allocations = update (g.processes a).allocations i 0 })) {
        heap = free (malloc st.heap size).1 (malloc st.heap size).0;
      }

free-given :
    (st : Machine) (a size flags i : ℕ)
    → i < max_allocations
    → ((k : ℕ) → (st.processes a).allocations k ≢ (malloc st.heap size).0)
    → (st.processes a).allocations i ≡ 0
    → (process_free (given st a size flags i) a (malloc st.heap size).0
        ≡ returned st a size flags i)
      × ((k : ℕ)
          → ((returned st a size flags i).processes a).allocations k
            ≡ (st.processes a).allocations k)
unfolding process_free
free-given st a size flags i inside fresh empty =
    let al = (st.processes a).allocations in
    let ptr = (malloc st.heap size).0 in
    let g = given st a size flags i in
    let all_g : (g.processes a).allocations ≡ update al i ptr =
      ap (λ (p : Process). p.allocations) (update_self st.processes a _) in
    let here : (g.processes a).allocations i ≡ ptr =
      ap (λ (f : ℕ → ℕ). f i) all_g ∙ update_self al i ptr in
    let others : (k : ℕ) → k < i → (g.processes a).allocations k ≢ ptr = λ k lt z.
      fresh k
        (sym (update_ne al i k ptr (omega arith)) ∙ sym (ap (λ (f : ℕ → ℕ). f k) all_g) ∙ z) in
    (
      process_free_from-found g a ptr max_allocations 0 i (omega arith) (omega arith) here others
          ∙ ap
              (λ (q : ℕ).
                let t : Machine = with_process g a (record (g.processes a) {
                  allocations = update (g.processes a).allocations i 0;
                }) in
                let u : Machine = record t { heap = free (malloc st.heap size).1 q } in u)
              here,
      λ k.
          ap (λ (p : Process). p.allocations k) (update_self g.processes a _)
          ∙ ap (λ (f : ℕ → ℕ). update f i 0 k) all_g
          ∙ update_back al i ptr k empty,
    )

-- The memory that `process_malloc` gives is given back by `process_free`: the table of the heap is the
-- same again byte for byte, and so are the allocations of the process. The heap must be well formed
-- with enough free blocks in a row, and the address must not be among the allocations already.
pub process_free-process_malloc :
    (st : Machine) (a size run : ℕ)
    → IsTable st.heap
    → IsPlaced st.heap
    → 0 < blocks_of size
    → run + blocks_of size ≤ st.heap.total
    → AllFree st.heap.entries run (run + blocks_of size)
    → (process_malloc st a size).0 ≢ 0
    → ((k : ℕ) → (st.processes a).allocations k ≢ (process_malloc st a size).0)
    → let (ptr, st') = process_malloc st a size in
      ((j : ℕ) → (process_free st' a ptr).heap.entries j ≡ st.heap.entries j)
      × ((k : ℕ)
          → ((process_free st' a ptr).processes a).allocations k ≡ (st.processes a).allocations k)
unfolding process_malloc process_free
process_free-process_malloc st a size run table placed pos fits clear ne fresh =
    let (i, inside, empty, made) = malloc_flags-given st a size 7 ne in
    let ptr = (malloc st.heap size).0 in
    let address = ap (λ (q : ℕ × Machine). q.0) made in
    let (e, same) =
      free-given st a size 7 i (omega arith) (λ k z. fresh k (z ∙ sym address)) empty in
    rw (made, e) ((λ j. free-malloc st.heap size run table placed pos fits clear j), same)
