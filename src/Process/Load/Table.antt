-- ===== src/Process/Load/Table.antt =====
-- The table of processes behind `process_load` of src/kernel/task/process.cpp.
use git_os.Base.{
  ℕ, ◌-◌, ◌<◌, ◌≡◌, ◌≢◌, ◌⊎◌, refl, sym, ap, ◌∙◌, arith, not, ◌==◌, Bool-cases, Option-cases, inl,
  inr, Option, none, some, Result, ok, err, Errno, eistkn, enomem, eq_of_some, List, update, take,
}
use mathlib.Core.Path.{subst}
use git_os.Process.Machine.{Machine, max_processes, get_free_slot, process_get, with_process}
use git_os.Process.Machine.Allocate.{free_place-first}
use git_os.Process.Segments.{kzalloc, task_new, map_memory, stack_size}
use git_os.Process.Load.{
  Kernel, load_data, load_task, enter_slot, clean_up, load_for_slot, process_load,
}
use git_os.Process.Load.Keeps.{
  SameTable, then-SameTable, Result-cases, kzalloc-SameTable, clean_up-SameTable,
  task_new-SameTable, map_memory-SameTable, process_malloc-SameTable,
}
use git_os.Process.Load.Reading.{KeepsResult, load_data-KeepsResult}

none_ne : {A : Type 0} {r : A} → none ≢ some r
none_ne e = cc

-- What a step leaves: the same table, or, where it succeeds, one with the process in its slot.
data Outcome (st : Machine) (a slot : ℕ) (st' : Machine) : Result (Unit {0}) → Type 0 where
  failed : (e : Errno) → SameTable st st' → Outcome st a slot st' (err e)
  entered :
      st'.slots ≡ update st.slots slot a
      → st'.current_process ≡ st.current_process
      → Outcome st a slot st' (ok tt)

-- The same of a result that may be missing.
abbrev Ends : Machine → ℕ → ℕ → Option (Result (Unit {0}) × Machine) → Type 0
Ends st a slot none = Unit {0}
Ends st a slot (some (res, st')) = Outcome st a slot st' res

enter_slot-entered :
    (framebuffer_size : ℕ) (st : Machine) (a slot : ℕ)
    → Outcome st a slot (enter_slot framebuffer_size st a slot) (ok tt)
unfolding enter_slot
enter_slot-entered framebuffer_size st a slot =
    let (p, q) =
      process_malloc-SameTable (record st { slots = update st.slots slot a }) a framebuffer_size in
    entered p q

Outcome_trans :
    (st st1 st' : Machine) (a slot : ℕ) (res : Result (Unit {0}))
    → SameTable st st1
    → Outcome st1 a slot st' res
    → Outcome st a slot st' res
Outcome_trans st st1 st' a slot res p (failed e q) = failed e (then-SameTable st st1 st' p q)
Outcome_trans st st1 st' a slot res p (entered q r) =
    entered (q ∙ ap (λ s. update s slot a) p.0) (r ∙ p.1)

load_task-Ends :
    (framebuffer_size : ℕ) (st : Machine) (filename : List ℕ) (a slot : ℕ)
    → Ends st a slot (load_task framebuffer_size st filename a slot)
unfolding load_task
load_task-Ends framebuffer_size st filename a slot =
    let (stack, st1) = kzalloc st stack_size in
    let st2 : Machine = with_process st1 a (record (st1.processes a) {
      filename = take (1024 - 1) filename;
      stack = stack;
      id = slot;
    }) in
    let kept : SameTable st st2 = kzalloc-SameTable st stack_size in
    let stops : SameTable st (clean_up st1 a) =
      then-SameTable st st1 (clean_up st1 a) (kzalloc-SameTable st stack_size)
        (clean_up-SameTable st1 a) in
    elim (Bool-cases (stack == 0)) [
      | inl null ↦ rw (load_task, null) (failed enomem stops)
      | inr there ↦ elim (Option-cases (task_new st2 a)) [
        | inl panics ↦ rw (load_task, there, panics) tt
        | inr ((task, st3), made) ↦
            let st4 = with_process st3 a (record (st3.processes a) { task = task }) in
            let st5 = (map_memory st4 a).1 in
            let same : SameTable st st5 =
              then-SameTable st st4 st5
                (then-SameTable st st2 st4 kept (task_new-SameTable st2 st3 a task made))
                (map_memory-SameTable st4 a) in
            elim (Result-cases (map_memory st4 a).0) [
              | inl done ↦
                  rw (load_task, there, made, done)
                    (Outcome_trans st st5 (enter_slot framebuffer_size st5 a slot) a slot (ok tt)
                      same (enter_slot-entered framebuffer_size st5 a slot))
              | inr (e, refused) ↦
                  rw (load_task, there, made, refused)
                    (failed e
                      (then-SameTable st st5 (clean_up st5 a) same (clean_up-SameTable st5 a)))
            ]
      ]
    ]

module _ {W P D : Type 0} where
  abbrev EndsIn : Machine → ℕ → ℕ → Option (Result (Unit {0}) × Kernel W P D) → Type 0
  EndsIn st a slot none = Unit {0}
  EndsIn st a slot (some (res, k')) = Outcome st a slot k'.machine res

  load_for_slot-EndsIn :
      (framebuffer_size : ℕ) (k : Kernel W P D) (path : Result (List (List ℕ))) (filename : List ℕ)
      (a slot : ℕ)
      → EndsIn k.machine a slot (load_for_slot framebuffer_size k path filename a slot)
  unfolding load_for_slot
  load_for_slot-EndsIn framebuffer_size k path filename a slot =
      elim (Bool-cases (not (process_get k.machine slot == 0))) [
        | inl used ↦ rw (load_for_slot, used) (failed eistkn (clean_up-SameTable k.machine a))
        | inr empty ↦ elim (Option-cases (load_data k path a)) [
          | inl panics ↦ rw (load_for_slot, empty, panics) tt
          | inr ((res, k1), e) ↦
              rw (load_for_slot, empty, e)
                (went_on res k1 (subst (KeepsResult k.machine) e (load_data-KeepsResult k path a)))
        ]
      ]
    where
      started :
          (k1 : Kernel W P D) (r : Option (Result (Unit {0}) × Machine))
          → SameTable k.machine k1.machine
          → Ends k1.machine a slot r
          → EndsIn k.machine a slot
              (elim r [ none ↦ none | some (res1, st) ↦ some (res1, record k1 { machine = st }) ])
      started k1 none p o = tt
      started k1 (some (res1, st)) p o = Outcome_trans k.machine k1.machine st a slot res1 p o

      went_on :
          (res : Result (Unit {0})) (k1 : Kernel W P D)
          → SameTable k.machine k1.machine
          → EndsIn k.machine a slot (elim res [
            | err e ↦ some (err e, record k1 { machine = clean_up k1.machine a })
            | ok _ ↦ elim (load_task framebuffer_size k1.machine filename a slot) [
              | none ↦ none
              | some (res1, st) ↦ some (res1, record k1 { machine = st })
            ]
          ])
      went_on (err e) k1 p = failed e (
          then-SameTable k.machine k1.machine (clean_up k1.machine a) p
            (clean_up-SameTable k1.machine a))
      went_on (ok t) k1 p =
          started k1 (load_task framebuffer_size k1.machine filename a slot) p
            (load_task-Ends framebuffer_size k1.machine filename a slot)

  told :
      (k k' : Kernel W P D) (a slot : ℕ) (res : Result (Unit {0}))
      → k.machine.slots slot ≡ 0
      → slot < max_processes
      → Outcome k.machine a slot k'.machine res
      → (k'.machine.current_process ≡ k.machine.current_process)
        × (((e : Errno) × (res ≡ err e) × (k'.machine.slots ≡ k.machine.slots))
            ⊎ ((slot : ℕ) × (res ≡ ok tt)
                × (slot < max_processes)
                × (k.machine.slots slot ≡ 0)
                × (k'.machine.slots ≡ update k.machine.slots slot a)))
  told k k' a slot res empty inside (failed e p) = (p.1, inl (e, refl, p.0))
  told k k' a slot res empty inside (entered p q) = (q, inr (slot, refl, inside, empty, p))

  -- What `process_load` leaves of the table of processes, however it ends short of a panic: where it
  -- succeeds, the process stands in a slot that was free, and the other slots are as they were; where it
  -- fails, at whatever step, all of them are. The current process stays.
  pub process_load-slots :
      (framebuffer_size : ℕ) (k k' : Kernel W P D) (path : Result (List (List ℕ)))
      (filename : List ℕ) (a : ℕ) (res : Result (Unit {0}))
      → process_load framebuffer_size k path filename a ≡ some (res, k')
      → (k'.machine.current_process ≡ k.machine.current_process)
        × (((e : Errno) × (res ≡ err e) × (k'.machine.slots ≡ k.machine.slots))
            ⊎ ((slot : ℕ) × (res ≡ ok tt)
                × (slot < max_processes)
                × (k.machine.slots slot ≡ 0)
                × (k'.machine.slots ≡ update k.machine.slots slot a)))
  unfolding process_load get_free_slot
  process_load-slots framebuffer_size k k' path filename a res h =
      elim (Option-cases (get_free_slot k.machine)) [
        | inl full ↦
            let refused : process_load framebuffer_size k path filename a ≡ some (err eistkn, k) =
              rw (process_load, full) refl in
            let q = eq_of_some (sym refused ∙ h) in
            (
              sym (ap (λ (r : Result (Unit {0}) × Kernel W P D). r.1.machine.current_process) q),
              inl (
                eistkn,
                sym (ap (λ (r : Result (Unit {0}) × Kernel W P D). r.0) q),
                sym (ap (λ (r : Result (Unit {0}) × Kernel W P D). r.1.machine.slots) q),
              ),
            )
        | inr (slot, found) ↦
            let (empty, _, inside) = free_place-first k.machine.slots max_processes 0 slot found in
            let goes : process_load framebuffer_size k path filename a
                ≡ load_for_slot framebuffer_size k path filename a slot =
              rw (process_load, found) refl in
            told k k' a slot res empty (omega arith) (
              subst (EndsIn k.machine a slot) (sym goes ∙ h)
                (load_for_slot-EndsIn framebuffer_size k path filename a slot))
      ]
