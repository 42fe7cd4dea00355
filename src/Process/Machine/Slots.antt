-- ===== src/Process/Machine/Slots.antt =====
-- The table of processes, src/kernel/task/process.cpp: what the end of a process does to it.
use git_os.Base.{
  ℕ, ◌<◌, ◌≡◌, ◌≢◌, ◌⊎◌, ◌↔◌, refl, sym, ap, ◌∙◌, arith, true, ◌==◌, if◌then◌else◌, Bool-cases,
  Option-cases, inl, inr, none, some, eq_of_some,
}
use mathlib.Core.Path.{subst}
use git_os.Process.Machine.{
  Machine, max_processes, clear_slots, first_process, leave_slots, release, process_terminate,
  task_free, delete_elf,
}
use git_os.Process.Machine.Loops.{clear_slots_lem, first_process-some, first_process-none}

-- The current process is one of the table.
abbrev pub IsCurrent : Machine → Type 0
IsCurrent st =
    (i : ℕ) × (i < max_processes) × (st.slots i ≡ st.current_process) × (st.current_process ≢ 0)

-- What is left of the table when a process has ended.
pub record Left (st : Machine) (a : ℕ) (st' : Machine) : Type 0 where
  pub cleared :
      (j : ℕ) → j < max_processes → st'.slots j ≡ (if st.slots j == a then 0 else st.slots j)
  pub current : IsCurrent st'
  pub other : st'.current_process ≢ a
  pub stays : st.current_process ≢ a → st'.current_process ≡ st.current_process

delete_elf-slots :
    (st : Machine) (elf : ℕ)
    → ((delete_elf st elf).slots ≡ st.slots)
      × ((delete_elf st elf).current_process ≡ st.current_process)
unfolding delete_elf
delete_elf-slots st elf = elim (Bool-cases (elf == 0)) [
  | inl none_there ↦ rw none_there (refl, refl)
  | inr there ↦ rw there (refl, refl)
]

release-slots :
    (st : Machine) (a : ℕ)
    → ((release st a).slots ≡ st.slots) × ((release st a).current_process ≡ st.current_process)
unfolding release task_free
release-slots st a = delete_elf-slots _ (st.processes a).elf

none_ne_machine : {st : Machine} → none ≢ some st
none_ne_machine e = cc

pub same_table-Left :
    (st : Machine) (a : ℕ) (s t : Machine)
    → t.slots ≡ s.slots
    → t.current_process ≡ s.current_process
    → Left st a s
    → Left st a t
same_table-Left st a s t e f l =
    let (i, inside, q, taken) = l.current in
    record {
      cleared = λ j h. ap (λ (slots : ℕ → ℕ). slots j) e ∙ l.cleared j h;
      current =
          (i, inside, ap (λ (slots : ℕ → ℕ). slots i) e ∙ q ∙ sym f, (λ z. taken (sym f ∙ z)));
      other = λ z. l.other (sym f ∙ z);
      stays = λ n. f ∙ l.stays n;
    }

module _ (st : Machine) (a : ℕ) (there : a ≢ 0) where
  -- The table when the process has left it.
  abbrev slots' : ℕ → ℕ
  slots' = clear_slots a max_processes 0 st.slots

  cleared' : (j : ℕ) → j < max_processes → slots' j ≡ (if st.slots j == a then 0 else st.slots j)
  cleared' j h = clear_slots_lem a max_processes 0 st.slots j (omega arith) (omega arith) there

  leave-Left : IsCurrent st → (leave_slots st a).current_process ≢ a → Left st a (leave_slots st a)
  unfolding leave_slots
  leave-Left current ne = elim (Bool-cases (st.current_process == a)) [
    | inl ends ↦ elim (Option-cases (first_process max_processes 0 slots')) [
      | inl alone ↦ absurd (ne (rw (ends, alone) refl))
      | inr (p, found) ↦
          let (j, le, lt, e, taken) = first_process-some max_processes 0 slots' p found in
          let now : (leave_slots st a).current_process ≡ p = rw (leave_slots, ends, found) refl in
          record {
            cleared = cleared';
            current = (j, omega arith, e ∙ sym now, (λ z. taken (sym now ∙ z)));
            other = ne;
            stays = λ n. absurd (n (ground arith));
          }
    ]
    | inr goes_on ↦
        let (i, inside, e, taken) = current in
        let now : (leave_slots st a).current_process ≡ st.current_process =
          rw (leave_slots, goes_on) refl in
        record {
          cleared = cleared';
          current = (
            i,
            inside,
            cleared' i inside ∙ ground (arith, e) ∙ sym now,
            (λ z. taken (sym now ∙ z)),
          );
          other = ne;
          stays = λ n. now;
        }
  ]

  -- The end of a process that is there, while the current process is one of the table: unless it is the
  -- kernel's panic, the slots of the process are empty, the others are as they were, and the
  -- current process is again one of the table and another one; it has changed only if it was the one
  -- that ended.
  pub process_terminate-Left :
      (st' : Machine) → IsCurrent st → process_terminate st a ≡ some st' → Left st a st'
  unfolding process_terminate
  process_terminate-Left st' current h =
      elim (Bool-cases ((leave_slots st a).current_process == a)) [
        | inl panics ↦ absurd (none_ne_machine (sym (rw (process_terminate, panics) refl) ∙ h))
        | inr goes_on ↦
            let made : release (leave_slots st a) a ≡ st' =
              eq_of_some (sym (rw (process_terminate, goes_on) refl) ∙ h) in
            let (e, f) = release-slots (leave_slots st a) a in
            subst (Left st a) made (
              same_table-Left st a (leave_slots st a) (release (leave_slots st a) a) e f
                (leave-Left current (ground arith)))
      ]

  current_after : ℕ
  current_after = (leave_slots st a).current_process

  panics_if : (current_after ≡ a) → process_terminate st a ≡ none
  unfolding process_terminate current_after
  panics_if e =
      let here : (current_after == a) ≡ true = ground arith in rw (process_terminate, here) refl

  -- Where the process is the last of the table, the current process is not changed.
  last_one :
      st.current_process ≡ a
      → ((j : ℕ) → j < max_processes → (st.slots j ≡ 0) ⊎ (st.slots j ≡ a))
      → current_after ≡ a
  unfolding leave_slots current_after
  last_one e only =
      let ends : (st.current_process == a) ≡ true = ground arith in
      elim (Option-cases (first_process max_processes 0 slots')) [
        | inl alone ↦ rw (leave_slots, ends, alone) refl
        | inr (p, found) ↦
            let (j, le, lt, q, taken) = first_process-some max_processes 0 slots' p found in
            absurd (taken (sym q ∙ cleared' j (omega arith) ∙ emptied j (only j (omega arith))))
      ]
    where
      emptied :
          (j : ℕ)
          → (st.slots j ≡ 0) ⊎ (st.slots j ≡ a)
          → (if st.slots j == a then 0 else st.slots j) ≡ 0
      emptied j (inl z) = ground arith
      emptied j (inr z) = ground arith

  alone_in_table :
      current_after ≡ a
      → (st.current_process ≡ a)
        × ((j : ℕ) → j < max_processes → (st.slots j ≡ 0) ⊎ (st.slots j ≡ a))
  unfolding leave_slots current_after
  alone_in_table e = elim (Bool-cases (st.current_process == a)) [
    | inr goes_on ↦
        let stays : current_after ≡ st.current_process = rw (leave_slots, goes_on) refl in
        absurd (ground (arith, sym stays ∙ e))
    | inl ends ↦ elim (Option-cases (first_process max_processes 0 slots')) [
      | inl alone ↦ (
        ground arith,
        λ j h. only j (
            sym (cleared' j h)
            ∙ first_process-none max_processes 0 slots' alone j (omega arith) (omega arith)),
      )
      | inr (p, found) ↦
          let (j, le, lt, q, taken) = first_process-some max_processes 0 slots' p found in
          let now : current_after ≡ p = rw (leave_slots, ends, found) refl in
          absurd (taken (was_cleared j p (omega arith) q (sym now ∙ e)))
    ]
  ]
    where
      only :
          (j : ℕ)
          → (if st.slots j == a then 0 else st.slots j) ≡ 0
          → (st.slots j ≡ 0) ⊎ (st.slots j ≡ a)
      only j z = elim (Bool-cases (st.slots j == a)) [
        | inl same ↦ inr (ground arith)
        | inr other ↦ inl (ground arith)
      ]

      was_cleared : (j p : ℕ) → j < max_processes → slots' j ≡ p → p ≡ a → p ≡ 0
      was_cleared j p h q z = ground (arith, cleared' j h)

  -- The end of a process is a panic exactly where the process is the current one and the table holds no
  -- other.
  pub process_terminate_panics : (process_terminate st a ≡ none) ↔ (
      (st.current_process ≡ a)
      × ((j : ℕ) → j < max_processes → (st.slots j ≡ 0) ⊎ (st.slots j ≡ a)))
  unfolding process_terminate current_after
  process_terminate_panics = (panicked, λ h. panics_if (last_one h.0 h.1))
    where
      panicked :
          process_terminate st a ≡ none
          → (st.current_process ≡ a)
            × ((j : ℕ) → j < max_processes → (st.slots j ≡ 0) ⊎ (st.slots j ≡ a))
      panicked h = elim (Bool-cases ((leave_slots st a).current_process == a)) [
        | inl here ↦ alone_in_table (ground arith)
        | inr goes_on ↦ absurd (
            none_ne_machine {st = release (leave_slots st a) a}
              (sym h ∙ rw (process_terminate, goes_on) refl))
      ]
