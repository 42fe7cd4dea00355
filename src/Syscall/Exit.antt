-- ===== src/Syscall/Exit.antt =====
-- What `sys$exit` of src/kernel/syscall/syscall.cpp ends.
use git_os.Base.{
  ℕ, ◌<◌, ◌≡◌, ◌≢◌, refl, sym, ap, ◌∙◌, arith, ◌==◌, if◌then◌else◌, Bool-cases, Option-cases, inl,
  inr, none, some, eq_of_some,
}
use git_os.Tasks.{task_switch}
use git_os.Process.Machine.{Machine, max_processes, process_terminate}
use git_os.Process.Machine.Slots.{IsCurrent, Left, process_terminate-Left, same_table-Left}
use git_os.Syscall.{current, peek_stack}
use git_os.Syscall.Handlers.{exit}

none_ne : {r : ℕ × Machine} → none ≢ some r
none_ne e = cc

-- The state once the current process is another one and its task goes on.
abbrev goes_on : Machine → Machine
goes_on st = record st {
  tasks = record st.tasks { current_task = (st.processes st.current_process).task };
}

exit-goes_on :
    (st st1 st' : Machine) (r return_code : ℕ)
    → peek_stack st 0 ≡ some return_code
    → process_terminate st st.current_process ≡ some st1
    → exit st ≡ some (r, st')
    → goes_on st1 ≡ st'
unfolding exit task_switch
exit-goes_on st st1 st' r return_code read ended h =
    elim (Bool-cases ((st1.processes st1.current_process).task == 0)) [
      | inl null ↦
          let panics : exit st ≡ none = rw (exit, read, ended, null) refl in
          absurd (none_ne (sym panics ∙ h))
      | inr there ↦
          let done : exit st ≡ some (0, goes_on st1) = rw (exit, read, ended, there) refl in
          ap (λ (q : ℕ × Machine). q.1) (eq_of_some (sym done ∙ h))
    ]

-- `sys$exit` ends the current process, and not the process of the task that calls: where the current
-- process is one of the table and the call is no panic and no page fault, the slots of the current process are empty
-- behind it, and those of the calling task's process, if it is another, are as they were. The current
-- process is then another one of the table, and it is its task that goes on.
pub exit-Left :
    (st st' : Machine) (r : ℕ)
    → IsCurrent st
    → exit st ≡ some (r, st')
    → Left st st.current_process st'
      × (st'.tasks.current_task ≡ (st'.processes st'.current_process).task)
      × (current st ≢ st.current_process
          → (j : ℕ) → j < max_processes
          → st.slots j ≡ current st
          → st'.slots j ≡ current st)
unfolding exit
exit-Left st st' r is_current h = elim (Option-cases (peek_stack st 0)) [
  | inl faults ↦
      let nothing : exit st ≡ none = rw (exit, faults) refl in absurd (none_ne (sym nothing ∙ h))
  | inr (code, read) ↦ elim (Option-cases (process_terminate st st.current_process)) [
    | inl panics ↦
        let nothing : exit st ≡ none = rw (exit, read, panics) refl in
        absurd (none_ne (sym nothing ∙ h))
    | inr (st1, ended) ↦
        let (_, _, _, there) = is_current in
        let left = process_terminate-Left st st.current_process there st1 is_current ended in
        let same = exit-goes_on st st1 st' r code read ended h in
        let left' =
          same_table-Left st st.current_process st1 st' (ap (λ (s : Machine). s.slots) (sym same))
            (ap (λ (s : Machine). s.current_process) (sym same)) left in
        (
          left',
          ap (λ (s : Machine). s.tasks.current_task) (sym same)
              ∙ ap (λ (s : Machine). (s.processes s.current_process).task) same,
          λ other j inside e. left'.cleared j inside ∙ kept other j e,
        )
  ]
]
  where
    kept :
        current st ≢ st.current_process
        → (j : ℕ) → st.slots j ≡ current st
        → (if st.slots j == st.current_process then 0 else st.slots j) ≡ current st
    kept other j e = ground arith
