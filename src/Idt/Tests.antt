-- ===== src/Idt/Tests.antt =====
-- The theorems on gates and handlers at concrete interrupts.
use git_os.Base.{ℕ, update}
use git_os.Tasks.{Tasks, Task, zero_registers}

abbrev idle : Task
idle = record { page_directory = 1; registers = zero_registers; process = 1; next = 0; prev = 0 }

abbrev one_task : Tasks
one_task = record { tasks = λ a. idle; current_task = 1; task_head = 1; task_tail = 1 }

-- The handler moves on to task 2.
abbrev call : ℕ → Tasks → Tasks
call handler st = record st { current_task = 2 }

abbrev saved : Tasks
saved = record one_task {
  tasks = update (λ a. idle) 1 (record idle { registers = zero_registers });
}
