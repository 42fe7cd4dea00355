-- ===== src/Tasks/Tests.antt =====
-- A list of three tasks, and the theorems on the list applied to it.
use git_os.Base.{ℕ, ◌≡◌, refl, Option, some, [], ◌∷◌, arith, zero, suc}
use git_os.Tasks.{Task, Tasks, Registers, zero_registers, new_task, list_remove, timers}
use git_os.Tasks.Rounds.{timers-round_robin}
use git_os.Tasks.Chain.{Forward, IsList, new_task-IsList}
use git_os.Tasks.Remove.{list_remove-Forward}

abbrev linked : ℕ → ℕ → Task
linked n p = record {
  page_directory = 1;
  registers = zero_registers;
  process = 1;
  next = n;
  prev = p;
}

-- The tasks 1, 2 and 3.
abbrev memory : ℕ → Task
memory (suc zero) = linked 2 0
memory (suc (suc zero)) = linked 3 1
memory (suc (suc (suc zero))) = linked 0 2
memory _ = linked 0 0

abbrev three : Tasks
three = record { tasks = memory; current_task = 1; task_head = 1; task_tail = 3 }

three-IsList : IsList three (1 ∷ 2 ∷ 3 ∷ [])
three-IsList = record {
  forward =
      (refl, (λ e. omega arith), (refl, (λ e. omega arith), (refl, (λ e. omega arith), refl)));
  backward = (refl, (refl, (refl, tt)));
  distinct = (((λ e. omega arith), ((λ e. omega arith), tt)), (((λ e. omega arith), tt), (tt, tt)));
  tail = refl;
}

new_task-IsList_example :
    (st' : Tasks) × ◌≡◌ {A = Option (ℕ × Tasks)} (new_task three 4 5 6 7) (some (4, st'))
    × IsList st' (1 ∷ 2 ∷ 3 ∷ 4 ∷ [])
new_task-IsList_example =
    new_task-IsList three (1 ∷ 2 ∷ 3 ∷ []) 4 5 6 7 three-IsList (λ e. omega arith)
      ((λ e. omega arith), ((λ e. omega arith), ((λ e. omega arith), tt))) (λ e. omega arith)

list_remove-Forward_example :
    Forward (list_remove three 2).tasks (list_remove three 2).task_head (1 ∷ 3 ∷ [])
list_remove-Forward_example = list_remove-Forward three (1 ∷ []) 2 (3 ∷ []) three-IsList

abbrev frame_at : ℕ → Registers
frame_at ip = record zero_registers { ip = ip }

-- The first task is interrupted at 5 and runs again after the other two.
timers-round_robin_example :
    (st' : Tasks) × ◌≡◌ {A = Option (Registers × Tasks)}
      (timers (frame_at 5 ∷ frame_at 6 ∷ frame_at 7 ∷ []) zero_registers three)
      (some (frame_at 5, st'))
    × (st'.current_task ≡ 1)
timers-round_robin_example =
    (timers-round_robin three (1 ∷ 2 ∷ 3 ∷ []) 0 zero_registers three-IsList (omega arith) refl).1
      (frame_at 5) (frame_at 6 ∷ frame_at 7 ∷ []) refl
