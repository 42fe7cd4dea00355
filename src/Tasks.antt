-- ===== src/Tasks.antt =====
-- The list of tasks, src/kernel/task/task.c. The tasks are a function from addresses, and the address
-- 0 is the null pointer. A result that is missing is a kernel panic or an access through it. What the
-- allocators return is an argument.
mod Chain
mod Remove
mod Ring
mod Rounds
mod Tests
use git_os.Base.{
  ℕ, zero, suc, ◌+◌, ◌-◌, ◌<◌, Bool, true, false, ◌&&◌, ◌||◌, not, Option, none, some, List, [],
  ◌∷◌, ◌++◌, ltb, leb, ◌==◌, if◌then◌else◌, update,
}
use mathlib.Core.Option

-- `struct registers`
pub record Registers : Type 0 where
  pub edi : ℕ
  pub esi : ℕ
  pub ebp : ℕ
  pub ebx : ℕ
  pub edx : ℕ
  pub ecx : ℕ
  pub eax : ℕ
  pub ip : ℕ
  pub cs : ℕ
  pub flags : ℕ
  pub esp : ℕ
  pub ss : ℕ

-- `struct task`
pub record Task : Type 0 where
  pub page_directory : ℕ
  pub registers : Registers
  pub process : ℕ
  pub next : ℕ
  pub prev : ℕ

pub record Tasks : Type 0 where
  pub tasks : ℕ → Task
  pub current_task : ℕ
  pub task_head : ℕ
  pub task_tail : ℕ

abbrev pub zero_registers : Registers
zero_registers = record {
  edi = 0;
  esi = 0;
  ebp = 0;
  ebx = 0;
  edx = 0;
  ecx = 0;
  eax = 0;
  ip = 0;
  cs = 0;
  flags = 0;
  esp = 0;
  ss = 0;
}

abbrev pub with_next : (ℕ → Task) → ℕ → ℕ → ℕ → Task
with_next tasks a n = update tasks a (record (tasks a) { next = n })

abbrev pub with_prev : (ℕ → Task) → ℕ → ℕ → ℕ → Task
with_prev tasks a p = update tasks a (record (tasks a) { prev = p })

-- `task_current_save_state`: the frame of an interrupt has the same registers, and all are copied.
unfoldable pub current_save_state : Tasks → Registers → Option Tasks
current_save_state st frame =
    if st.current_task == 0
    then none
    else some (record st {
      tasks =
          update st.tasks st.current_task (record (st.tasks st.current_task) { registers = frame });
    })

-- `task_get_next`
pub get_next : Tasks → Option ℕ
get_next st =
    if st.current_task == 0
    then none
    else if (st.tasks st.current_task).next == 0
    then some st.task_head
    else some (st.tasks st.current_task).next

-- `task_list_remove`
pub list_remove : Tasks → ℕ → Tasks
list_remove st t =
    let task = st.tasks t in
    let tasks' = if task.prev == 0 then st.tasks else with_next st.tasks task.prev task.next in
    let head = if t == st.task_head then task.next else st.task_head in
    let tail = if t == st.task_tail then task.prev else st.task_tail in
    let following = if (tasks' t).next == 0 then head else (tasks' t).next in
    record {
      tasks = tasks';
      current_task = if t == st.current_task then following else st.current_task;
      task_head = head;
      task_tail = tail;
    }

-- `USER_DATA_SELECTOR`, `USER_CODE_SELECTOR` and `PROGRAM_VIRTUAL_STACK_ADDRESS_START`.
abbrev pub user_data_selector : ℕ
user_data_selector = 0x23

abbrev pub user_code_selector : ℕ
user_code_selector = 0x1b

abbrev pub program_stack : ℕ
program_stack = 0x3FF000

-- `task_init`, of a task whose directory could be made.
pub init_task : ℕ → ℕ → ℕ → Task
init_task directory process elf_entry = record {
  page_directory = directory;
  registers = record zero_registers {
    ip = elf_entry;
    ss = user_data_selector;
    cs = user_code_selector;
    esp = program_stack;
    flags = 0x200;
  };
  process = process;
  next = 0;
  prev = 0;
}

-- `task_new`, with the addresses of the new task and of its directory. Where one of them is null, the
-- clean-up frees the directory through a null pointer.
pub new_task : Tasks → ℕ → ℕ → ℕ → ℕ → Option (ℕ × Tasks)
new_task st task directory process elf_entry =
    let tasks' = update st.tasks task (init_task directory process elf_entry) in
    if task == 0
    then none
    else if directory == 0
    then none
    else if st.task_head == 0
    then some
        (task, record { tasks = tasks'; current_task = task; task_head = task; task_tail = task })
    else some (
      task,
      record st {
        tasks = with_prev (with_next tasks' st.task_tail task) task st.task_tail;
        task_tail = task;
      },
    )

-- `task_switch` and `task_run_first_ever_task`, without the change of the page directory.
pub run_first_ever_task : Tasks → Option Tasks
run_first_ever_task st =
    if st.current_task == 0 then none else some (record st { current_task = st.task_head })

-- `task_switch`, without the change of the page directory; a null pointer is read through.
unfoldable pub task_switch : Tasks → ℕ → Option Tasks
task_switch st task = if task == 0 then none else some (record st { current_task = task })

-- `timer_interrupt` of src/kernel/kernel.cpp: the registers with which the processor goes on.
pub timer_interrupt : Tasks → Option (Registers × Tasks)
timer_interrupt st = elim (get_next st) [
  | none ↦ none
  | some task ↦
      Option.map (λ (st' : Tasks). ((st'.tasks st'.current_task).registers, st'))
        (task_switch st task)
]

-- An interrupt of the timer at a frame, which `idt_Handler` of src/kernel/idt/idt.c saves first.
pub timer : Registers → Tasks → Option (Registers × Tasks)
timer frame st = elim (current_save_state st frame) [ none ↦ none | some st' ↦ timer_interrupt st' ]

-- Interrupts of the timer, one after the other, from the registers `r` on.
pub timers : List Registers → Registers → Tasks → Option (Registers × Tasks)
timers [] r st = some (r, st)
timers (frame ∷ frames) r st = elim (timer frame st) [
  | none ↦ none
  | some (r', st') ↦ timers frames r' st'
]
