-- ===== src/Syscall/Numbers.antt =====
-- The table of the system calls, src/kernel/syscall/syscall.cpp.
use git_os.Base.{
  ℕ, ◌≤◌, ◌≡◌, ◌≢◌, ◌∙◌, sym, refl, Bool-cases, inl, inr, arith, Option, none, some, false, leb,
  update,
}
use git_os.Syscall.{
  Call, number, syscall_register, register_all, syscall_init, out_of_bounds, sys_getchar,
  sys_putchar, sys_putstring, sys_execprocess, sys_malloc, sys_free, sys_get_process_arguments,
  sys_exit, sys_get_framebuffer_info, sys_fopen, sys_fread, sys_fstat, sys_fseek, sys_fclose,
  sys_fwrite, sys_open_ipc, sys_getpid,
}
use git_os.Syscall.Handlers.{handle_command}

abbrev registered : ℕ → Option Call
registered =
    update
      (update
        (update
          (update
            (update
              (update
                (update
                  (update
                    (update
                      (update
                        (update
                          (update
                            (update
                              (update
                                (update
                                  (update (update (λ i. none) 2 (some sys_putstring)) 0
                                    (some sys_getchar))
                                  1 (some sys_putchar))
                                3 (some sys_execprocess))
                              4 (some sys_malloc))
                            5 (some sys_free))
                          6 (some sys_get_process_arguments))
                        7 (some sys_exit))
                      8 (some sys_get_framebuffer_info))
                    9 (some sys_fopen))
                  10 (some sys_fread))
                14 (some sys_fwrite))
              11 (some sys_fstat))
            12 (some sys_fseek))
          13 (some sys_fclose))
        15 (some sys_open_ipc))
      16 (some sys_getpid)

init-registered : syscall_init (λ i. none) ≡ some registered
unfolding syscall_init register_all syscall_register number
init-registered = refl

number-registered : (func : Call) → registered (number func) ≡ some func
unfolding number
number-registered sys_getchar = refl
number-registered sys_putchar = refl
number-registered sys_putstring = refl
number-registered sys_execprocess = refl
number-registered sys_malloc = refl
number-registered sys_free = refl
number-registered sys_get_process_arguments = refl
number-registered sys_exit = refl
number-registered sys_get_framebuffer_info = refl
number-registered sys_fopen = refl
number-registered sys_fread = refl
number-registered sys_fstat = refl
number-registered sys_fseek = refl
number-registered sys_fclose = refl
number-registered sys_fwrite = refl
number-registered sys_open_ipc = refl
number-registered sys_getpid = refl

past_last : (syscall_id : ℕ) → 17 ≤ syscall_id → registered syscall_id ≡ none
past_last syscall_id h = ground arith

number_bound : (func : Call) → out_of_bounds (number func) ≡ false
number_bound func = elim (Bool-cases (leb 17 (number func))) [
  | inl above ↦
      absurd (none_ne (sym (past_last (number func) (ground arith)) ∙ number-registered func))
  | inr below ↦ ground arith
]
  where
    none_ne : none ≢ some func
    none_ne e = cc

-- `syscall_init` on an empty table is no panic. Behind it, a call with a number of the `enum` runs its
-- own function, whatever the order in which they were registered, and a number behind the last of them,
-- or a negative one, changes nothing and returns 0.
pub handle_command-syscall_init :
    {S : Type 0} (call : Call → S → Option (ℕ × S)) (st : S)
    → (syscalls : ℕ → Option Call) × (syscall_init (λ i. none) ≡ some syscalls)
      × ((func : Call) → handle_command call syscalls (number func) st ≡ call func st)
      × ((syscall_id : ℕ)
          → 17 ≤ syscall_id
          → handle_command call syscalls syscall_id st ≡ some (0, st))
unfolding handle_command
handle_command-syscall_init {S} call st = (
  registered,
  init-registered,
  λ func. rw (handle_command, number_bound func, number-registered func) refl,
  λ syscall_id past. elim (Bool-cases (out_of_bounds syscall_id)) [
    | inl outside ↦ rw (handle_command, outside) refl
    | inr inside ↦ rw (handle_command, inside, past_last syscall_id past) refl
  ],
)
