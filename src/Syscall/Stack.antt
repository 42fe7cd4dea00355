-- ===== src/Syscall/Stack.antt =====
-- The arguments of a system call on the stack of its task, src/kernel/task/task.c.
use git_os.Base.{
  ℕ, ◌+◌, ◌-◌, ◌*◌, ◌%◌, ◌^◌, ◌≤◌, ◌<◌, ◌≡◌, refl, ap, ◌∙◌, arith, add32, Option, some,
}
use git_os.Paging.{Words, page_size, entries_per_table, map_to}
use git_os.Paging.Slots.{IsDirectory, IsPage}
use git_os.Paging.Translate.{translate, translate-map_to}
use git_os.Elf.{word_at}
use git_os.Process.Machine.{Machine}
use git_os.Syscall.{seen_by, word_seen, task_directory, peek_stack}

word_seen-word_at :
    (mem : ℕ → Option ℕ) (bytes : ℕ → ℕ) (a b : ℕ)
    → mem a ≡ some (bytes b)
    → mem (a + 1) ≡ some (bytes (b + 1))
    → mem (a + 2) ≡ some (bytes (b + 2))
    → mem (a + 2 + 1) ≡ some (bytes (b + 2 + 1))
    → word_seen mem a ≡ some (word_at bytes b)
word_seen-word_at mem bytes a b p q r s = rw (p, q, r, s) refl

seen_by_lem :
    (st : Machine) (directory a at : ℕ)
    → translate st.words directory a ≡ some at
    → seen_by st directory a ≡ some (st.bytes at)
unfolding seen_by
seen_by_lem st directory a at h = rw (seen_by, h) refl

-- Behind the mapping of a task's stack to its memory, with bounds of whole pages inside the address
-- space and flags of a byte that have the present bit, in a directory whose tables are present,
-- `task_peek_stack` of the current task does not fault, and gives the word of that memory that lies so
-- many words above the stack pointer, where this is on the stack, on whatever pages it lies. The chunk of
-- the directory must not have been changed by the mapping.
pub peek_stack-map_to :
    (st : Machine) (words : Words) (directory virtual physical count flags offset : ℕ)
    → IsDirectory words directory
    → IsPage virtual
    → physical % page_size ≡ 0
    → virtual + page_size * count ≤ 2 ^ 32
    → physical + page_size * count < 2 ^ 32
    → flags < 256
    → flags % 2 ≡ 1
    → ((i : ℕ) → i < entries_per_table → words (directory + 4 * i) % 2 ≡ 1)
    → st.words ≡ (map_to words directory virtual physical (physical + page_size * count) flags).1
    → task_directory st st.tasks.current_task ≡ directory
    → let sp = (st.tasks.tasks st.tasks.current_task).registers.esp in
      virtual ≤ sp
      → sp + 4 * offset + 4 ≤ virtual + page_size * count
      → peek_stack st offset ≡ some (word_at st.bytes (physical + (sp + 4 * offset - virtual)))
unfolding peek_stack
peek_stack-map_to st words directory virtual physical count flags offset d p q r s f odd present
      same chunk above below =
    let sp = (st.tasks.tasks st.tasks.current_task).registers.esp in
    let at = sp + 4 * offset in
    let no_wrap : add32 sp (4 * offset) ≡ at = omega arith in
    let seen : (x y : ℕ)
        → at ≤ x
        → x < at + 4
        → physical + (x - virtual) ≡ y
        → seen_by st (task_directory st st.tasks.current_task) x ≡ some (st.bytes y) =
      λ x y le lt e. seen_by_lem st (task_directory st st.tasks.current_task) x y (
        ap (λ (w : Words). translate w (task_directory st st.tasks.current_task) x) same
        ∙ ap
            (λ t.
              translate
                (map_to words directory virtual physical (physical + page_size * count) flags).1 t
                x)
            chunk
        ∙ translate-map_to words directory virtual physical count flags x d p q r s f odd present
            (omega arith) (omega arith)
        ∙ ap some e) in
    let place = physical + (at - virtual) in
    ap (word_seen (seen_by st (task_directory st st.tasks.current_task))) no_wrap
    ∙ word_seen-word_at (seen_by st (task_directory st st.tasks.current_task)) st.bytes at place
        (seen at place (omega arith) (omega arith) refl)
        (seen (at + 1) (place + 1) (omega arith) (omega arith) (omega arith))
        (seen (at + 2) (place + 2) (omega arith) (omega arith) (omega arith))
        (seen (at + 2 + 1) (place + 2 + 1) (omega arith) (omega arith) (omega arith))
