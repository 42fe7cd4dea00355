-- ===== src/Process.antt =====
-- The processes, src/kernel/task/process.cpp and process.h.
pub mod Keys
pub mod Machine
pub mod Segments
pub mod Load
use git_os.Base.{ℕ, ◌+◌, ◌%◌, ◌==◌, if◌then◌else◌, add32, u8, update}

-- `struct keyboard_buffer`. `head` and `tail` are `int`; they are taken as the words that `%` by a
-- `size_t` makes of them.
pub record KeyboardBuffer : Type 0 where
  pub buffer : ℕ → ℕ
  pub tail : ℕ
  pub head : ℕ

-- `PROCESS_KEYBOARD_BUFFER_SIZE`
abbrev pub keyboard_buffer_size : ℕ
keyboard_buffer_size = 1024

-- `process_pushkey`, on the buffer of a process that is there.
pub pushkey : KeyboardBuffer → ℕ → KeyboardBuffer
pushkey k c = record k {
  buffer = update k.buffer (k.tail % keyboard_buffer_size) c;
  tail = add32 k.tail 1;
}

-- `process_popkey`, where a task is running: 0 where no key is pending.
pub popkey : KeyboardBuffer → ℕ × KeyboardBuffer
popkey k =
    let buffer_index = k.head % keyboard_buffer_size in
    let c = k.buffer buffer_index in
    if c == 0
    then (0, k)
    else (c, record k { buffer = update k.buffer buffer_index 0; head = add32 k.head 1 })
