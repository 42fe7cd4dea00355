-- ===== src/Idt.antt =====
-- The interrupt descriptors and handlers, src/kernel/idt/idt.c. The tables are functions from the
-- interrupt's number; a handler is the address of its code, and 0 is none.
mod Gates
mod Tests
use git_os.Base.{
  ℕ, zero, suc, ◌+◌, ◌-◌, ◌/◌, ◌^◌, ◌<◌, Bool, ◌||◌, Option, none, some, leb, ltb, ◌==◌,
  if◌then◌else◌, update, Result, ok, err, einvarg, bit_and, u16,
}
use git_os.Tasks.{Tasks, Registers, current_save_state}

-- `MAX_INTERRUPTS`
abbrev pub max_interrupts : ℕ
max_interrupts = 256

-- `struct idt_desc`
pub record IdtDesc : Type 0 where
  pub offset_low : ℕ
  pub selector : ℕ
  pub reserved : ℕ
  pub type_attr : ℕ
  pub offset_high : ℕ

-- `idt_SetDescriptor`
pub gate : ℕ → IdtDesc
gate address = record {
  offset_low = u16 (bit_and address 0x0000ffff);
  selector = 0x08;
  reserved = 0;
  type_attr = 0b11101110;
  offset_high = u16 (bit_and address 0xffff0000 / 2 ^ 16);
}

pub set_descriptor : (ℕ → IdtDesc) → ℕ → ℕ → ℕ → IdtDesc
set_descriptor descriptors int_no address = update descriptors int_no (gate address)

abbrev pub zero_gate : IdtDesc
zero_gate = record { offset_low = 0; selector = 0; reserved = 0; type_attr = 0; offset_high = 0 }

-- The loop of `idt_Init`, with `left` interrupts to go from `i` on.
pub init_from : (ℕ → ℕ) → ℕ → ℕ → (ℕ → IdtDesc) → ℕ → IdtDesc
init_from interrupt_pointer_table zero i descriptors = descriptors
init_from interrupt_pointer_table (suc left) i descriptors =
    init_from interrupt_pointer_table left (i + 1)
      (set_descriptor descriptors i (interrupt_pointer_table i))

pub init : (ℕ → ℕ) → ℕ → IdtDesc
init interrupt_pointer_table = init_from interrupt_pointer_table max_interrupts 0 (λ i. zero_gate)

-- `idt_SetHandler`; the number is an `int`, and a negative one is a word of 2^31 or more.
pub set_handler : (ℕ → ℕ) → ℕ → ℕ → Result (Unit {0}) × (ℕ → ℕ)
set_handler handlers int_no handler =
    if leb (2 ^ 31) int_no || leb (max_interrupts - 1) int_no
    then (err einvarg, handlers)
    else (ok tt, update handlers int_no handler)

-- `idt_Handler`: `call` is the handler that runs, on the tasks whose current one has the registers
-- saved. A missing result is a kernel panic. The switches of the page directory
-- around it are left out.
pub handle : (ℕ → ℕ) → (ℕ → Tasks → Tasks) → Tasks → ℕ → Registers → Option Tasks
handle handlers call st int_no frame =
    if handlers int_no == 0 then some st else elim (current_save_state st frame) [
      | none ↦ none
      | some saved ↦ some (call (handlers int_no) saved)
    ]
