-- ===== src/Idt/Gates.antt =====
-- What the processor finds in the descriptors of src/kernel/idt/idt.c.
use git_os.Base.{
  ℕ, ◌+◌, ◌-◌, ◌*◌, ◌/◌, ◌%◌, ◌^◌, ◌<◌, ◌≡◌, ◌≢◌, refl, ap, ◌∙◌, arith, false, ◌||◌, Option, none,
  some, leb, ◌==◌, if◌then◌else◌, update, update_self, update_ne, Result, ok,
}
use git_os.Tasks.{Tasks, Registers, current_save_state}
use git_os.Idt.{handle, IdtDesc, set_handler, max_interrupts}

-- A present gate of a 32-bit interrupt that programs may raise, in the kernel's code segment, for an
-- address.
pub record IsGate (d : IdtDesc) (address : ℕ) : Type 0 where
  pub at : d.offset_low + d.offset_high * 2 ^ 16 ≡ address
  pub code : d.selector ≡ 0x08
  pub cleared : d.reserved ≡ 0
  pub kind : d.type_attr % 2 ^ 4 ≡ 0xE
  pub privilege : d.type_attr / 2 ^ 5 % 2 ^ 2 ≡ 3
  pub present : d.type_attr / 2 ^ 7 ≡ 1

set_handler_inside :
    (handlers : ℕ → ℕ) (int_no handler : ℕ)
    → int_no < max_interrupts - 1
    → set_handler handlers int_no handler ≡ (ok tt, update handlers int_no handler)
unfolding set_handler
set_handler_inside handlers int_no handler h =
    let inside : (leb (2 ^ 31) int_no || leb (max_interrupts - 1) int_no) ≡ false = ground arith in
    rw inside refl

-- What an interrupt does hangs on its own handler.
handle_at :
    (f g : ℕ → ℕ) (call : ℕ → Tasks → Tasks) (st : Tasks) (n : ℕ) (frame : Registers)
    → f n ≡ g n
    → handle f call st n frame ≡ handle g call st n frame
unfolding handle
handle_at f g call st n frame e =
    ap {B = Option Tasks}
      (λ h.
        if h == 0
        then some st
        else elim (current_save_state st frame) [ none ↦ none | some saved ↦ some (call h saved) ])
      e

handle_runs :
    (handler : ℕ) (call : ℕ → Tasks → Tasks) (st saved : Tasks) (n : ℕ) (frame : Registers)
    → handler ≢ 0
    → current_save_state st frame ≡ some saved
    → handle (λ i. handler) call st n frame ≡ some (call handler saved)
unfolding handle
handle_runs handler call st saved n frame h e =
    let set : (handler == 0) ≡ false = ground arith in rw (set, e) refl

-- Where there is a current task, a handler that is not null and is set for an interrupt but the last
-- one runs when the interrupt comes, with the registers of the current task saved; for the other interrupts the handlers stay as they were.
pub handle-set_handler :
    (handlers : ℕ → ℕ) (call : ℕ → Tasks → Tasks) (st saved : Tasks) (int_no handler other : ℕ)
    (frame : Registers)
    → int_no < max_interrupts - 1
    → handler ≢ 0
    → current_save_state st frame ≡ some saved
    → other ≢ int_no
    → ((set_handler handlers int_no handler).0 ≡ ok tt)
      × (handle (set_handler handlers int_no handler).1 call st int_no frame
          ≡ some (call handler saved))
      × (handle (set_handler handlers int_no handler).1 call st other frame
          ≡ handle handlers call st other frame)
handle-set_handler handlers call st saved int_no handler other frame h n e o =
    let done = set_handler_inside handlers int_no handler h in
    let set = ap (λ (r : Result (Unit {0}) × (ℕ → ℕ)). r.1) done in
    (
      ap (λ (r : Result (Unit {0}) × (ℕ → ℕ)). r.0) done,
      handle_at (set_handler handlers int_no handler).1 (λ i. handler) call st int_no frame
            (ap (λ (f : ℕ → ℕ). f int_no) set ∙ update_self handlers int_no handler)
          ∙ handle_runs handler call st saved int_no frame n e,
      handle_at (set_handler handlers int_no handler).1 handlers call st other frame
          (ap (λ (f : ℕ → ℕ). f other) set ∙ update_ne handlers int_no other handler o),
    )
