-- ===== src/Pic/Vectors.antt =====
-- What the writes of src/kernel/drivers/pic/pic.c mean to an interrupt controller.
use git_os.Base.{ℕ, ◌/◌, ◌%◌, ◌^◌, ◌≡◌, refl, List, [], ◌∷◌, ◌==◌, if◌then◌else◌}
use git_os.Pic.{pic1_command, pic1_data, pic2_command, pic2_data, remap}

-- What the next byte on the data port of an 8259A is.
pub data Awaits : Type 0 where
  vector cascade mode mask : Awaits

pub record Controller : Type 0 where
  pub vectors : ℕ
  pub wiring : ℕ
  pub masked : ℕ
  pub awaits : Awaits

-- A command with bit 4 set starts the initialisation, and three bytes of data follow; any other data
-- is the mask.
pub to_command : Controller → ℕ → Controller
to_command c value = if value / 2 ^ 4 % 2 == 1 then record c { awaits = vector; masked = 0 } else c

pub to_data : Controller → ℕ → Controller
to_data c value = elim c.awaits [
  | vector ↦ record c { vectors = value; awaits = cascade }
  | cascade ↦ record c { wiring = value; awaits = mode }
  | mode ↦ record c { awaits = mask }
  | mask ↦ record c { masked = value }
]

-- The controller at a pair of ports takes the writes that are to it.
pub receive : ℕ → ℕ → List (ℕ × ℕ) → Controller → Controller
receive command_port data_port [] c = c
receive command_port data_port ((port, value) ∷ writes) c = receive command_port data_port writes (
    if port == command_port
    then to_command c value
    else if port == data_port
    then to_data c value
    else c)

-- Whatever their state was, `pic_Remap` leaves the two controllers with their vectors at the offsets,
-- the slave on line 2, and all lines masked but the timer, the keyboard, the cascade and the mouse.
pub remap-receive :
    (offset1 offset2 : ℕ) (master slave : Controller)
    → (receive pic1_command pic1_data (remap offset1 offset2) master
        ≡ record { vectors = offset1; wiring = 2 ^ 2; masked = 0b11111000; awaits = mask })
      × (receive pic2_command pic2_data (remap offset1 offset2) slave
          ≡ record { vectors = offset2; wiring = 2; masked = 0b11101111; awaits = mask })
unfolding remap receive to_command to_data
remap-receive offset1 offset2 master slave = (refl, refl)
