-- ===== src/Pic.antt =====
-- The interrupt controllers and the timer, src/kernel/drivers/pic/pic.c. An operation is the list of
-- the bytes that it writes, each with its port.
mod Vectors
use git_os.Base.{
  ℕ, ◌/◌, ◌^◌, Option, none, some, List, [], ◌∷◌, ◌++◌, leb, ◌==◌, if◌then◌else◌, bit_and, bit_or,
  u8, u16,
}

-- `PIC1_COMMAND`, `PIC1_DATA`, `PIC2_COMMAND`, `PIC2_DATA`.
abbrev pub pic1_command : ℕ
pic1_command = 0x20

abbrev pub pic1_data : ℕ
pic1_data = 0x21

abbrev pub pic2_command : ℕ
pic2_command = 0xA0

abbrev pub pic2_data : ℕ
pic2_data = 0xA1

abbrev pub icw1 : ℕ
icw1 = bit_or 0x10 0x01

pub remap : ℕ → ℕ → List (ℕ × ℕ)
remap offset1 offset2 =
    (pic1_command, icw1)
    ∷ (pic2_command, icw1)
    ∷ (pic1_data, offset1)
    ∷ (pic2_data, offset2)
    ∷ (pic1_data, 4)
    ∷ (pic2_data, 2)
    ∷ (pic1_data, 0x01)
    ∷ (pic2_data, 0x01)
    ∷ (pic1_data, 0b11111000)
    ∷ (pic2_data, 0b11101111)
    ∷ []

-- `pic_SetHz`; a division by zero has no result.
pub set_hz : ℕ → Option (List (ℕ × ℕ))
set_hz hz =
    let divisor = u16 (1193182 / hz) in
    if hz == 0
    then none
    else some (
        (0x43, 0x36)
        ∷ (0x40, u8 (bit_and divisor 0xFF))
        ∷ (0x40, u8 (bit_and (divisor / 2 ^ 8) 0xFF))
        ∷ [])

-- `pic_EOI`
pub eoi : ℕ → List (ℕ × ℕ)
eoi irq =
    if leb 8 irq
    then (pic2_command, 0x20) ∷ (pic1_command, 0x20) ∷ []
    else (pic1_command, 0x20) ∷ []
