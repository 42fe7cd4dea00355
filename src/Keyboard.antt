-- ===== src/Keyboard.antt =====
-- The keyboard driver, src/kernel/drivers/ps2keyboard/ps2keyboard.c: its two flags, and the key that
-- an interrupt gives to the current process, if it gives one. A missing result is a read behind the
-- table of characters.
mod Modifiers
mod Tests
use git_os.Base.{
  ℕ, ◌+◌, ◌-◌, Bool, true, false, ◌||◌, ◌&&◌, not, Option, none, some, List, [], ◌∷◌, ◌++◌, length,
  get_elem?, replicate, leb, ltb, ◌==◌, if◌then◌else◌, bit_and, u8,
}
use mathlib.Core.Option

pub record Keyboard : Type 0 where
  pub capslock : Bool
  pub shift : Bool

-- `ps2keyboard_scan_set_1`
pub scan_set_1 : List ℕ
scan_set_1 =
    0x00 ∷ 0x1B ∷ b'1' ∷ b'2' ∷ b'3' ∷ b'4' ∷ b'5' ∷ b'6' ∷ b'7' ∷ b'8' ∷ b'9' ∷ b'0' ∷ b'-' ∷ b'='
    ∷ 0x08 ∷ 0x09 ∷ b'Q' ∷ b'W' ∷ b'E' ∷ b'R' ∷ b'T' ∷ b'Y' ∷ b'U' ∷ b'I' ∷ b'O' ∷ b'P' ∷ b'['
    ∷ b']' ∷ 0x0d ∷ 0x00 ∷ b'A' ∷ b'S' ∷ b'D' ∷ b'F' ∷ b'G' ∷ b'H' ∷ b'J' ∷ b'K' ∷ b'L' ∷ b';'
    ∷ 0x27 ∷ b'`' ∷ 0x00 ∷ 0x5C ∷ b'Z' ∷ b'X' ∷ b'C' ∷ b'V' ∷ b'B' ∷ b'N' ∷ b'M' ∷ b',' ∷ b'.'
    ∷ b'/' ∷ 0x00 ∷ b'*' ∷ 0x00 ∷ 0x20 ∷ 0x00 ∷ 0x00 ∷ 0x00 ∷ 0x00 ∷ 0x00 ∷ 0x00 ∷ 0x00 ∷ 0x00
    ∷ 0x00 ∷ 0x00 ∷ 0x00 ∷ b'7' ∷ b'8' ∷ b'9' ∷ b'-' ∷ b'4' ∷ b'5' ∷ b'6' ∷ b'+' ∷ b'1' ∷ b'2'
    ∷ b'3' ∷ b'0' ∷ b'.' ∷ []

pub shift_char : ℕ → ℕ
shift_char c =
    if c == b'1'
    then b'!'
    else if c == b'2'
    then b'@'
    else if c == b'3'
    then b'#'
    else if c == b'4'
    then b'$'
    else if c == b'5'
    then b'%'
    else if c == b'6'
    then b'^'
    else if c == b'7'
    then b'&'
    else if c == b'8'
    then b'*'
    else if c == b'9'
    then b'('
    else if c == b'0'
    then b')'
    else if c == b'-'
    then b'_'
    else if c == b'='
    then b'+'
    else if c == b'['
    then b'{'
    else if c == b']'
    then b'}'
    else if c == b';'
    then b':'
    else if c == 0x27
    then 0x22
    else if c == b'`'
    then b'~'
    else if c == 0x5C
    then b'|'
    else if c == b','
    then b'<'
    else if c == b'.'
    then b'>'
    else if c == b'/'
    then b'?'
    else c

-- The character of a key with the flags.
pub with_flags : Keyboard → ℕ → ℕ
with_flags kb c =
    if leb b'A' c && leb c b'Z' && not kb.capslock
    then c + 32
    else if kb.shift
    then shift_char c
    else c

pub scancode_to_char : Keyboard → ℕ → Option ℕ
scancode_to_char kb scancode =
    if ltb (length scan_set_1) scancode
    then some 0
    else Option.map (with_flags kb) (get_elem? scan_set_1 scancode)

abbrev pub pushed : ℕ → Option ℕ
pushed c = if c == 0 then none else some c

pub irq_handler : Keyboard → ℕ → Option (Keyboard × Option ℕ)
irq_handler kb scancode =
    if scancode == 0xAA || scancode == 0xB6
    then some (record kb { shift = false }, none)
    else if not (bit_and scancode 0x80 == 0)
    then some (kb, none)
    else if scancode == 0x2A || scancode == 0x36
    then some (record kb { shift = true }, none)
    else if scancode == 0x3A
    then some (record kb { capslock = not kb.capslock }, none)
    else Option.map (λ c. (kb, pushed c)) (scancode_to_char kb scancode)
