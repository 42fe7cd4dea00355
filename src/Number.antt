-- ===== src/Number.antt =====
-- `itoa` and `uitoa` of src/kernel/common/string.c. A `long` and an `unsigned long` have 32 bits, and
-- a signed one is its bit pattern. The buffer is what has been written to it.
pub mod Digits
mod Tests
use git_os.Base.{
  ℕ, zero, suc, ◌+◌, ◌-◌, ◌*◌, ◌/◌, ◌%◌, ◌^◌, Bool, true, false, ◌&&◌, not, Option, none, some,
  List, [], ◌∷◌, ◌++◌, ltb, leb, ◌==◌, if◌then◌else◌, u8, u32,
}
use git_os.Str.{strrev}

-- The sign bit of a 32-bit word.
abbrev pub is_negative : ℕ → Bool
is_negative w = not (ltb w (2 ^ 31))

-- The remainder of a negative number is negative or 0, so that its character lies at '0' or below.
pub digit_char : Bool → ℕ → ℕ
digit_char true rem = u8 (256 + b'0' - rem)
digit_char false rem = if ltb 9 rem then rem - 10 + b'a' else rem + b'0'

-- The loop over a number of magnitude `num`, which `negative` says the sign of; `none` is a loop
-- that goes on for longer than the fuel.
pub digits_from : ℕ → ℕ → ℕ → Bool → List ℕ → Option (List ℕ)
digits_from zero num base negative str = if num == 0 then some str else none
digits_from (suc fuel) num base negative str =
    let rest =
      digits_from fuel (num / base) base negative
        (str ++ (digit_char negative (num % base) ∷ [])) in
    if num == 0 then some str else rest

pub uitoa : ℕ → ℕ → Option (List ℕ)
uitoa num base =
    if num == 0 then some (b'0' ∷ 0 ∷ []) else elim (digits_from num num base false []) [
      | none ↦ none
      | some str ↦ strrev (str ++ (0 ∷ []))
    ]

-- `-num`, as a word.
abbrev pub negate : ℕ → ℕ
negate w = u32 (2 ^ 32 - w)

pub itoa : ℕ → ℕ → Option (List ℕ)
itoa num base =
    let negative = is_negative num && base == 10 in
    let num' = if negative then negate num else num in
    let size = if is_negative num' then 2 ^ 32 - num' else num' in
    if num == 0
    then some (b'0' ∷ 0 ∷ [])
    else elim (digits_from size size base (is_negative num') []) [
      | none ↦ none
      | some str ↦ strrev ((if negative then str ++ (b'-' ∷ []) else str) ++ (0 ∷ []))
    ]
