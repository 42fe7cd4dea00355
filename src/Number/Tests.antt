-- ===== src/Number/Tests.antt =====
-- Runs of `itoa` and `uitoa`, and the property at a number.
use git_os.Base.{◌≡◌, refl, true, false, some, [], ◌∷◌}
use git_os.Number.{digits_from, digit_char}

loop_255 : digits_from 255 255 16 false [] ≡ some (b'f' ∷ b'f' ∷ [])
unfolding digits_from digit_char
loop_255 = refl

-- The least integer has no magnitude as a `long`: its loop writes characters below '0'.
loop_least :
    digits_from 0x8000_0000 0x8000_0000 10 true []
    ≡ some (b'(' ∷ b',' ∷ b'*' ∷ b'-' ∷ b'(' ∷ b',' ∷ b')' ∷ b',' ∷ b'/' ∷ b'.' ∷ [])
unfolding digits_from digit_char
loop_least = refl
