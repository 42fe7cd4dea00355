-- ===== src/Keyboard/Tests.antt =====
-- Typing with shift and Caps Lock.
use git_os.Base.{ℕ, ◌≡◌, arith, false, Option, some, List, [], ◌∷◌}
use git_os.Keyboard.{Keyboard, scan_set_1}
use git_os.Keyboard.Modifiers.{run, run-flags, capslock_after, shift_after}

abbrev off : Keyboard
off = record { capslock = false; shift = false }

-- Shift pressed, the key 1, shift released, Caps Lock.
abbrev codes : List ℕ
codes = 0x2A ∷ 0x02 ∷ 0xAA ∷ 0x3A ∷ []

run-flags_example :
    (keys : List (Option ℕ)) × ◌≡◌ {A = Option (Keyboard × List (Option ℕ))} (run off codes) (
      some
        (record { capslock = capslock_after false codes; shift = shift_after false codes }, keys))
unfolding scan_set_1
run-flags_example =
    run-flags off codes
      ((λ e. omega arith), ((λ e. omega arith), ((λ e. omega arith), ((λ e. omega arith), tt))))
