-- ===== src/Str/Tests.antt =====
-- Runs of the string functions.
use git_os.Base.{ℕ, ◌≡◌, refl, none, some, List, [], ◌∷◌}
use git_os.Base.Int.{pos}
use git_os.Str.{
  strlen, strlen_from, strrev, reverse_loop, strncmp, strcmp, istrncmp, to_lower, to_numeric_digit,
  strnlen, strnlen_from,
}
use git_os.Str.Copy.{buffer}

abbrev abc : List ℕ
abc = b'a' ∷ b'b' ∷ b'c' ∷ []

abbrev ab : List ℕ
ab = b'a' ∷ b'b' ∷ []

runs :
    (strlen (buffer abc []) ≡ some 3)
    × (strlen abc ≡ none)
    × (strnlen abc 2 ≡ some 2)
    × (strrev (buffer abc (7 ∷ [])) ≡ some (b'c' ∷ b'b' ∷ b'a' ∷ 0 ∷ 7 ∷ []))
    × (strcmp (buffer ab []) (buffer abc []) ≡ some (pos 0))
    × (strcmp (buffer abc []) (buffer ab []) ≡ some (pos 99))
    × (istrncmp (b'A' ∷ b'b' ∷ 0 ∷ []) (buffer ab []) 11 ≡ some (pos 0))
    × (to_numeric_digit b'7' ≡ pos 7)
unfolding strlen strlen_from strrev reverse_loop strncmp strcmp istrncmp to_lower to_numeric_digit
    strnlen strnlen_from
runs = (refl, refl, refl, refl, refl, refl, refl, refl)
