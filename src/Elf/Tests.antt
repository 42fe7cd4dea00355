-- ===== src/Elf/Tests.antt =====
-- The header of a program at 0x1000, which is accepted.
use git_os.Base.{ℕ, ◌-◌, ◌≡◌, refl, true, ltb, if◌then◌else◌, List, [], ◌∷◌, get_or}
use git_os.Elf.{ElfFile, get_header, has_signature, is_valid}

abbrev header : List ℕ
header =
    0x7f ∷ b'E' ∷ b'L' ∷ b'F' ∷ 1 ∷ 1 ∷ 1 ∷ 0 ∷ 0 ∷ 0 ∷ 0 ∷ 0 ∷ 0 ∷ 0 ∷ 0 ∷ 0 ∷ 2 ∷ 0 ∷ 3 ∷ 0 ∷ 1
    ∷ 0 ∷ 0 ∷ 0 ∷ 0 ∷ 0 ∷ 0x40 ∷ 0 ∷ 0x34 ∷ 0 ∷ 0 ∷ 0 ∷ []

abbrev memory : ℕ → ℕ
memory a = if ltb a 0x1000 then 0 else get_or header (a - 0x1000) 0

abbrev file : ℕ → ElfFile
file size = record { m_data = 0x1000; m_data_sz = size }

accepted : is_valid memory (file 24) ≡ true
unfolding is_valid get_header has_signature
accepted = refl
