-- ===== src/Elf/Header.antt =====
-- Which files src/kernel/formats/elf/ELFFile.cpp takes for programs.
use git_os.Base.{◌+◌, ◌≤◌, ◌≡◌, ◌≢◌, ◌↔◌, arith, true, false, update}
use git_os.Memory.{Bytes}
use git_os.Elf.{
  ElfFile, half_at, word_at, get_header, has_signature, is_valid, program_virtual_address,
}

-- A header whose bytes are those of a 32-bit little-endian program.
pub record IsProgram (bytes : Bytes) (f : ElfFile) : Type 0 where
  pub there : f.m_data ≢ 0
  pub long_enough : 4 ≤ f.m_data_sz
  pub magic :
      (bytes f.m_data ≡ 0x7f)
      × (bytes (f.m_data + 1) ≡ b'E')
      × (bytes (f.m_data + 2) ≡ b'L')
      × (bytes (f.m_data + 3) ≡ b'F')
  pub class32 : bytes (f.m_data + 4) ≡ 1
  pub little_endian : bytes (f.m_data + 5) ≡ 1
  pub executable : half_at bytes (f.m_data + 16) ≡ 2
  pub entry : word_at bytes (f.m_data + 24) ≡ program_virtual_address
  pub has_program_headers : word_at bytes (f.m_data + 28) ≢ 0

-- `is_valid` accepts exactly the files of at least four bytes whose memory, from their start on, begins
-- as that of a 32-bit little-endian program with the entry that all programs have and with program
-- headers.
pub is_valid-IsProgram :
    (bytes : Bytes) (f : ElfFile) → (is_valid bytes f ≡ true) ↔ IsProgram bytes f
unfolding is_valid get_header has_signature
is_valid-IsProgram bytes f = ((λ h. ground arith), (λ h. ground arith))

-- `is_valid` only asks for four bytes: it reads on past the end of a file of up to 24 bytes. Such a file
-- that is accepted is refused where a byte behind it is another, and its own bytes are the same.
pub is_valid_past_end :
    (bytes : Bytes) (f : ElfFile)
    → f.m_data_sz ≤ 24
    → is_valid bytes f ≡ true
    → is_valid (update bytes (f.m_data + 24) 1) f ≡ false
unfolding is_valid get_header has_signature
is_valid_past_end bytes f short h = ground arith
