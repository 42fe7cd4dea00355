-- ===== src/Elf.antt =====
-- The ELF files of programs, src/kernel/formats/elf/ELFFile.cpp and ELFFile.hpp. The memory is a
-- function from addresses to bytes, from which the fields of the packed headers are read.
pub mod Header
mod Tests
use git_os.Base.{
  ℕ, zero, ◌+◌, ◌*◌, ◌<◌, Bool, true, false, ◌||◌, not, ◌==◌, ltb, if◌then◌else◌, List, [], ◌∷◌,
  ◌&&◌, Result, ok, err, einformat, add32, u32, Option, none, some,
}
use git_os.Memory.{Bytes}

-- `ELFFile`
pub record ElfFile : Type 0 where
  pub m_data : ℕ
  pub m_data_sz : ℕ

-- A field of two bytes, and one of four.
abbrev pub half_at : Bytes → ℕ → ℕ
half_at bytes a = bytes a + 256 * bytes (a + 1)

abbrev pub word_at : Bytes → ℕ → ℕ
word_at bytes a = half_at bytes a + 65536 * half_at bytes (a + 2)

-- `Elf32_Header`, but for the fields that nothing reads.
pub record ElfHeader : Type 0 where
  pub ei_class : ℕ
  pub ei_data : ℕ
  pub e_type : ℕ
  pub e_entry : ℕ
  pub e_phoff : ℕ
  pub e_shoff : ℕ
  pub e_phnum : ℕ
  pub e_shstrndx : ℕ

-- `ELFFile::get_header`
pub get_header : Bytes → ElfFile → ElfHeader
get_header bytes f = record {
  ei_class = bytes (f.m_data + 4);
  ei_data = bytes (f.m_data + 5);
  e_type = half_at bytes (f.m_data + 16);
  e_entry = word_at bytes (f.m_data + 24);
  e_phoff = word_at bytes (f.m_data + 28);
  e_shoff = word_at bytes (f.m_data + 32);
  e_phnum = half_at bytes (f.m_data + 44);
  e_shstrndx = half_at bytes (f.m_data + 50);
}

-- `memcmp(header->e_ident, ELF_SIGNATURE, sizeof(ELF_SIGNATURE)) == 0`
pub has_signature : Bytes → ElfFile → Bool
has_signature bytes f =
    bytes f.m_data == 0x7f
    && (bytes (f.m_data + 1) == b'E'
        && (bytes (f.m_data + 2) == b'L' && bytes (f.m_data + 3) == b'F'))

-- `ELFCLASS32`, `ELFDATA2LSB`, `ET_EXEC` and `PROGRAM_VIRTUAL_ADDRESS`.
abbrev pub elfclass32 : ℕ
elfclass32 = 1

abbrev pub elfdata2lsb : ℕ
elfdata2lsb = 1

abbrev pub et_exec : ℕ
et_exec = 2

abbrev pub program_virtual_address : ℕ
program_virtual_address = 0x400000

-- `ELFFile::is_valid`
unfoldable pub is_valid : Bytes → ElfFile → Bool
is_valid bytes f =
    let header = get_header bytes f in
    if f.m_data == 0
    then false
    else if ltb f.m_data_sz 4
    then false
    else if not (has_signature bytes f)
    then false
    else if not (header.ei_class == elfclass32)
    then false
    else if not (header.ei_data == elfdata2lsb)
    then false
    else if not (header.e_type == et_exec)
    then false
    else if not (header.e_entry == program_virtual_address)
    then false
    else if header.e_phoff == 0
    then false
    else true

-- `ELFFile::parse`
unfoldable pub parse : Bytes → ElfFile → Result (Unit {0})
parse bytes f = if not (is_valid bytes f) then err einformat else ok tt

-- `ELFFile::get_entry`
pub get_entry : Bytes → ElfFile → ℕ
get_entry bytes f = (get_header bytes f).e_entry

-- `Elf32_Phdr`, but for the fields that nothing reads.
pub record ProgramHeader : Type 0 where
  pub p_offset : ℕ
  pub p_vaddr : ℕ
  pub p_filesz : ℕ
  pub p_memsz : ℕ
  pub p_flags : ℕ

-- The address that `ELFFile::get_program_header` gives, a null pointer for a file that has none.
pub program_header_address : Bytes → ElfFile → ℕ → ℕ
program_header_address bytes f index =
    if (get_header bytes f).e_phoff == 0
    then u32 (index * 32)
    else u32 (add32 f.m_data (get_header bytes f).e_phoff + index * 32)

pub get_program_header : Bytes → ElfFile → ℕ → ProgramHeader
get_program_header bytes f index =
    let a = program_header_address bytes f index in
    record {
      p_offset = word_at bytes (a + 4);
      p_vaddr = word_at bytes (a + 8);
      p_filesz = word_at bytes (a + 16);
      p_memsz = word_at bytes (a + 20);
      p_flags = word_at bytes (a + 24);
    }

-- The addresses that `ELFFile::get_section_header` and `ELFFile::get_string_table` give.
pub section_header_address : Bytes → ElfFile → ℕ → ℕ
section_header_address bytes f index =
    u32 (add32 f.m_data (get_header bytes f).e_shoff + index * 40)

pub get_string_table : Bytes → ElfFile → ℕ
get_string_table bytes f =
    add32 f.m_data
      (word_at bytes (section_header_address bytes f (get_header bytes f).e_shstrndx + 16))
