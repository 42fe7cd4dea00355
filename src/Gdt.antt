-- ===== src/Gdt.antt =====
-- The segment descriptors of src/kernel/gdt/gdt.c. A descriptor is its eight bytes, in the order of
-- `struct gdt`.
pub mod Fields
mod Tests
use git_os.Base.{
  ℕ, ◌/◌, ◌%◌, ◌^◌, ◌<◌, Bool, Option, none, some, List, [], ◌∷◌, bit_and, bit_or, ltb, ◌==◌, ◌&&◌,
  not, if◌then◌else◌, u8,
}

pub record Structured : Type 0 where
  pub base : ℕ
  pub limit : ℕ
  pub type : ℕ

pub record Gdt : Type 0 where
  pub byte0 : ℕ
  pub byte1 : ℕ
  pub byte2 : ℕ
  pub byte3 : ℕ
  pub byte4 : ℕ
  pub byte5 : ℕ
  pub byte6 : ℕ
  pub byte7 : ℕ

-- A limit above 64 KiB is counted in pages.
abbrev pub is_large : Structured → Bool
is_large src = ltb 65536 src.limit

abbrev pub encoded_limit : Structured → ℕ
encoded_limit src = if is_large src then src.limit / 2 ^ 12 else src.limit

abbrev pub granularity : Structured → ℕ
granularity src = if is_large src then 0b11000000 else 0b01000000

-- The bytes that `encode_gdt_entry` writes.
pub fields : Structured → Gdt
fields src = record {
  byte0 = bit_and (encoded_limit src) 0xff;
  byte1 = bit_and (encoded_limit src / 2 ^ 8) 0xff;
  byte2 = bit_and src.base 0xff;
  byte3 = bit_and (src.base / 2 ^ 8) 0xff;
  byte4 = bit_and (src.base / 2 ^ 16) 0xff;
  byte5 = u8 src.type;
  byte6 = bit_or (granularity src) (bit_and (encoded_limit src / 2 ^ 16) 0x0f);
  byte7 = bit_and (src.base / 2 ^ 24) 0xff;
}

-- `encode_gdt_entry`; `none` is the kernel panic.
pub encode : Structured → Option Gdt
encode src =
    if is_large src && not (bit_and src.limit 0xfff == 0xfff) then none else some (fields src)

-- `gdt_structured_to_gdt`
pub encode_all : List Structured → Option (List Gdt)
encode_all [] = some []
encode_all (src ∷ rest) = elim (encode src) [
  | none ↦ none
  | some entry ↦ elim (encode_all rest) [ none ↦ none | some entries ↦ some (entry ∷ entries) ]
]
