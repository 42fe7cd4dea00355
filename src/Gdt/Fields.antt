-- ===== src/Gdt/Fields.antt =====
-- The processor's reading of a descriptor gives back what was encoded.
use git_os.Base.{
  ℕ, ◌+◌, ◌*◌, ◌/◌, ◌%◌, ◌^◌, ◌≤◌, ◌<◌, ◌≡◌, ◌≢◌, refl, arith, ◌⊎◌, if◌then◌else◌, ltb, Bool, true,
  false, bit_or, none, some,
}
use git_os.Base.Bits.{bit_and_mask, bit_or_field}
use git_os.Gdt.{Structured, Gdt, fields, encode, is_large, encoded_limit}

-- The base that the processor puts together from bytes 2, 3, 4 and 7.
abbrev pub read_base : Gdt → ℕ
read_base g = g.byte2 + 2 ^ 8 * g.byte3 + 2 ^ 16 * g.byte4 + 2 ^ 24 * g.byte7

-- The 20 bits of the limit, in bytes 0 and 1 and the low half of byte 6.
abbrev pub raw_limit : Gdt → ℕ
raw_limit g = g.byte0 + 2 ^ 8 * g.byte1 + 2 ^ 16 * (g.byte6 % 16)

-- With the granularity bit, the limit counts pages and covers the last of them whole.
abbrev pub read_limit : Gdt → ℕ
read_limit g = if ltb (g.byte6) 128 then raw_limit g else raw_limit g * 2 ^ 12 + 0xfff

-- A limit that the descriptor can hold: up to 64 KiB, or whole pages less one byte.
abbrev pub IsLimit : Structured → Type 0
IsLimit src = (src.limit ≤ 65536) ⊎ ((src.limit % 2 ^ 12 ≡ 0xfff) × (src.limit < 2 ^ 32))

read_base-fields : (src : Structured) → src.base < 2 ^ 32 → read_base (fields src) ≡ src.base
unfolding fields
read_base-fields src h = omega (
  arith,
  bit_and_mask 8 src.base,
  bit_and_mask 8 (src.base / 2 ^ 8),
  bit_and_mask 8 (src.base / 2 ^ 16),
  bit_and_mask 8 (src.base / 2 ^ 24),
)

flags-or :
    (large : Bool) (n : ℕ)
    → n < 16
    → bit_or (if large then 0b11000000 else 0b01000000) n ≡ (if large then 192 else 64) + n
flags-or true n h = bit_or_field 4 12 n h
flags-or false n h = bit_or_field 4 4 n h

byte6-fields :
    (src : Structured)
    → (fields src).byte6 ≡ (if is_large src then 192 else 64) + encoded_limit src / 2 ^ 16 % 16
unfolding fields
byte6-fields src =
    let four_bits = bit_and_mask 4 (encoded_limit src / 2 ^ 16) in
    rw four_bits (flags-or (is_large src) (encoded_limit src / 2 ^ 16 % 16) (omega arith))

raw_limit-fields :
    (src : Structured) → encoded_limit src < 2 ^ 20 → raw_limit (fields src) ≡ encoded_limit src
unfolding fields
raw_limit-fields src h = ground (
  arith,
  bit_and_mask 8 (encoded_limit src),
  bit_and_mask 8 (encoded_limit src / 2 ^ 8),
  byte6-fields src,
)

read_limit-fields : (src : Structured) → IsLimit src → read_limit (fields src) ≡ src.limit
read_limit-fields src h = ground (arith, byte6-fields src, raw_limit-fields src)

encode-fields : (src : Structured) → IsLimit src → encode src ≡ some (fields src)
unfolding encode
encode-fields src h = ground (arith, bit_and_mask 12 src.limit)

-- A descriptor with a base of 32 bits and a limit that it can hold is encoded, and read by the
-- processor's rules it has that base and that limit, and the type's byte.
pub encode-read :
    (src : Structured)
    → src.base < 2 ^ 32
    → IsLimit src
    → (g : Gdt) × (encode src ≡ some g)
      × (read_base g ≡ src.base)
      × (read_limit g ≡ src.limit)
      × (g.byte5 ≡ src.type % 2 ^ 8)
encode-read src b h = (
  fields src,
  encode-fields src h,
  read_base-fields src b,
  read_limit-fields src h,
  unfold fields in refl,
)

-- A limit above 64 KiB that does not end a page is refused.
pub encode_refuses :
    (src : Structured) → 65536 < src.limit → src.limit % 2 ^ 12 ≢ 0xfff → encode src ≡ none
unfolding encode
encode_refuses src large h = ground (arith, bit_and_mask 12 src.limit)
