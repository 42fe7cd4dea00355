-- ===== src/Memory.antt =====
-- `memset`, `memcpy` and `memcmp` of src/kernel/memory/memory.c. Memory is a function from addresses to
-- bytes; the pointers are addresses that do not wrap within the length.
pub mod Blocks
mod Tests
use git_os.Base.{ℕ, zero, suc, ◌+◌, ◌%◌, if◌then◌else◌, ◌==◌, ltb, not, update, u8}
use git_os.Base.Int.{ℤ, pos, negsuc}

abbrev pub Bytes : Type 0
Bytes = ℕ → ℕ

-- The loop of `memset` at round `i`.
unfoldable pub memset_from : ℕ → ℕ → ℕ → ℕ → Bytes → Bytes
memset_from ptr c zero i bytes = bytes
memset_from ptr c (suc left) i bytes =
    memset_from ptr c left (i + 1) (update bytes (ptr + i) (u8 c))

unfoldable pub memset : Bytes → ℕ → ℕ → ℕ → Bytes
memset bytes ptr c size = memset_from ptr c size 0 bytes

-- The loop of `memcpy` at round `i`.
pub memcpy_from : ℕ → ℕ → ℕ → ℕ → Bytes → Bytes
memcpy_from dst src zero i bytes = bytes
memcpy_from dst src (suc left) i bytes =
    memcpy_from dst src left (i + 1) (update bytes (dst + i) (bytes (src + i)))

pub memcpy : Bytes → ℕ → ℕ → ℕ → Bytes
memcpy bytes dst src size = memcpy_from dst src size 0 bytes

pub memcmp : Bytes → ℕ → ℕ → ℕ → ℤ
memcmp bytes c1 c2 zero = pos 0
memcmp bytes c1 c2 (suc len) =
    let rest = memcmp bytes (c1 + 1) (c2 + 1) len in
    if not (bytes c1 == bytes c2)
    then if ltb (bytes c1) (bytes c2) then negsuc 0 else pos 1
    else rest
