-- ===== src/Memory/Blocks.antt =====
-- What the functions do to blocks of memory, address by address.
use git_os.Base.{
  ℕ, zero, suc, ◌+◌, ◌-◌, ◌≤◌, ◌<◌, ◌≡◌, refl, ap, ◌∙◌, arith, ◌&&◌, ◌⊎◌, if◌then◌else◌, ◌==◌, ltb,
  leb, update, u8, ◌↔◌, true,
}
use git_os.Base.Int.{pos}
use native.Mathlib.Decide.{ℕ_discrete}
use git_os.Memory.{Bytes, memset_from, memset, memcpy_from, memcpy, memcmp}

memset_from_block :
    (ptr c left i : ℕ) (bytes : Bytes) (a : ℕ)
    → memset_from ptr c left i bytes a
      ≡ (if leb (ptr + i) a && ltb a (ptr + i + left) then u8 c else bytes a)
unfolding memset_from
memset_from_block ptr c zero i bytes a = ground arith
memset_from_block ptr c (suc left) i bytes a =
    ground (arith, memset_from_block ptr c left (i + 1) (update bytes (ptr + i) (u8 c)) a)

-- `memset` sets the bytes of the block to the low byte of the value, and no other byte.
pub memset_block :
    (bytes : Bytes) (ptr c size a : ℕ)
    → memset bytes ptr c size a ≡ (if leb ptr a && ltb a (ptr + size) then u8 c else bytes a)
unfolding memset
memset_block bytes ptr c size a = ground (arith, memset_from_block ptr c size 0 bytes a)

memcpy_from_block :
    (dst src left i : ℕ) (bytes : Bytes) (a : ℕ)
    → (dst ≤ src) ⊎ (src + i + left ≤ dst)
    → memcpy_from dst src left i bytes a
      ≡ (if leb (dst + i) a && ltb a (dst + i + left) then bytes (src + (a - dst)) else bytes a)
unfolding memcpy_from
memcpy_from_block dst src zero i bytes a h = ground arith
memcpy_from_block dst src (suc left) i bytes a h =
    ground
      (arith, memcpy_from_block dst src left (i + 1) (update bytes (dst + i) (bytes (src + i))) a)

-- Where the destination does not lie behind the source within its length, `memcpy` moves the block
-- as it was before, and changes no byte outside the destination.
pub memcpy_block :
    (bytes : Bytes) (dst src size a : ℕ)
    → (dst ≤ src) ⊎ (src + size ≤ dst)
    → memcpy bytes dst src size a
      ≡ (if leb dst a && ltb a (dst + size) then bytes (src + (a - dst)) else bytes a)
unfolding memcpy
memcpy_block bytes dst src size a h = ground (arith, memcpy_from_block dst src size 0 bytes a)

-- The two blocks hold the same bytes.
abbrev pub SameBytes : Bytes → ℕ → ℕ → ℕ → Type 0
SameBytes bytes c1 c2 len = (i : ℕ) → i < len → bytes (c1 + i) ≡ bytes (c2 + i)

at : (bytes : Bytes) (a b : ℕ) → a ≡ b → bytes a ≡ bytes b
at bytes a b e = ap bytes e

SameBytes-head :
    (bytes : Bytes) (c1 c2 len : ℕ) → SameBytes bytes c1 c2 (suc len) → bytes c1 ≡ bytes c2
SameBytes-head bytes c1 c2 len h =
    at bytes c1 (c1 + 0) (omega arith) ∙ h 0 (omega arith) ∙ at bytes (c2 + 0) c2 (omega arith)

SameBytes-tail :
    (bytes : Bytes) (c1 c2 len : ℕ)
    → SameBytes bytes c1 c2 (suc len)
    → SameBytes bytes (c1 + 1) (c2 + 1) len
SameBytes-tail bytes c1 c2 len h i p =
    at bytes (c1 + 1 + i) (c1 + suc i) (omega arith)
    ∙ h (suc i) (omega arith)
    ∙ at bytes (c2 + suc i) (c2 + 1 + i) (omega arith)

SameBytes-cons :
    (bytes : Bytes) (c1 c2 len : ℕ)
    → bytes c1 ≡ bytes c2
    → SameBytes bytes (c1 + 1) (c2 + 1) len
    → SameBytes bytes c1 c2 (suc len)
SameBytes-cons bytes c1 c2 len e h zero p =
    at bytes (c1 + 0) c1 (omega arith) ∙ e ∙ at bytes c2 (c2 + 0) (omega arith)
SameBytes-cons bytes c1 c2 len e h (suc i) p =
    at bytes (c1 + suc i) (c1 + 1 + i) (omega arith)
    ∙ h i (omega arith)
    ∙ at bytes (c2 + 1 + i) (c2 + suc i) (omega arith)

-- `memcmp` is 0 exactly when the two blocks hold the same bytes.
pub memcmp_zero_iff :
    (bytes : Bytes) (c1 c2 len : ℕ) → (memcmp bytes c1 c2 len ≡ pos 0) ↔ SameBytes bytes c1 c2 len
unfolding memcmp
memcmp_zero_iff bytes c1 c2 zero = (λ e i h. absurd (omega arith), λ h. refl)
memcmp_zero_iff bytes c1 c2 (suc len) =
    let rest = memcmp_zero_iff bytes (c1 + 1) (c2 + 1) len in
    elim (ℕ_discrete (bytes c1) (bytes c2)) [
      | no differ ↦
          (λ e. absurd (ground arith), λ h. absurd (differ (SameBytes-head bytes c1 c2 len h)))
      | yes same ↦
          let eq : (bytes c1 == bytes c2) ≡ true = ground arith in
          rw eq (
            λ e. SameBytes-cons bytes c1 c2 len same (rest.0 e),
            λ h. rest.1 (SameBytes-tail bytes c1 c2 len h),
          )
    ]
