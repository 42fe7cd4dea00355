-- ===== src/Base/Bits.antt =====
-- `&` and `|` with masks and flags, as arithmetic: the laws of one binary digit, and by induction
-- on the width those of a field.
use Prim.Native.Nat.{
  ℕ, zero, suc, ◌+◌, ◌*◌, ◌/◌, ◌%◌, ◌^◌, ◌-◌, ◌≤◌, ◌<◌, min, max, bit_and, bit_or, digits,
  bit_and-bitwise, bit_or-bitwise,
}
use mathlib.Core.Path.{◌≡◌, refl, ap}
use native.Mathlib.Nat.{pow-suc, one-le-pow, div-add-mod, div-div-eq-div-mul}
use native.Mathlib.Omega.{arith}

module _ (rest : ℕ → ℕ) (digit : ℕ → ℕ → ℕ) where
  -- Any count of digits that reaches to the end of the first number gives the same result.
  enough_digits : (u v k l : ℕ) → u ≤ k → u ≤ l → digits rest digit k u v ≡ digits rest digit l u v
  enough_digits zero v zero zero f g = refl
  enough_digits zero v (suc k) zero f g = refl
  enough_digits zero v zero (suc l) f g = refl
  enough_digits zero v (suc k) (suc l) f g = refl
  enough_digits (suc u) v zero l f g = absurd (omega arith)
  enough_digits (suc u) v (suc k) zero f g = absurd (omega arith)
  enough_digits (suc u) v (suc k) (suc l) f g =
      ap (λ (high : ℕ). high * 2 + digit (suc u % 2) (v % 2))
        (enough_digits (suc u / 2) (v / 2) k l (omega arith) (omega arith))

and_digits :
    (u v : ℕ) → bit_and (suc u) v ≡ min (suc u % 2) (v % 2) + 2 * bit_and (suc u / 2) (v / 2)
and_digits u v =
    let high =
      enough_digits (λ _. 0) min (suc u / 2) (v / 2) u (suc u / 2) (omega arith) (omega arith) in
    omega (arith, high, bit_and-bitwise (suc u / 2) (v / 2), bit_and-bitwise (suc u) v)

or_digits : (u v : ℕ) → bit_or (suc u) v ≡ max (suc u % 2) (v % 2) + 2 * bit_or (suc u / 2) (v / 2)
or_digits u v =
    let high =
      enough_digits (λ y. y) max (suc u / 2) (v / 2) u (suc u / 2) (omega arith) (omega arith) in
    omega (arith, high, bit_or-bitwise (suc u / 2) (v / 2), bit_or-bitwise (suc u) v)

pub bit_and_low : (u v : ℕ) → bit_and u v ≡ min (u % 2) (v % 2) + 2 * bit_and (u / 2) (v / 2)
bit_and_low zero v = omega (arith, bit_and-bitwise 0 (v / 2), bit_and-bitwise 0 v)
bit_and_low (suc u) v = and_digits u v

pub bit_or_low : (u v : ℕ) → bit_or u v ≡ max (u % 2) (v % 2) + 2 * bit_or (u / 2) (v / 2)
bit_or_low zero v = omega (arith, bit_or-bitwise 0 (v / 2), bit_or-bitwise 0 v)
bit_or_low (suc u) v = or_digits u v

bit_and-zero_below : (bound u : ℕ) → u ≤ bound → bit_and u 0 ≡ 0
bit_and-zero_below n zero h = refl
bit_and-zero_below zero (suc a) h = absurd (omega arith)
bit_and-zero_below (suc n) (suc a) h =
    omega (arith, bit_and_low (suc a) 0, bit_and-zero_below n (suc a / 2) (omega arith))

pub bit_and-zero : (u : ℕ) → bit_and u 0 ≡ 0
bit_and-zero u = bit_and-zero_below u u (omega arith)

bit_or-zero_below : (n a : ℕ) → a ≤ n → bit_or a 0 ≡ a
bit_or-zero_below n zero h = refl
bit_or-zero_below zero (suc a) h = absurd (omega arith)
bit_or-zero_below (suc n) (suc a) h =
    omega (arith, bit_or_low (suc a) 0, bit_or-zero_below n (suc a / 2) (omega arith))

pub bit_or-zero : (a : ℕ) → bit_or a 0 ≡ a
bit_or-zero a = bit_or-zero_below a a (omega arith)

twice_pow : (q k : ℕ) → q * 2 ^ suc k ≡ 2 * (q * 2 ^ k)
twice_pow q k = omega (arith, ap (λ (p : ℕ). q * p) (pow-suc 2 k))

double_pow : (k : ℕ) → 2 ^ suc k ≡ 2 * 2 ^ k
double_pow k = omega (arith, pow-suc 2 k)

mod_double : (p a : ℕ) → a % (2 * p) ≡ a / 2 % p * 2 + a % 2
mod_double p a =
    omega (arith, div-add-mod (a / 2) p, rw (← div-div-eq-div-mul) at (div-add-mod a (2 * p)))

-- `a & (2^k - 1)` is the remainder by `2^k`.
pub bit_and_mask : (k a : ℕ) → bit_and a (2 ^ k - 1) ≡ a % 2 ^ k
bit_and_mask zero a = omega (arith, bit_and-zero a)
bit_and_mask (suc k) a =
    let ones : (2 ^ suc k - 1) / 2 ≡ 2 ^ k - 1 = omega (arith, pow-suc 2 k, one-le-pow k 2) in
    let odd : (2 ^ suc k - 1) % 2 ≡ 1 = omega (arith, pow-suc 2 k, one-le-pow k 2) in
    let half = bit_and_mask k (a / 2) in
    rw (bit_and_low, ones, odd, half, double_pow k, mod_double) (omega arith)

-- A mask shifted up by `k` looks at the digits from `k` on.
pub bit_and_shifted : (k a m : ℕ) → bit_and a (m * 2 ^ k) ≡ bit_and (a / 2 ^ k) m * 2 ^ k
bit_and_shifted zero a m =
    let same : m * 2 ^ 0 ≡ m = omega arith in
    let whole : a / 2 ^ 0 ≡ a = omega arith in rw (same, whole) (omega arith)
bit_and_shifted (suc k) a m =
    let even : m * 2 ^ suc k % 2 ≡ 0 = omega (arith, twice_pow m k) in
    let half : m * 2 ^ suc k / 2 ≡ m * 2 ^ k = omega (arith, twice_pow m k) in
    let rest = bit_and_shifted k (a / 2) m in
    rw (bit_and_low a (m * 2 ^ suc k), even, half, rest, double_pow k, ← div-div-eq-div-mul)
      (omega arith)

-- `|` of a number shifted up by `k` and one of `k` digits is their sum.
pub bit_or_field : (k q r : ℕ) → r < 2 ^ k → bit_or (q * 2 ^ k) r ≡ q * 2 ^ k + r
bit_or_field zero q r h = ground (arith, bit_or-zero q)
bit_or_field (suc k) q r h =
    let even : q * 2 ^ suc k % 2 ≡ 0 = omega (arith, twice_pow q k) in
    let half : q * 2 ^ suc k / 2 ≡ q * 2 ^ k = omega (arith, twice_pow q k) in
    let rest = bit_or_field k q (r / 2) (omega (arith, pow-suc 2 k)) in
    rw (bit_or_low, even, half, rest) (omega (arith, twice_pow q k))
