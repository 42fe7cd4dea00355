-- ===== src/Disk/Stream.antt =====
-- What `diskstreamer_read` of src/kernel/drivers/disk/disk_streamer.c gives out.
use git_os.Base.{
  ℕ, zero, suc, ◌+◌, ◌-◌, ◌*◌, ◌/◌, ◌%◌, ◌^◌, ◌<◌, ◌≤◌, ◌≡◌, refl, ap, ◌∙◌, sym, arith, Bool, true,
  false, some, List, [], ◌∷◌, ◌++◌, leb, if◌then◌else◌, length, bit_or, Bool-cases, inl, inr,
  leb→le, lt→ltb,
}
use mathlib.Core.Option
use git_os.Base.Bits.{bit_and_mask, bit_or_low}
use git_os.Disk.{Drive, copy_bytes, read_from, stream_read, sector_command}

-- The byte of the drive at an absolute position.
abbrev pub byte_at : Drive → ℕ → ℕ
byte_at drive p = drive (p / 512) (p % 512)

-- The bytes of the drive from a position on.
unfoldable pub bytes : Drive → ℕ → ℕ → List ℕ
bytes drive p zero = []
bytes drive p (suc n) = byte_at drive p ∷ bytes drive (p + 1) n

pub length-bytes : (drive : Drive) (p n : ℕ) → length (bytes drive p n) ≡ n
unfolding bytes
length-bytes drive p zero = refl
length-bytes drive p (suc n) = ap suc (length-bytes drive (p + 1) n)

pub bytes-++ :
    (drive : Drive) (p n m k : ℕ)
    → n + m ≡ k
    → bytes drive p n ++ bytes drive (p + n) m ≡ bytes drive p k
unfolding bytes
bytes-++ drive p zero m k h =
    ap (λ q. bytes drive q m) {x = p + 0} {y = p} (omega arith) ∙ ap (bytes drive p) (omega arith)
bytes-++ drive p (suc n) m zero h = absurd (omega arith)
bytes-++ drive p (suc n) m (suc k) h =
    ap (λ l. byte_at drive p ∷ l)
      (ap (λ q. bytes drive (p + 1) n ++ bytes drive q m) (omega arith)
        ∙ bytes-++ drive (p + 1) n m k (omega arith))

byte_at_sector :
    (drive : Drive) (sector offset : ℕ)
    → offset < 512
    → drive sector offset ≡ byte_at drive (sector * 512 + offset)
byte_at_sector drive sector offset h =
    let q : (sector * 512 + offset) / 512 ≡ sector = omega arith in
    let r : (sector * 512 + offset) % 512 ≡ offset = omega arith in
    sym (ap (λ x. drive x ((sector * 512 + offset) % 512)) q ∙ ap (drive sector) r)

copy_bytes-bytes :
    (drive : Drive) (sector offset n : ℕ)
    → offset + n ≤ 512
    → copy_bytes (drive sector) offset n ≡ bytes drive (sector * 512 + offset) n
unfolding copy_bytes bytes
copy_bytes-bytes drive sector offset zero h = refl
copy_bytes-bytes drive sector offset (suc n) h =
    ap (λ b. b ∷ copy_bytes (drive sector) (offset + 1) n)
      (byte_at_sector drive sector offset (omega arith))
    ∙ ap (λ l. byte_at drive (sector * 512 + offset) ∷ l)
        (copy_bytes-bytes drive sector (offset + 1) n (omega arith)
          ∙ ap (λ q. bytes drive q n) (omega arith))

-- The part of the sector at a position.
copy_here :
    (drive : Drive) (p n : ℕ)
    → p % 512 + n ≤ 512
    → copy_bytes (drive (p / 512)) (p % 512) n ≡ bytes drive p n
copy_here drive p n h =
    copy_bytes-bytes drive (p / 512) (p % 512) n h ∙ ap (λ q. bytes drive q n) (omega arith)

-- One round of the loop, on either side of its test.
read_from-step :
    (drive : Drive) (fuel p total k : ℕ) (b : Bool)
    → leb 512 (p % 512 + total) ≡ b
    → (if b then total - (p % 512 + total - 512) else total) ≡ k
    → read_from drive (suc fuel) p total ≡ (
        if b
        then Option.map
            (λ r. (copy_bytes (drive (p / 512)) (p % 512) k ++ r.0, r.1))
            (read_from drive fuel (p + k) (total - k))
        else some (copy_bytes (drive (p / 512)) (p % 512) k, p + k))
unfolding read_from
read_from-step drive fuel p total k true e f = rw (e, f) refl
read_from-step drive fuel p total k false e f = rw (e, f) refl

read_from-bytes :
    (drive : Drive) (fuel p total : ℕ)
    → total < fuel
    → read_from drive fuel p total ≡ some (bytes drive p total, p + total)
read_from-bytes drive zero p total h = absurd (omega arith)
read_from-bytes drive (suc fuel) p total h = elim (Bool-cases (leb 512 (p % 512 + total))) [
  | inl e ↦
      let k = 512 - p % 512 in
      let le : 512 ≤ p % 512 + total = leb→le 512 (p % 512 + total) e in
      read_from-step drive fuel p total k true e (omega arith)
      ∙ ap (Option.map (λ r. (copy_bytes (drive (p / 512)) (p % 512) k ++ r.0, r.1)))
          (read_from-bytes drive fuel (p + k) (total - k) (omega arith))
      ∙ ap some (
          ap (λ l. (l ++ bytes drive (p + k) (total - k), p + k + (total - k)))
            (copy_here drive p k (omega arith))
          ∙ ap (λ l. (l, p + k + (total - k))) (bytes-++ drive p k (total - k) total (omega arith))
          ∙ ap (λ q. (bytes drive p total, q)) (omega arith))
  | inr e ↦
      read_from-step drive fuel p total total false e refl
      ∙ ap (λ l. some (l, p + total)) (copy_here drive p total (ground arith))
]

-- `diskstreamer_read` reads the bytes of the drive from the stream's position on and moves the
-- position behind them, over as many sectors as they take, where the position stays an `int`.
pub stream_read-bytes :
    (drive : Drive) (p total : ℕ)
    → p + total < 2 ^ 31
    → stream_read drive p total ≡ some (bytes drive p total, p + total)
unfolding stream_read
stream_read-bytes drive p total h =
    rw (lt→ltb (p + total) (2 ^ 31) h) (read_from-bytes drive (suc total) p total (omega arith))

-- What the drive makes of the address registers: the sector's number out of four bytes.
abbrev pub addressed : List (ℕ × ℕ) → ℕ
addressed ((_, top) ∷ _ ∷ (_, low) ∷ (_, mid) ∷ (_, high) ∷ _) =
    low + mid * 2 ^ 8 + high * 2 ^ 16 + top % 2 ^ 4 * 2 ^ 24
addressed _ = 0

low_digits-bit_or : (a : ℕ) → bit_or a 0xE0 % 2 ^ 4 ≡ a % 2 ^ 4
low_digits-bit_or a = omega (
  arith,
  bit_or_low a 224,
  bit_or_low (a / 2) (224 / 2),
  bit_or_low (a / 2 / 2) (224 / 2 / 2),
  bit_or_low (a / 2 / 2 / 2) (224 / 2 / 2 / 2),
)

-- The registers that `disk_read_sector` writes address the sector, where its number has 28 bits.
pub sector_command-addressed :
    (lba total : ℕ) → lba < 2 ^ 28 → addressed (sector_command lba total) ≡ lba
unfolding sector_command
sector_command-addressed lba total h =
    omega (arith, bit_and_mask 8 lba, low_digits-bit_or (lba / 2 ^ 24))
