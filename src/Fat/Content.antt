-- ===== src/Fat/Content.antt =====
-- A file as the cluster chains of src/kernel/fs/fat16/fat16.c give it: its clusters and its bytes.
use git_os.Base.{
  ℕ, zero, suc, ◌+◌, ◌*◌, ◌/◌, ◌%◌, ◌^◌, ◌<◌, ◌≤◌, ◌≡◌, refl, ap, ◌∙◌, sym, arith, some, List, [],
  ◌∷◌, ◌++◌, ok,
}
use native.Mathlib.Nat.{
  mul-add-div_right, mul-add-mod_self_right, div-eq_of_lt, mod-eq_of_lt, div-add-mod',
}
use git_os.Disk.{Drive}
use git_os.Disk.Stream.{byte_at, bytes}
use git_os.Fat.{FatPrivate, cluster_bytes, walk_from, cluster_to_sector, sector_to_absolute}

abbrev pub cluster_position : FatPrivate → ℕ → ℕ
cluster_position fs c = sector_to_absolute fs (cluster_to_sector fs c)

-- A file as its chain gives it, with the clusters up to `last` in it and on the drive.
pub record IsFile (drive : Drive) (fs : FatPrivate) (start : ℕ) (cluster : ℕ → ℕ) (last : ℕ)
    : Type 0 where
  pub chain : (k : ℕ) → k ≤ last → walk_from drive fs k start ≡ some (ok (cluster k))
  pub positive : (k : ℕ) → k ≤ last → 0 < cluster k
  pub int : (k : ℕ) → k ≤ last → cluster k < 2 ^ 31
  pub held : (k : ℕ) → k ≤ last → cluster_position fs (cluster k) + cluster_bytes fs < 2 ^ 31

-- The bytes of the file, each in the cluster of its place.
abbrev pub file_byte : Drive → FatPrivate → (ℕ → ℕ) → ℕ → ℕ
file_byte drive fs cluster j =
    byte_at drive (cluster_position fs (cluster (j / cluster_bytes fs)) + j % cluster_bytes fs)

unfoldable pub file_bytes : Drive → FatPrivate → (ℕ → ℕ) → ℕ → ℕ → List ℕ
file_bytes drive fs cluster p zero = []
file_bytes drive fs cluster p (suc n) =
    file_byte drive fs cluster p ∷ file_bytes drive fs cluster (p + 1) n

pub file_bytes-++ :
    (drive : Drive) (fs : FatPrivate) (cluster : ℕ → ℕ) (p n m k : ℕ)
    → n + m ≡ k
    → file_bytes drive fs cluster p n ++ file_bytes drive fs cluster (p + n) m
      ≡ file_bytes drive fs cluster p k
unfolding file_bytes
file_bytes-++ drive fs cluster p zero m k h =
    ap (λ q. file_bytes drive fs cluster q m) {x = p + 0} {y = p} (omega arith)
    ∙ ap (file_bytes drive fs cluster p) (omega arith)
file_bytes-++ drive fs cluster p (suc n) m zero h = absurd (omega arith)
file_bytes-++ drive fs cluster p (suc n) m (suc k) h =
    ap (λ l. file_byte drive fs cluster p ∷ l)
      (ap (λ q. file_bytes drive fs cluster (p + 1) n ++ file_bytes drive fs cluster q m)
          (omega arith)
        ∙ file_bytes-++ drive fs cluster (p + 1) n m k (omega arith))

quotient : (q r size : ℕ) → r < size → (q * size + r) / size ≡ q
quotient q r size h =
    mul-add-div_right (omega arith) q r ∙ ap (λ (x : ℕ). q + x) (div-eq_of_lt h) ∙ omega arith

remainder : (q r size : ℕ) → r < size → (q * size + r) % size ≡ r
remainder q r size h = mul-add-mod_self_right q size r ∙ mod-eq_of_lt h

file_byte_within :
    (drive : Drive) (fs : FatPrivate) (cluster : ℕ → ℕ) (q r : ℕ)
    → r < cluster_bytes fs
    → byte_at drive (cluster_position fs (cluster q) + r)
      ≡ file_byte drive fs cluster (q * cluster_bytes fs + r)
file_byte_within drive fs cluster q r h = sym (
    ap
      (λ k.
        byte_at drive
          (cluster_position fs (cluster k) + (q * cluster_bytes fs + r) % cluster_bytes fs))
      (quotient q r (cluster_bytes fs) h)
    ∙ ap (λ k. byte_at drive (cluster_position fs (cluster q) + k))
        (remainder q r (cluster_bytes fs) h))

-- A stretch within a cluster.
bytes-file_bytes :
    (drive : Drive) (fs : FatPrivate) (cluster : ℕ → ℕ) (q r n : ℕ)
    → r + n ≤ cluster_bytes fs
    → bytes drive (cluster_position fs (cluster q) + r) n
      ≡ file_bytes drive fs cluster (q * cluster_bytes fs + r) n
unfolding bytes file_bytes
bytes-file_bytes drive fs cluster q r zero h = refl
bytes-file_bytes drive fs cluster q r (suc n) h =
    ap (λ b. b ∷ bytes drive (cluster_position fs (cluster q) + r + 1) n)
      (file_byte_within drive fs cluster q r (omega arith))
    ∙ ap (λ l. file_byte drive fs cluster (q * cluster_bytes fs + r) ∷ l)
        (ap (λ p. bytes drive p n) (omega arith)
          ∙ bytes-file_bytes drive fs cluster q (r + 1) n (omega arith)
          ∙ ap (λ p. file_bytes drive fs cluster p n) (omega arith))

-- The bytes of one round, at an offset.
pub round_bytes :
    (drive : Drive) (fs : FatPrivate) (cluster : ℕ → ℕ) (offset n : ℕ)
    → offset % cluster_bytes fs + n ≤ cluster_bytes fs
    → bytes drive
        (cluster_position fs (cluster (offset / cluster_bytes fs)) + offset % cluster_bytes fs)
        n
      ≡ file_bytes drive fs cluster offset n
round_bytes drive fs cluster offset n h =
    bytes-file_bytes drive fs cluster (offset / cluster_bytes fs) (offset % cluster_bytes fs) n h
    ∙ ap (λ p. file_bytes drive fs cluster p n) (div-add-mod' offset (cluster_bytes fs))
