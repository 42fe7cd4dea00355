-- ===== src/Paging/Fill.antt =====
-- One table of a new page directory of src/kernel/memory/paging/paging.c, and the entry that names it.
use git_os.Base.{
  ℕ, zero, suc, ◌+◌, ◌-◌, ◌*◌, ◌/◌, ◌%◌, ◌^◌, ◌<◌, ◌≤◌, ◌≡◌, ◌≢◌, refl, ap, sym, ◌∙◌, inl, inr,
  arith, bit_or, ◌==◌, update, u32, Bool-cases, update_self, update_ne,
}
use git_os.Base.Bits.{bit_or_low, bit_or-zero, bit_or_field}
use git_os.Paging.{Words, page_size, fill_table}
use git_os.Paging.Slots.{page_of}

-- A table keeps the other pages, and has the entry of each of its pages.
pub fill_table-other :
    (words : Words) (table offset flags left j a : ℕ)
    → table % 4096 ≡ 0
    → page_of a ≢ table
    → j + left ≤ 1024
    → fill_table words table offset flags left j a ≡ words a
unfolding fill_table
fill_table-other words table offset flags zero j a t n h = refl
fill_table-other words table offset flags (suc left) j a t n h =
    let ne : a ≢ table + 4 * j = λ e. omega arith in
    fill_table-other (update words (table + 4 * j) (bit_or (u32 (offset + j * page_size)) flags))
      table offset flags left (j + 1) a t n (omega arith)
    ∙ update_ne words (table + 4 * j) a (bit_or (u32 (offset + j * page_size)) flags) ne

fill_table-before :
    (words : Words) (table offset flags left j k : ℕ)
    → k < j
    → fill_table words table offset flags left j (table + 4 * k) ≡ words (table + 4 * k)
unfolding fill_table
fill_table-before words table offset flags zero j k h = refl
fill_table-before words table offset flags (suc left) j k h =
    let ne : table + 4 * k ≢ table + 4 * j = λ e. omega arith in
    fill_table-before (update words (table + 4 * j) (bit_or (u32 (offset + j * page_size)) flags))
      table offset flags left (j + 1) k (omega arith)
    ∙ update_ne words (table + 4 * j) (table + 4 * k) (bit_or (u32 (offset + j * page_size)) flags)
        ne

pub fill_table-entry :
    (words : Words) (table offset flags left j k : ℕ)
    → j ≤ k
    → k < j + left
    → fill_table words table offset flags left j (table + 4 * k)
      ≡ bit_or (u32 (offset + k * page_size)) flags
unfolding fill_table
fill_table-entry words table offset flags zero j k h l = absurd (omega arith)
fill_table-entry words table offset flags (suc left) j k h l =
    let next = update words (table + 4 * j) (bit_or (u32 (offset + j * page_size)) flags) in
    elim (Bool-cases (k == j)) [
      | inl e ↦
          let same : j ≡ k = ground arith in
          fill_table-before next table offset flags left (j + 1) k (ground arith)
          ∙ ap (λ i. next (table + 4 * i)) (sym same)
          ∙ update_self words (table + 4 * j) (bit_or (u32 (offset + j * page_size)) flags)
          ∙ ap (λ i. bit_or (u32 (offset + i * page_size)) flags) same
      | inr e ↦ fill_table-entry next table offset flags left (j + 1) k (ground arith) (omega arith)
    ]

bit_or-two : (n : ℕ) → bit_or n 2 ≡ n - n % 4 + 2 + n % 2
bit_or-two n = omega (
  arith,
  bit_or_low n 2,
  bit_or_low (n / 2) (2 / 2),
  bit_or_low (n / 2 / 2) (2 / 2 / 2),
  bit_or-zero (n / 2 / 2),
)

pub entry_value : (t flags : ℕ) → t % 4096 ≡ 0 → flags < 256 → bit_or t flags ≡ t + flags
entry_value t flags h f =
    let whole : t / 4096 * 2 ^ 12 ≡ t = omega arith in
    ap (λ q. bit_or q flags) (sym whole)
    ∙ bit_or_field 12 (t / 4096) flags (omega arith)
    ∙ ap (λ (q : ℕ). q + flags) whole

-- The value of a directory's entry keeps its table's page, and is a word.
pub entry_page :
    (t flags : ℕ)
    → t % 4096 ≡ 0
    → flags < 256
    → t < 2 ^ 32
    → (page_of (bit_or (bit_or t flags) 2) ≡ t) × (bit_or (bit_or t flags) 2 < 2 ^ 32)
entry_page t flags h f w =
    let v = bit_or-two (bit_or t flags) in
    let e = entry_value t flags h f in (omega arith, omega arith)
