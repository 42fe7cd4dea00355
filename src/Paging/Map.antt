-- ===== src/Paging/Map.antt =====
-- `paging_set_page`, `paging_map_range` and `paging_map_to` as updates of the map from pages to
-- entries.
use git_os.Base.{
  ℕ, zero, suc, ◌+◌, ◌-◌, ◌*◌, ◌/◌, ◌%◌, ◌^◌, ◌≤◌, ◌<◌, ◌≡◌, ◌≢◌, refl, ◌∙◌, sym, ap, ◌⊎◌, inl, inr,
  arith, Result, ok, err, einvarg, bit_or, ltb, leb, ◌==◌, ◌&&◌, if◌then◌else◌, update, Bool-cases,
  update_ne, update_self, ==_iff, add32, sub32,
}
use git_os.Paging.{
  Words, page_size, entries_per_table, set_page, get_page, map_page, map_range, map_to,
}
use git_os.Paging.Slots.{
  IsDirectory, IsPage, slot, set_page-slot, get_page-slot, slot_apart, slot-injective,
}

module _ (words : Words) (directory : ℕ) (d : IsDirectory words directory) where
  entry-update :
      (virtual value i : ℕ)
      → IsPage virtual
      → i < entries_per_table
      → update words (slot words directory virtual) value (directory + 4 * i)
        ≡ words (directory + 4 * i)
  entry-update virtual value i p h =
      update_ne words _ _ value (slot_apart words directory d virtual i p h)

  set_page_keeps :
      (virtual value i : ℕ)
      → IsPage virtual
      → i < entries_per_table
      → (set_page words directory virtual value).1 (directory + 4 * i) ≡ words (directory + 4 * i)
  set_page_keeps virtual value i p h =
      rw (set_page-slot words directory d virtual value p) (entry-update virtual value i p h)

  -- Setting an entry leaves the directory and its tables apart.
  pub set_page-IsDirectory :
      (virtual value : ℕ)
      → IsPage virtual
      → IsDirectory (set_page words directory virtual value).1 directory
  set_page-IsDirectory virtual value p =
      rw (set_page-slot words directory d virtual value p) (record {
        aligned = d.aligned;
        entry_word = λ i h. rw (entry-update virtual value i p h) (d.entry_word i h);
        table_apart = λ i h. rw (entry-update virtual value i p h) (d.table_apart i h);
        table_distinct = λ i j h k ne.
            rw (entry-update virtual value i p h, entry-update virtual value j p k)
              (d.table_distinct i j h k ne);
      })

  slot-set_page :
      (virtual value other : ℕ)
      → IsPage virtual
      → IsPage other
      → slot (set_page words directory virtual value).1 directory other ≡ slot words directory other
  slot-set_page virtual value other p q = rw (
    set_page-slot words directory d virtual value p,
    entry-update virtual value (other / 0x400000) p (omega arith),
  )

  get_page-slot_set :
      (virtual value other : ℕ)
      → IsPage virtual
      → IsPage other
      → get_page (set_page words directory virtual value).1 directory other
        ≡ update words (slot words directory virtual) value (slot words directory other)
  get_page-slot_set virtual value other p q =
      get_page-slot (set_page words directory virtual value).1 directory
        (set_page-IsDirectory virtual value p) other q
      ∙ ap (set_page words directory virtual value).1 (slot-set_page virtual value other p q)
      ∙ ap (λ (r : Result (Unit {0}) × Words). r.1 (slot words directory other))
          (set_page-slot words directory d virtual value p)

  -- In a directory whose tables lie apart, `paging_get_page` reads back what `paging_set_page` set
  -- for a page, and for any other page what was there before.
  pub get_page-set_page :
      (virtual value other : ℕ)
      → IsPage virtual
      → IsPage other
      → get_page (set_page words directory virtual value).1 directory other
        ≡ (if other == virtual then value else get_page words directory other)
  get_page-set_page virtual value other p q = elim (Bool-cases (other == virtual)) [
    | inl same ↦
        let same' = (==_iff other virtual).0 same in
        rw (same, get_page-slot_set virtual value other p q, same') (update_self words _ value)
    | inr differ ↦
        let apart : other ≢ virtual = ground arith in
        rw differ (
          get_page-slot_set virtual value other p q
          ∙ update_ne words _ _ value (slot-injective words directory d other virtual q p apart)
          ∙ sym (get_page-slot words directory d other q))
  ]

-- `words'` is `words` with `count` pages from `virtual` on mapped to those from `physical` on.
pub record IsMapped (words : Words) (directory virtual physical count flags : ℕ)
    (out : Result (Unit {0}) × Words) : Type 0 where
  pub returns : out.0 ≡ ok tt
  pub directory_kept : IsDirectory out.1 directory
  pub tables_kept :
      (i : ℕ) → i < entries_per_table → out.1 (directory + 4 * i) ≡ words (directory + 4 * i)
  pub entries :
      (other : ℕ)
      → IsPage other
      → get_page out.1 directory other ≡ (
          if leb virtual other && ltb other (virtual + page_size * count)
          then bit_or (physical + (other - virtual)) flags
          else get_page words directory other)

map_page-set_page :
    (words : Words) (directory virtual physical flags : ℕ)
    → virtual % page_size ≡ 0
    → physical % page_size ≡ 0
    → map_page words directory virtual physical flags
      ≡ set_page words directory virtual (bit_or physical flags)
unfolding map_page
map_page-set_page words directory virtual physical flags p q = ground arith

-- The table entries after the first round of the loop.
abbrev first_round : Words → ℕ → ℕ → ℕ → ℕ → Words
first_round words directory virtual physical flags =
    (set_page words directory virtual (bit_or physical flags)).1

map_page-first_round :
    (words : Words) (directory virtual physical flags : ℕ)
    → IsDirectory words directory
    → IsPage virtual
    → physical % page_size ≡ 0
    → map_page words directory virtual physical flags
      ≡ (ok tt, first_round words directory virtual physical flags)
map_page-first_round words directory virtual physical flags d p q =
    let set = set_page-slot words directory d virtual (bit_or physical flags) p in
    map_page-set_page words directory virtual physical flags p.0 q
    ∙ set
    ∙ ap (λ (r : Result (Unit {0}) × Words). let t : Result (Unit {0}) × Words = (ok tt, r.1) in t)
        (sym set)

map_range-suc :
    (words words' : Words) (directory virtual physical count flags : ℕ)
    → map_page words directory virtual physical flags ≡ (ok tt, words')
    → map_range words directory virtual physical (suc count) flags
      ≡ map_range words' directory (add32 virtual page_size) (add32 physical page_size) count flags
unfolding map_range
map_range-suc words words' directory virtual physical count flags e =
    ap {B = Result (Unit {0}) × Words}
      (λ (r : Result (Unit {0}) × Words). elim r.0 [
        | err c ↦ (err c, r.1)
        | ok _ ↦
            map_range r.1 directory (add32 virtual page_size) (add32 physical page_size) count flags
      ])
      e

with_first :
    (words : Words) (directory virtual physical count flags : ℕ)
    → IsDirectory words directory
    → IsPage virtual
    → physical % page_size ≡ 0
    → virtual + page_size * suc count ≤ 2 ^ 32
    → physical + page_size * suc count ≤ 2 ^ 32
    → (other : ℕ) → IsPage other
    → (if leb (add32 virtual page_size) other
          && ltb other (add32 virtual page_size + page_size * count)
        then bit_or (add32 physical page_size + (other - add32 virtual page_size)) flags
        else get_page (first_round words directory virtual physical flags) directory other)
      ≡ (if leb virtual other && ltb other (virtual + page_size * suc count)
          then bit_or (physical + (other - virtual)) flags
          else get_page words directory other)
with_first words directory virtual physical count flags d p q r s other o =
    ground (arith, get_page-set_page words directory d virtual (bit_or physical flags) other p o)

map_range-IsMapped :
    (words : Words) (directory virtual physical count flags : ℕ)
    → IsDirectory words directory
    → IsPage virtual
    → physical % page_size ≡ 0
    → virtual + page_size * count ≤ 2 ^ 32
    → physical + page_size * count ≤ 2 ^ 32
    → IsMapped words directory virtual physical count flags
        (map_range words directory virtual physical count flags)
unfolding map_range
map_range-IsMapped words directory virtual physical zero flags d p q r s = record {
  returns = refl;
  directory_kept = d;
  tables_kept = λ i h. refl;
  entries = λ other o. ground arith;
}
map_range-IsMapped words directory virtual physical (suc count) flags d p q r s =
    let words' = first_round words directory virtual physical flags in
    let d' = set_page-IsDirectory words directory d virtual (bit_or physical flags) p in
    let rest =
      map_range-IsMapped words' directory (add32 virtual page_size) (add32 physical page_size) count
        flags d' (omega arith) (omega arith) (omega arith) (omega arith) in
    rw
      (map_range-suc words words' directory virtual physical count flags
        (map_page-first_round words directory virtual physical flags d p q))
      (record {
        returns = rest.returns;
        directory_kept = rest.directory_kept;
        tables_kept = λ i h.
            rest.tables_kept i h
            ∙ set_page_keeps words directory d virtual (bit_or physical flags) i p h;
        entries = λ other o.
            rest.entries other o
            ∙ with_first words directory virtual physical count flags d p q r s other o;
      })

-- In a directory whose tables lie apart, `paging_map_to` of page-aligned bounds inside the address
-- space returns 0, maps each page of the range to its physical page with the flags, and changes the
-- entry of no other page and no word of the directory.
pub map_to-IsMapped :
    (words : Words) (directory virtual physical count flags : ℕ)
    → IsDirectory words directory
    → IsPage virtual
    → physical % page_size ≡ 0
    → virtual + page_size * count ≤ 2 ^ 32
    → physical + page_size * count < 2 ^ 32
    → IsMapped words directory virtual physical count flags
        (map_to words directory virtual physical (physical + page_size * count) flags)
map_to-IsMapped words directory virtual physical count flags d p q r s =
    rw enters
      (map_range-IsMapped words directory virtual physical count flags d p q r (omega arith))
  where
    enters :
        map_to words directory virtual physical (physical + page_size * count) flags
        ≡ map_range words directory virtual physical count flags
    enters =
        let pages : sub32 (physical + page_size * count) physical / page_size ≡ count =
          omega arith in
        unfold map_to in
        ground (arith, ap (λ n. map_range words directory virtual physical n flags) pages)

-- Where an address is not page-aligned or the physical range ends before it begins,
-- `paging_map_to` returns -EINVARG and changes no word.
pub map_to_refuses :
    (words : Words) (directory virtual physical physical_end flags : ℕ)
    → (virtual % page_size ≢ 0)
      ⊎ (physical % page_size ≢ 0)
      ⊎ (physical_end % page_size ≢ 0)
      ⊎ (physical_end < physical)
    → map_to words directory virtual physical physical_end flags ≡ (err einvarg, words)
unfolding map_to
map_to_refuses words directory virtual physical physical_end flags h = ground arith
