-- ===== src/Heap/Owners.antt =====
-- Who owns which blocks of the table, over a run of requests and frees.
use git_os.Base.{
  ℕ, ◌+◌, ◌-◌, ◌≤◌, ◌<◌, ◌≡◌, refl, sym, ap, ◌∙◌, inl, inr, arith, none, List, [], ◌∷◌, ◌++◌, ltb,
  leb, lt→ltb, ◌&&◌, false, if◌then◌else◌, Bool-cases,
}
use mathlib.Core.Path.{subst}
use git_os.Heap.{
  Heap, get_start_block, malloc, free, mark_blocks_free, block_to_address, address_to_block,
}
use git_os.Heap.Search.{AllFree}
use git_os.Heap.Marks.{free_from_chain, IsChain}
use git_os.Heap.Malloc.{
  IsTable, IsEntry, IsAllocated, blocks_of, entry_of_free, malloc-none, malloc-IsAllocated,
}
use git_os.Heap.RoundTrip.{IsPlaced, address_to_block-block_to_address}

-- The allocations of a client, each its first block and the number of its blocks.
abbrev Owned : Type 0
Owned = List (ℕ × ℕ)

-- The byte of a block of an allocation that ends before `end`, and the byte of any block.
abbrev pub link : ℕ → ℕ → ℕ
link end j = if ltb (j + 1) end then 0x81 else 0x01

abbrev pub entry_of : Owned → ℕ → ℕ
entry_of [] j = 0
entry_of ((s, n) ∷ owned) j = if leb s j && ltb j (s + n) then link (s + n) j else entry_of owned j

-- No block has two owners, and none lies outside the table.
abbrev pub Apart : ℕ → Owned → Type 0
Apart total [] = Unit {0}
Apart total ((s, n) ∷ owned) =
    (0 < n)
    × (s + n ≤ total)
    × ((j : ℕ) → s ≤ j → j < s + n → entry_of owned j ≡ 0)
    × Apart total owned

-- The table shows exactly what the client owns.
pub record Shows (h : Heap) (owned : Owned) : Type 0 where
  pub placed : IsPlaced h
  pub apart : Apart h.total owned
  pub entries : (j : ℕ) → j < h.total → h.entries j ≡ entry_of owned j

entry_of-IsEntry : (owned : Owned) (j : ℕ) → IsEntry (entry_of owned j)
entry_of-IsEntry [] j = inl refl
entry_of-IsEntry ((s, n) ∷ owned) j = elim (Bool-cases (leb s j && ltb j (s + n))) [
  | inl within ↦ elim (Bool-cases (ltb (j + 1) (s + n))) [
    | inl more ↦ rw (within, more) (inr (inr refl))
    | inr end ↦ rw (within, end) (inr (inl refl))
  ]
  | inr outside ↦ rw outside (entry_of-IsEntry owned j)
]

Shows-IsTable : (h : Heap) (owned : Owned) → Shows h owned → IsTable h
Shows-IsTable h owned s j inside = rw (s.entries j inside) (entry_of-IsEntry owned j)

-- One allocation among the others.
record Released (total s n : ℕ) (owned rest : Owned) : Type 0 where
  some_block : 0 < n
  inside : s + n ≤ total
  chain : (j : ℕ) → s ≤ j → j < s + n → entry_of owned j ≡ link (s + n) j
  others : (j : ℕ) → entry_of rest j ≡ (if leb s j && ltb j (s + n) then 0 else entry_of owned j)
  apart : Apart total rest

release_among :
    (total s n : ℕ) (front back : Owned)
    → Apart total (front ++ ((s, n) ∷ back))
    → Released total s n (front ++ ((s, n) ∷ back)) (front ++ back)
release_among total s n [] back (p, q, r, d) = record {
  some_block = p;
  inside = q;
  chain = λ j a b. ground arith;
  others = λ j. ground (arith, r j);
  apart = d;
}
release_among total s n ((t, m) ∷ front) back (p, q, r, d) =
    let ih = release_among total s n front back d in
    record {
      some_block = ih.some_block;
      inside = ih.inside;
      chain = λ j a b. ground (arith, r j, ih.chain j a b);
      others = λ j. ground (arith, r j, ih.chain j, ih.others j);
      apart = (p, q, λ j a b. ground (arith, r j a b, ih.others j), ih.apart);
    }

-- What a client does: it requests a block or more where the table has enough free ones in a row and
-- owns what it is given, its request is refused as no block is free, or it frees an allocation of its own.
pub data Step (h : Heap) (owned : Owned) : Heap → Owned → Type 0 where
  request :
      (size run : ℕ)
      → 0 < blocks_of size
      → run + blocks_of size ≤ h.total
      → AllFree h.entries run (run + blocks_of size)
      → Step h owned
          (malloc h size).1
          ((address_to_block h (malloc h size).0, blocks_of size) ∷ owned)
  refused :
      (size : ℕ) → get_start_block h (blocks_of size) ≡ none → Step h owned (malloc h size).1 owned
  release :
      (front back : Owned) (s n : ℕ)
      → owned ≡ front ++ ((s, n) ∷ back)
      → Step h owned (free h (block_to_address h s)) (front ++ back)

pub data Reach (h : Heap) : Heap → Owned → Type 0 where
  here : Reach h h []
  next :
      {k l : Heap} {owned owned' : Owned}
      → Reach h k owned
      → Step k owned l owned'
      → Reach h l owned'

-- The bytes behind the table are as they were.
pub record SameBehind (h k : Heap) : Type 0 where
  pub same_total : k.total ≡ h.total
  pub kept : (j : ℕ) → h.total ≤ j → k.entries j ≡ h.entries j

request-Shows :
    (h : Heap) (owned : Owned) (size s : ℕ) (out : ℕ × Heap)
    → IsAllocated h size s out
    → 0 < blocks_of size
    → Shows h owned
    → Shows out.1 ((address_to_block h out.0, blocks_of size) ∷ owned) × SameBehind h out.1
request-Shows h owned size s out a pos shows =
    let table = Shows-IsTable h owned shows in
    let block : address_to_block h out.0 ≡ s =
      ap (address_to_block h) a.address
      ∙ address_to_block-block_to_address h h s shows.placed refl (omega (arith, a.inside)) in
    let free_at : (j : ℕ) → s ≤ j → j < s + blocks_of size → entry_of owned j ≡ 0 = λ j p q.
      sym (shows.entries j (omega (arith, a.inside)))
      ∙ entry_of_free (h.entries j) (table j (omega (arith, a.inside))) (a.were_free j p q) in
    rw block (
      record {
        placed = record {
          below_top = rw (a.same_total, a.same_start) shows.placed.below_top;
          half = rw a.same_total shows.placed.half;
        };
        apart = (
          pos,
          omega (arith, a.inside, a.same_total),
          free_at,
          subst (λ t. Apart t owned) (sym a.same_total) shows.apart,
        );
        entries = λ j inside. elim (Bool-cases (leb s j && ltb j (s + blocks_of size))) [
          | inl within ↦ rw within (a.now_taken j (ground arith) (ground arith))
          | inr outside ↦
              rw outside
                (a.others j (ground arith) ∙ shows.entries j (omega (arith, inside, a.same_total)))
        ];
      },
      record { same_total = a.same_total; kept = λ j behind. a.others j (omega (arith, a.inside)) },
    )

release-Shows :
    (h : Heap) (s n : ℕ) (owned rest : Owned)
    → Released h.total s n owned rest
    → Shows h owned
    → Shows (free h (block_to_address h s)) rest × SameBehind h (free h (block_to_address h s))
unfolding free mark_blocks_free
release-Shows h s n owned rest r shows =
    let block : address_to_block h (block_to_address h s) ≡ s =
      address_to_block-block_to_address h h s shows.placed refl
        (omega (arith, r.inside, r.some_block)) in
    let byte : (j : ℕ) → s ≤ j → j < s + n → h.entries j ≡ link (s + n) j =
      λ j p q. shows.entries j (omega (arith, r.inside)) ∙ r.chain j p q in
    let chain : IsChain h.entries s (s + n) = record {
      some_block = omega (arith, r.some_block);
      linked = λ i p q. rw (byte i p (omega arith), lt→ltb _ _ q);
      last = λ i e.
          let end : ltb (i + 1) (s + n) ≡ false = ground arith in
          rw (byte i (omega (arith, r.some_block)) (omega arith), end);
    } in
    let freed : (j : ℕ)
        → (free h (block_to_address h s)).entries j
          ≡ (if leb s j && ltb j (s + n) then 0 else h.entries j) =
      λ j.
        rw block
          (free_from_chain (h.total - s) s h.entries (s + n) j chain (omega (arith, r.inside))) in
    (
      record {
        placed = record { below_top = shows.placed.below_top; half = shows.placed.half };
        apart = r.apart;
        entries = λ j inside. freed j ∙ ground (arith, shows.entries j inside, r.others j);
      },
      record { same_total = refl; kept = λ j behind. freed j ∙ ground (arith, r.inside) },
    )

Step-Shows :
    {h k : Heap} {owned owned' : Owned}
    → Step h owned k owned'
    → Shows h owned
    → Shows k owned' × SameBehind h k
Step-Shows {h} {owned = owned} (request size run pos fits clear) shows =
    let (s, a, _) = malloc-IsAllocated h size run (Shows-IsTable h owned shows) pos fits clear in
    request-Shows h owned size s (malloc h size) a pos shows
Step-Shows {h} (refused size e) shows =
    rw (malloc-none h size e) (shows, record { same_total = refl; kept = λ j behind. refl })
Step-Shows {h} {owned = owned} (release front back s n e) shows =
    release-Shows h s n owned (front ++ back)
      (rw e (release_among h.total s n front back (rw (sym e) shows.apart))) shows

-- From a table that shows no allocation, in a heap that takes 2 GiB at most and ends within the address
-- space, however requests and frees follow one another: the table shows exactly the allocations
-- that the client was given and has not freed, each a chain of blocks of its own inside the table and the rest
-- free, and no byte behind the table has changed. A request is of a block at least, and the table has
-- enough free blocks in a row for it or `heap_get_start_block` finds none; a free is of an allocation that
-- the client owns.
pub Reach-Shows :
    {h k : Heap} {owned : Owned} → Shows h [] → Reach h k owned → Shows k owned × SameBehind h k
Reach-Shows shows here = (shows, record { same_total = refl; kept = λ j behind. refl })
Reach-Shows shows (next r step) =
    let (before, b) = Reach-Shows shows r in
    let (after, b') = Step-Shows step before in
    (
      after,
      record {
        same_total = b'.same_total ∙ b.same_total;
        kept = λ j behind. b'.kept j (omega (arith, behind, b.same_total)) ∙ b.kept j behind;
      },
    )
