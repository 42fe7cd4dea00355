-- ===== src/Heap/Search.antt =====
-- What `heap_get_start_block` finds in a table.
use git_os.Base.{
  ℕ, zero, suc, ◌+◌, eq_of_some, ◌≤◌, ◌<◌, ◌≡◌, refl, ◌∙◌, sym, true, false, Option, none, some,
  arith, ◌==◌, ==_iff, leb, leb→le, inl, inr, Bool-cases, if◌then◌else◌, ap,
}
use mathlib.Core.Bool.{false≢true}
use git_os.Heap.{entry_type, first_of_run, find_from}

-- The blocks from `a` up to `b` are free.
abbrev pub AllFree : (ℕ → ℕ) → ℕ → ℕ → Type 0
AllFree entries a b = (i : ℕ) → a ≤ i → i < b → entry_type (entries i) ≡ 0

module _ (entries : ℕ → ℕ) (want : ℕ) where
  -- The state of the loop at index `i`: the run that it is in begins at `start_block`.
  abbrev pub Scanning : ℕ → ℕ → Option ℕ → Type 0
  Scanning i current none = (current ≡ 0) × (0 < want)
  Scanning i current (some s) = (s + current ≡ i) × (current < want) × AllFree entries s i

  -- A free block extends the run.
  run-suc :
      (i current : ℕ) (start : Option ℕ)
      → Scanning i current start
      → (entry_type (entries i) == 0) ≡ true
      → (first_of_run i start + (current + 1) ≡ i + 1)
        × (0 < want)
        × (current < want)
        × AllFree entries (first_of_run i start) (i + 1)
  run-suc i current none h e = (
    omega arith,
    h.1,
    omega arith,
    λ j p q.
        let same : j ≡ i = omega arith in ap (λ k. entry_type (entries k)) same ∙ (==_iff _ _).0 e,
  )
  run-suc i current (some s) h e = (
    omega arith,
    omega arith,
    h.1,
    λ j p q. elim (Bool-cases (j == i)) [
      | inl same ↦ ap (λ k. entry_type (entries k)) ((==_iff j i).0 same) ∙ (==_iff _ _).0 e
      | inr other ↦ h.2 j p (ground arith)
    ],
  )

  positive : (i current : ℕ) (start : Option ℕ) → Scanning i current start → 0 < want
  positive i current none h = h.1
  positive i current (some s) h = omega arith

  in_reach :
      (i current : ℕ) (start : Option ℕ) (run : ℕ)
      → Scanning i current start
      → first_of_run i start ≤ run
      → i < run + want
  in_reach i current none run h low = omega arith
  in_reach i current (some s) run h low = omega arith

  find_from-taken :
      (left i current : ℕ) (start : Option ℕ)
      → (entry_type (entries i) == 0) ≡ false
      → find_from entries want (suc left) i current start
        ≡ find_from entries want left (i + 1) 0 none
  unfolding find_from
  find_from-taken left i current start e = rw e

  find_from-free :
      (left i current : ℕ) (start : Option ℕ)
      → (entry_type (entries i) == 0) ≡ true
      → find_from entries want (suc left) i current start ≡ (
          if current + 1 == want
          then some (first_of_run i start)
          else find_from entries want left (i + 1) (current + 1) (some (first_of_run i start)))
  unfolding find_from
  find_from-free left i current start e = rw e

  -- The blocks of the run that the loop returns are free, as far as the table goes.
  pub find_from-AllFree :
      (left i current : ℕ) (start : Option ℕ) (s : ℕ)
      → Scanning i current start
      → find_from entries want left i current start ≡ some s
      → (j : ℕ) → s ≤ j
      → j < s + want
      → j < i + left
      → entry_type (entries j) ≡ 0
  unfolding find_from
  find_from-AllFree zero i current none s h e j p q r = cc
  find_from-AllFree zero i current (some a) s h e j p q r =
      let same : a ≡ s = eq_of_some e in h.2 j (omega arith) (omega arith)
  find_from-AllFree (suc left) i current start s h e j p q r =
      elim (Bool-cases (entry_type (entries i) == 0)) [
        | inr taken ↦
            find_from-AllFree left (i + 1) 0 none s (refl, positive i current start h)
              (sym (find_from-taken left i current start taken) ∙ e) j p q (omega arith)
        | inl clear ↦ elim (Bool-cases (current + 1 == want)) [
          | inl enough ↦
              run_free clear
                (eq_of_some (rw (find_from-free left i current start clear, enough) at e))
                ((==_iff _ _).0 enough)
          | inr more ↦
              find_from-AllFree left (i + 1) (current + 1) (some (first_of_run i start)) s
                (go_on clear more) (rw (find_from-free left i current start clear, more) at e) j p q
                (omega arith)
        ]
      ]
    where
      run_free :
          (entry_type (entries i) == 0) ≡ true
          → first_of_run i start ≡ s
          → current + 1 ≡ want
          → entry_type (entries j) ≡ 0
      run_free clear same enough =
          let run = run-suc i current start h clear in run.3 j (omega arith) (omega arith)

      go_on :
          (entry_type (entries i) == 0) ≡ true
          → (current + 1 == want) ≡ false
          → Scanning (i + 1) (current + 1) (some (first_of_run i start))
      go_on clear more = let run = run-suc i current start h clear in (run.0, ground arith, run.3)

  -- Where `want` free blocks in a row lie in the table, the loop returns the start of such blocks
  -- that is not behind them.
  pub find_from_fit :
      (left i current : ℕ) (start : Option ℕ) (run : ℕ)
      → Scanning i current start
      → first_of_run i start ≤ run
      → run + want ≤ i + left
      → AllFree entries run (run + want)
      → (s : ℕ) × (find_from entries want left i current start ≡ some s) × (s ≤ run)
  unfolding find_from
  find_from_fit zero i current none run h low high free = absurd (omega arith)
  find_from_fit zero i current (some a) run h low high free = absurd (omega arith)
  find_from_fit (suc left) i current start run h low high free =
      elim (Bool-cases (entry_type (entries i) == 0)) [
        | inr taken ↦ rw (find_from-taken left i current start taken) (
            find_from_fit left (i + 1) 0 none run (refl, positive i current start h) (after taken)
              (omega arith) free)
        | inl clear ↦ elim (Bool-cases (current + 1 == want)) [
          | inl enough ↦
              (first_of_run i start, rw (find_from-free left i current start clear, enough), low)
          | inr more ↦
              rw (find_from-free left i current start clear, more)
                (find_from_fit left (i + 1) (current + 1) (some (first_of_run i start)) run
                  (go_on clear more) low (omega arith) free)
        ]
      ]
    where
      go_on :
          (entry_type (entries i) == 0) ≡ true
          → (current + 1 == want) ≡ false
          → Scanning (i + 1) (current + 1) (some (first_of_run i start))
      go_on clear more = let run = run-suc i current start h clear in (run.0, ground arith, run.3)

      after : (entry_type (entries i) == 0) ≡ false → i + 1 ≤ run
      after taken = elim (Bool-cases (leb run i)) [
        | inl reached ↦ absurd (
            false≢true (
              sym taken
              ∙ (==_iff _ _).1 (free i (leb→le _ _ reached) (in_reach i current start run h low))))
        | inr short ↦ ground arith
      ]
