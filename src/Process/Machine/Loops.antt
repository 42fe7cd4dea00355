-- ===== src/Process/Machine/Loops.antt =====
-- The loops of `process_terminate` over the table of processes, src/kernel/task/process.cpp.
use git_os.Base.{
  ℕ, zero, suc, ◌+◌, ◌≤◌, ◌<◌, ◌≡◌, ◌≢◌, refl, sym, ap, ◌∙◌, arith, true, false, ◌==◌,
  if◌then◌else◌, Bool-cases, inl, inr, none, some, eq_of_some, update,
}
use git_os.Process.Machine.{clear_slots, first_process}

abbrev clear_at : (ℕ → ℕ) → ℕ → ℕ → ℕ → ℕ
clear_at slots process i = if slots i == process then update slots i 0 else slots

clear_now :
    (slots : ℕ → ℕ) (process i j : ℕ)
    → i ≡ j
    → clear_at slots process i j ≡ (if slots j == process then 0 else slots j)
clear_now slots process i j e = elim (Bool-cases (slots i == process)) [
  | inl same ↦
      let same' : (slots j == process) ≡ true = rw (← e) same in rw (same, same') (ground arith)
  | inr other ↦
      let other' : (slots j == process) ≡ false = rw (← e) other in rw (other, other') refl
]

clear_other : (slots : ℕ → ℕ) (process i j : ℕ) → i ≢ j → clear_at slots process i j ≡ slots j
clear_other slots process i j e = elim (Bool-cases (slots i == process)) [
  | inl same ↦ rw same (ground arith)
  | inr other ↦ rw other refl
]

clear_slots_past :
    (process left i : ℕ) (slots : ℕ → ℕ) (j : ℕ)
    → j < i
    → clear_slots process left i slots j ≡ slots j
unfolding clear_slots
clear_slots_past process zero i slots j lt = refl
clear_slots_past process (suc left) i slots j lt =
    clear_slots_past process left (i + 1) (clear_at slots process i) j (omega arith)
    ∙ clear_other slots process i j (omega arith)

-- Whatever slots the loop has passed are cleared of the process.
pub clear_slots_lem :
    (process left i : ℕ) (slots : ℕ → ℕ) (j : ℕ)
    → i ≤ j
    → j < i + left
    → process ≢ 0
    → clear_slots process left i slots j ≡ (if slots j == process then 0 else slots j)
unfolding clear_slots
clear_slots_lem process zero i slots j le lt p = absurd (omega arith)
clear_slots_lem process (suc left) i slots j le lt p = elim (Bool-cases (i == j)) [
  | inl here ↦
      let same : i ≡ j = ground arith in
      let now = clear_now slots process i j same in
      clear_slots_past process left (i + 1) (clear_at slots process i) j (omega arith) ∙ now
  | inr there ↦
      clear_slots_lem process left (i + 1) (clear_at slots process i) j (ground arith) (omega arith)
        p
      ∙ ap (λ (s : ℕ). if s == process then 0 else s) (clear_other slots process i j (ground arith))
]

none_ne : {p : ℕ} → none ≢ some p
none_ne e = cc

-- The search ends at the first slot that is taken.
pub first_process-some :
    (left i : ℕ) (slots : ℕ → ℕ) (p : ℕ)
    → first_process left i slots ≡ some p
    → (j : ℕ) × (i ≤ j) × (j < i + left) × (slots j ≡ p) × (p ≢ 0)
unfolding first_process
first_process-some zero i slots p h = absurd (none_ne h)
first_process-some (suc left) i slots p h = elim (Bool-cases (slots i == 0)) [
  | inl empty ↦
      let (j, le, lt, e, ne) =
        first_process-some left (i + 1) slots p (sym (rw (first_process, empty) refl) ∙ h) in
      (j, omega arith, omega arith, e, ne)
  | inr taken ↦
      let found : slots i ≡ p = eq_of_some (sym (rw (first_process, taken) refl) ∙ h) in
      (i, omega arith, omega arith, found, ground arith)
]

pub first_process-none :
    (left i : ℕ) (slots : ℕ → ℕ)
    → first_process left i slots ≡ none
    → (j : ℕ) → i ≤ j
    → j < i + left
    → slots j ≡ 0
unfolding first_process
first_process-none zero i slots h j le lt = absurd (omega arith)
first_process-none (suc left) i slots h j le lt = elim (Bool-cases (slots i == 0)) [
  | inl empty ↦ elim (Bool-cases (i == j)) [
    | inl here ↦ let same : i ≡ j = ground arith in ap slots (sym same) ∙ ground arith
    | inr there ↦
        first_process-none left (i + 1) slots (sym (rw (first_process, empty) refl) ∙ h) j
          (ground arith) (omega arith)
  ]
  | inr taken ↦ absurd (none_ne {p = slots i} (sym h ∙ rw (first_process, taken) refl))
]
