-- ===== src/Tasks/Ring.antt =====
-- The list of tasks of src/kernel/task/task.c by the places in it.
use git_os.Base.{
  ℕ, zero, suc, ◌<◌, ◌≡◌, ◌≢◌, refl, sym, ap, arith, true, ltb, if◌then◌else◌, List, [], ◌∷◌,
  length, get_or,
}
use git_os.Tasks.{Task, Tasks}
use git_os.Tasks.Chain.{Forward, Distinct, NotIn, IsList}

-- The tasks by their places in the list, and the place of the current one.
pub record IsRing (st : Tasks) (xs : List ℕ) (i : ℕ) : Type 0 where
  pub next_of :
      (j : ℕ)
      → j < length xs
      → (st.tasks (get_or xs j 0)).next
        ≡ (if ltb (suc j) (length xs) then get_or xs (suc j) 0 else 0)
  pub there : (j : ℕ) → j < length xs → get_or xs j 0 ≢ 0
  pub apart : (j k : ℕ) → j < length xs → k < length xs → get_or xs j 0 ≡ get_or xs k 0 → j ≡ k
  pub first : st.task_head ≡ get_or xs 0 0
  pub current : st.current_task ≡ get_or xs i 0
  pub inside : i < length xs

Forward-next :
    (f : ℕ → Task) (a : ℕ) (xs : List ℕ) (j : ℕ)
    → Forward f a xs
    → j < length xs
    → (f (get_or xs j 0)).next ≡ (if ltb (suc j) (length xs) then get_or xs (suc j) 0 else 0)
Forward-next f a [] j h lt = absurd (omega arith)
Forward-next f a (x ∷ []) zero h lt = h.2
Forward-next f a (x ∷ y ∷ xs) zero h lt =
    let more : ltb 1 (length (x ∷ y ∷ xs)) ≡ true = ground arith in rw more h.2.0
Forward-next f a (x ∷ xs) (suc j) h lt =
    let same : ltb (suc (suc j)) (length (x ∷ xs)) ≡ ltb (suc j) (length xs) = ground arith in
    rw same (Forward-next f (f x).next xs j h.2 (omega arith))

Forward-there :
    (f : ℕ → Task) (a : ℕ) (xs : List ℕ) (j : ℕ)
    → Forward f a xs
    → j < length xs
    → get_or xs j 0 ≢ 0
Forward-there f a [] j h lt = absurd (omega arith)
Forward-there f a (x ∷ xs) zero h lt = h.1
Forward-there f a (x ∷ xs) (suc j) h lt = Forward-there f (f x).next xs j h.2 (omega arith)

NotIn-get_or : (q : ℕ) (xs : List ℕ) (j : ℕ) → NotIn q xs → j < length xs → q ≢ get_or xs j 0
NotIn-get_or q [] j n lt = absurd (omega arith)
NotIn-get_or q (x ∷ xs) zero n lt = n.0
NotIn-get_or q (x ∷ xs) (suc j) n lt = NotIn-get_or q xs j n.1 (omega arith)

Distinct-apart :
    (xs : List ℕ) (j k : ℕ)
    → Distinct xs
    → j < length xs
    → k < length xs
    → get_or xs j 0 ≡ get_or xs k 0
    → j ≡ k
Distinct-apart [] j k d a b e = absurd (omega arith)
Distinct-apart (x ∷ xs) zero zero d a b e = refl
Distinct-apart (x ∷ xs) zero (suc k) d a b e = absurd (NotIn-get_or x xs k d.0 (omega arith) e)
Distinct-apart (x ∷ xs) (suc j) zero d a b e =
    absurd (NotIn-get_or x xs j d.0 (omega arith) (sym e))
Distinct-apart (x ∷ xs) (suc j) (suc k) d a b e =
    ap suc (Distinct-apart xs j k d.1 (omega arith) (omega arith) e)

Forward-first : (f : ℕ → Task) (a : ℕ) (xs : List ℕ) → Forward f a xs → a ≡ get_or xs 0 0
Forward-first f a [] h = h
Forward-first f a (x ∷ xs) h = h.0

pub IsList-IsRing :
    (st : Tasks) (xs : List ℕ) (i : ℕ)
    → IsList st xs
    → i < length xs
    → st.current_task ≡ get_or xs i 0
    → IsRing st xs i
IsList-IsRing st xs i l lt e = record {
  next_of = λ j q. Forward-next st.tasks st.task_head xs j l.forward q;
  there = λ j q. Forward-there st.tasks st.task_head xs j l.forward q;
  apart = λ j k a b q. Distinct-apart xs j k l.distinct a b q;
  first = Forward-first st.tasks st.task_head xs l.forward;
  current = e;
  inside = lt;
}
