-- ===== src/Tasks/Chain.antt =====
-- The list of tasks of src/kernel/task/task.c as a chain of addresses, and its growth.
use git_os.Base.{
  ℕ, ◌≡◌, ◌≢◌, refl, sym, ap, ◌∙◌, arith, false, Option, some, List, [], ◌∷◌, ◌++◌, ◌==◌, update,
  update_ne, update_self,
}
use mathlib.Core.Path.{subst}
use git_os.Tasks.{Task, Tasks, with_next, with_prev, init_task, new_task}

-- From `a` on, the tasks follow one another by `next`, to the null pointer.
abbrev pub Forward : (ℕ → Task) → ℕ → List ℕ → Type 0
Forward f a [] = a ≡ 0
Forward f a (x ∷ xs) = (a ≡ x) × (x ≢ 0) × Forward f (f x).next xs

-- Each has the one before it as `prev`, and the first has `p`.
abbrev pub Backward : (ℕ → Task) → ℕ → List ℕ → Type 0
Backward f p [] = Unit {0}
Backward f p (x ∷ xs) = ((f x).prev ≡ p) × Backward f x xs

abbrev pub NotIn : ℕ → List ℕ → Type 0
NotIn q [] = Unit {0}
NotIn q (x ∷ xs) = (q ≢ x) × NotIn q xs

abbrev pub Distinct : List ℕ → Type 0
Distinct [] = Unit {0}
Distinct (x ∷ xs) = NotIn x xs × Distinct xs

abbrev pub last_of : ℕ → List ℕ → ℕ
last_of p [] = p
last_of p (x ∷ xs) = last_of x xs

-- The list of tasks, as it should be.
pub record IsList (st : Tasks) (xs : List ℕ) : Type 0 where
  pub forward : Forward st.tasks st.task_head xs
  pub backward : Backward st.tasks 0 xs
  pub distinct : Distinct xs
  pub tail : st.task_tail ≡ last_of 0 xs

-- A change elsewhere.
pub Forward-update :
    (f : ℕ → Task) (a q : ℕ) (v : Task) (xs : List ℕ)
    → Forward f a xs
    → NotIn q xs
    → Forward (update f q v) a xs
Forward-update f a q v [] h n = h
Forward-update f a q v (x ∷ xs) h n = (
  h.0,
  h.1,
  subst (λ (b : ℕ). Forward (update f q v) b xs)
      (ap (λ (t : Task). t.next) (sym (update_ne f q x v (λ e. n.0 (sym e)))))
      (Forward-update f (f x).next q v xs h.2 n.1),
)

pub Backward-update :
    (f : ℕ → Task) (p q : ℕ) (v : Task) (xs : List ℕ)
    → Backward f p xs
    → NotIn q xs
    → Backward (update f q v) p xs
Backward-update f p q v [] h n = tt
Backward-update f p q v (x ∷ xs) h n = (
  ap (λ (t : Task). t.prev) (update_ne f q x v (λ e. n.0 (sym e))) ∙ h.0,
  Backward-update f x q v xs h.1 n.1,
)

NotIn-append : (q t : ℕ) (xs : List ℕ) → NotIn q xs → q ≢ t → NotIn q (xs ++ (t ∷ []))
NotIn-append q t [] n e = (e, tt)
NotIn-append q t (x ∷ xs) n e = (n.0, NotIn-append q t xs n.1 e)

Distinct-append : (t : ℕ) (xs : List ℕ) → Distinct xs → NotIn t xs → Distinct (xs ++ (t ∷ []))
Distinct-append t [] d n = (tt, tt)
Distinct-append t (x ∷ xs) d n =
    (NotIn-append x t xs d.0 (λ e. n.0 (sym e)), Distinct-append t xs d.1 n.1)

last_of-append : (p t : ℕ) (xs : List ℕ) → last_of p (xs ++ (t ∷ [])) ≡ t
last_of-append p t [] = refl
last_of-append p t (x ∷ xs) = last_of-append x t xs

pub last_of-NotIn : (q y : ℕ) (xs : List ℕ) → NotIn q (y ∷ xs) → q ≢ last_of y xs
last_of-NotIn q y [] n = n.0
last_of-NotIn q y (x ∷ xs) n = last_of-NotIn q x xs n.1

-- The links once the last task is followed by a new one.
Forward-append :
    (f : ℕ → Task) (a x t : ℕ) (xs : List ℕ)
    → Forward f a (x ∷ xs)
    → Distinct (x ∷ xs)
    → NotIn t (x ∷ xs)
    → t ≢ 0
    → (f t).next ≡ 0
    → Forward (with_next f (last_of x xs) t) a (x ∷ (xs ++ (t ∷ [])))
Forward-append f a x t [] h d n z e = (
  h.0,
  h.1,
  (
    ap (λ (r : Task). r.next) (update_self f x (record (f x) { next = t })),
    z,
    ap (λ (r : Task). r.next) (update_ne f x t (record (f x) { next = t }) n.0) ∙ e,
  ),
)
Forward-append f a x t (y ∷ xs) h d n z e =
    let q = last_of y xs in
    (
      h.0,
      h.1,
      subst (λ (b : ℕ). Forward (with_next f q t) b (y ∷ (xs ++ (t ∷ []))))
          (ap (λ (r : Task). r.next)
            (sym (update_ne f q x (record (f q) { next = t }) (last_of-NotIn x y xs d.0))))
          (Forward-append f (f x).next y t xs h.2 d.1 n.1 z e),
    )

pub prev_kept : (f : ℕ → Task) (q t x : ℕ) → (with_next f q t x).prev ≡ (f x).prev
prev_kept f q t x = ground arith

next_kept : (f : ℕ → Task) (q t x : ℕ) → (with_prev f q t x).next ≡ (f x).next
next_kept f q t x = ground arith

-- A change of one field leaves the other links as they are.
pub Backward-with_next :
    (f : ℕ → Task) (p q t : ℕ) (xs : List ℕ) → Backward f p xs → Backward (with_next f q t) p xs
Backward-with_next f p q t [] h = tt
Backward-with_next f p q t (x ∷ xs) h = (prev_kept f q t x ∙ h.0, Backward-with_next f x q t xs h.1)

Forward-with_prev :
    (f : ℕ → Task) (a q t : ℕ) (xs : List ℕ) → Forward f a xs → Forward (with_prev f q t) a xs
Forward-with_prev f a q t [] h = h
Forward-with_prev f a q t (x ∷ xs) h = (
  h.0,
  h.1,
  subst (λ (b : ℕ). Forward (with_prev f q t) b xs) (sym (next_kept f q t x))
      (Forward-with_prev f (f x).next q t xs h.2),
)

Backward-append :
    (f : ℕ → Task) (p t : ℕ) (xs : List ℕ)
    → Backward f p xs
    → NotIn t xs
    → Backward (with_prev f t (last_of p xs)) p (xs ++ (t ∷ []))
Backward-append f p t [] h n =
    (ap (λ (r : Task). r.prev) (update_self f t (record (f t) { prev = p })), tt)
Backward-append f p t (x ∷ xs) h n = (
  ap (λ (r : Task). r.prev)
        (update_ne f t x (record (f t) { prev = last_of x xs }) (λ e. n.0 (sym e)))
      ∙ h.0,
  Backward-append f x t xs h.1 n.1,
)

pub eq_false : (n : ℕ) → n ≢ 0 → (n == 0) ≡ false
eq_false n h = ground arith

appended-IsList :
    (st : Tasks) (x : ℕ) (xs : List ℕ) (t q : ℕ) (new : Task)
    → IsList st (x ∷ xs)
    → t ≢ 0
    → NotIn t (x ∷ xs)
    → new.next ≡ 0
    → q ≡ last_of x xs
    → IsList
        (record st { tasks = with_prev (with_next (update st.tasks t new) q t) t q; task_tail = t })
        (x ∷ (xs ++ (t ∷ [])))
appended-IsList st x xs t q new l z n e p =
    let f = update st.tasks t new in
    let last = ap (λ (r : Task). r.next) (update_self st.tasks t new) ∙ e in
    record {
      forward = Forward-with_prev (with_next f q t) st.task_head t q (x ∷ (xs ++ (t ∷ []))) (
          subst (λ b. Forward (with_next f b t) st.task_head (x ∷ (xs ++ (t ∷ [])))) (sym p)
            (Forward-append f st.task_head x t xs
              (Forward-update st.tasks st.task_head t new (x ∷ xs) l.forward n) l.distinct n z
              last));
      backward =
          subst (λ b. Backward (with_prev (with_next f q t) t b) 0 (x ∷ (xs ++ (t ∷ [])))) (sym p)
            (Backward-append (with_next f q t) 0 t (x ∷ xs)
              (Backward-with_next f 0 q t (x ∷ xs)
                (Backward-update st.tasks 0 t new (x ∷ xs) l.backward n))
              n);
      distinct = Distinct-append t (x ∷ xs) l.distinct n;
      tail = sym (last_of-append 0 t (x ∷ xs));
    }

-- `task_new` with memory for the task, at an address of its own, and for its directory, appends the
-- task to a list that is sound, or makes it the list, and the list is sound again.
pub new_task-IsList :
    (st : Tasks) (xs : List ℕ) (t directory process elf_entry : ℕ)
    → IsList st xs
    → t ≢ 0
    → NotIn t xs
    → directory ≢ 0
    → (st' : Tasks) × ◌≡◌ {A = Option (ℕ × Tasks)}
        (new_task st t directory process elf_entry)
        (some (t, st'))
      × IsList st' (xs ++ (t ∷ []))
unfolding new_task init_task
new_task-IsList st [] t directory process elf_entry l z n d =
    let f = update st.tasks t (init_task directory process elf_entry) in
    (
      record { tasks = f; current_task = t; task_head = t; task_tail = t },
      rw (new_task, eq_false t z, eq_false directory d, l.forward) refl,
      record {
        forward = (
          refl,
          z,
          ap (λ (r : Task). r.next)
              (update_self st.tasks t (init_task directory process elf_entry)),
        );
        backward = (
          ap (λ (r : Task). r.prev)
              (update_self st.tasks t (init_task directory process elf_entry)),
          tt,
        );
        distinct = (tt, tt);
        tail = refl;
      },
    )
new_task-IsList st (x ∷ xs) t directory process elf_entry l z n d =
    let new = init_task directory process elf_entry in
    let head : st.task_head ≢ 0 = λ e. l.forward.1 (sym l.forward.0 ∙ e) in
    (
      record st {
        tasks = with_prev (with_next (update st.tasks t new) st.task_tail t) t st.task_tail;
        task_tail = t;
      },
      rw (new_task, eq_false t z, eq_false directory d, eq_false st.task_head head) refl,
      appended-IsList st x xs t st.task_tail new l z n refl l.tail,
    )
