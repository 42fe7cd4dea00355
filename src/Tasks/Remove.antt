-- ===== src/Tasks/Remove.antt =====
-- Removal from the list of tasks, `task_list_remove` of src/kernel/task/task.c.
use git_os.Base.{
  ℕ, ◌≡◌, ◌≢◌, refl, sym, ap, ◌∙◌, arith, true, false, List, [], ◌∷◌, ◌++◌, ◌==◌, update_ne,
  update_self,
}
use mathlib.Core.Path.{subst}
use git_os.Tasks.{Task, Tasks, with_next, list_remove}
use git_os.Tasks.Chain.{
  Forward, Backward, NotIn, Distinct, last_of, IsList, Forward-update, prev_kept, eq_false,
}

NotIn-last_of : (q y : ℕ) (ys zs : List ℕ) → NotIn q (y ∷ (ys ++ zs)) → q ≢ last_of y ys
NotIn-last_of q y [] zs n = n.0
NotIn-last_of q y (x ∷ ys) zs n = NotIn-last_of q x ys zs n.1

NotIn-middle : (q t : ℕ) (ys zs : List ℕ) → NotIn q (ys ++ (t ∷ zs)) → q ≢ t
NotIn-middle q t [] zs n = n.0
NotIn-middle q t (y ∷ ys) zs n = NotIn-middle q t ys zs n.1

-- The task before one in the list.
prev_last :
    (f : ℕ → Task) (p y t : ℕ) (ys zs : List ℕ)
    → Backward f p (y ∷ (ys ++ (t ∷ zs)))
    → (f t).prev ≡ last_of y ys
prev_last f p y t [] zs h = h.1.0
prev_last f p y t (x ∷ ys) zs h = prev_last f y x t ys zs h.1

-- The links once the task before one points behind it.
Forward-unlink :
    (f : ℕ → Task) (a y t : ℕ) (ys zs : List ℕ)
    → Forward f a (y ∷ (ys ++ (t ∷ zs)))
    → Distinct (y ∷ (ys ++ (t ∷ zs)))
    → Forward (with_next f (last_of y ys) (f t).next) a (y ∷ (ys ++ zs))
Forward-unlink f a y t [] zs h d = (
  h.0,
  h.1,
  subst (λ (b : ℕ). Forward (with_next f y (f t).next) b zs)
      (ap (λ (r : Task). r.next) (sym (update_self f y (record (f y) { next = (f t).next }))))
      (Forward-update f (f t).next y (record (f y) { next = (f t).next }) zs h.2.2 d.0.1),
)
Forward-unlink f a y t (x ∷ ys) zs h d =
    let q = last_of x ys in
    (
      h.0,
      h.1,
      subst (λ (b : ℕ). Forward (with_next f q (f t).next) b (x ∷ (ys ++ zs)))
          (ap (λ (r : Task). r.next)
            (sym (
              update_ne f q y (record (f q) { next = (f t).next })
                (NotIn-last_of y x ys (t ∷ zs) d.0))))
          (Forward-unlink f (f y).next x t ys zs h.2 d.1),
    )

eq_true : (a b : ℕ) → a ≡ b → (a == b) ≡ true
eq_true a b h = ground arith

ne_false : (a b : ℕ) → a ≢ b → (a == b) ≡ false
ne_false a b h = ground arith

-- What the list is after the removal of a task that is not the head.
removed_inside :
    (st : Tasks) (t : ℕ)
    → (st.tasks t).prev ≢ 0
    → t ≢ st.task_head
    → ((list_remove st t).tasks ≡ with_next st.tasks (st.tasks t).prev (st.tasks t).next)
      × ((list_remove st t).task_head ≡ st.task_head)
unfolding list_remove
removed_inside st t p h =
    (rw (eq_false (st.tasks t).prev p) refl, rw (ne_false t st.task_head h) refl)

removed_head :
    (st : Tasks) (t : ℕ)
    → (st.tasks t).prev ≡ 0
    → st.task_head ≡ t
    → ((list_remove st t).tasks ≡ st.tasks) × ((list_remove st t).task_head ≡ (st.tasks t).next)
unfolding list_remove
removed_head st t p h = (rw p refl, rw (eq_true t st.task_head (sym h)) refl)

Forward-NotZero :
    (f : ℕ → Task) (a y : ℕ) (ys zs : List ℕ) → Forward f a (y ∷ (ys ++ zs)) → last_of y ys ≢ 0
Forward-NotZero f a y [] zs h = h.1
Forward-NotZero f a y (x ∷ ys) zs h = Forward-NotZero f (f y).next x ys zs h.2

-- Removing a task from a list that is sound takes it out of the chain from the head on, and leaves
-- the others in their order.
pub list_remove-Forward :
    (st : Tasks) (ys : List ℕ) (t : ℕ) (zs : List ℕ)
    → IsList st (ys ++ (t ∷ zs))
    → Forward (list_remove st t).tasks (list_remove st t).task_head (ys ++ zs)
list_remove-Forward st [] t zs l =
    let (same, head) = removed_head st t l.backward.0 l.forward.0 in
    subst (λ (f : ℕ → Task). Forward f (list_remove st t).task_head zs) (sym same)
      (subst (λ (b : ℕ). Forward st.tasks b zs) (sym head) l.forward.2)
list_remove-Forward st (y ∷ ys) t zs l =
    let before = prev_last st.tasks 0 y t ys zs l.backward in
    let some_before : (st.tasks t).prev ≢ 0 =
      λ e. Forward-NotZero st.tasks st.task_head y ys (t ∷ zs) l.forward (sym before ∙ e) in
    let behind : t ≢ st.task_head =
      λ e. NotIn-middle y t ys zs l.distinct.0 (sym l.forward.0 ∙ sym e) in
    let (tasks, head) = removed_inside st t some_before behind in
    subst (λ (f : ℕ → Task). Forward f (list_remove st t).task_head (y ∷ (ys ++ zs))) (sym tasks)
      (subst
        (λ (b : ℕ).
          Forward (with_next st.tasks (st.tasks t).prev (st.tasks t).next) b (y ∷ (ys ++ zs)))
        (sym head)
        (subst
          (λ (q : ℕ).
            Forward (with_next st.tasks q (st.tasks t).next) st.task_head (y ∷ (ys ++ zs)))
          (sym before) (Forward-unlink st.tasks st.task_head y t ys zs l.forward l.distinct)))

-- When the second task of a sound list is removed and then the third, the third stays in the chain
-- from the head on: the removal before it left its `prev` at the second.
pub list_remove_twice :
    (st : Tasks) (a b c : ℕ) (zs : List ℕ)
    → IsList st (a ∷ b ∷ c ∷ zs)
    → Forward
        (list_remove (list_remove st b) c).tasks
        (list_remove (list_remove st b) c).task_head
        (a ∷ c ∷ zs)
list_remove_twice st a b c zs l =
    let st1 = list_remove st b in
    let chain = list_remove-Forward st (a ∷ []) b (c ∷ zs) l in
    let (prev_a, (prev_b, (prev_c, _))) = l.backward in
    let (head_a, a_set, (_, b_set, _)) = l.forward in
    let ((ab, (ac, _)), ((bc, bz), _)) = l.distinct in
    let (tasks1, head1) =
      removed_inside st b (λ e. a_set (sym prev_b ∙ e)) (λ e. ab (sym (e ∙ head_a))) in
    let stale : (st1.tasks c).prev ≡ b =
      ap (λ (f : ℕ → Task). (f c).prev) tasks1
      ∙ prev_kept st.tasks (st.tasks b).prev (st.tasks b).next c
      ∙ prev_c in
    let (tasks2, head2) =
      removed_inside st1 c (λ e. b_set (sym stale ∙ e)) (λ e. ac (sym (e ∙ head1 ∙ head_a))) in
    subst (λ (f : ℕ → Task). Forward f (list_remove st1 c).task_head (a ∷ c ∷ zs)) (sym tasks2)
      (subst
        (λ (h : ℕ).
          Forward (with_next st1.tasks (st1.tasks c).prev (st1.tasks c).next) h (a ∷ c ∷ zs))
        (sym head2)
        (subst
          (λ (q : ℕ). Forward (with_next st1.tasks q (st1.tasks c).next) st1.task_head (a ∷ c ∷ zs))
          (sym stale)
          (Forward-update st1.tasks st1.task_head b
            (record (st1.tasks b) { next = (st1.tasks c).next }) (a ∷ c ∷ zs) chain
            ((λ e. ab (sym e)), (bc, bz)))))
