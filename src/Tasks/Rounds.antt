-- ===== src/Tasks/Rounds.antt =====
-- The rounds of the timer through the list of tasks, src/kernel/task/task.c and src/kernel/kernel.cpp.
use git_os.Base.{
  ℕ, suc, ◌+◌, ◌-◌, ◌%◌, ◌≤◌, ◌<◌, ◌≡◌, ◌≢◌, refl, sym, ap, ◌∙◌, arith, true, false, ◌==◌, ltb,
  if◌then◌else◌, ltb→lt, Bool-cases, inl, inr, Option, some, List, [], ◌∷◌, length, get_or, update,
  update_self, update_ne,
}
use mathlib.Core.Path.{subst}
use native.Mathlib.Nat.{mod-eq_of_lt, mod-eq-sub-mod, mod-lt, mod_self, mod-add-mod}
use git_os.Tasks.{
  Task, Tasks, Registers, current_save_state, get_next, task_switch, timer_interrupt, timer, timers,
}
use git_os.Tasks.Chain.{IsList, eq_false}
use git_os.Tasks.Ring.{IsRing, IsList-IsRing}

-- The state once the frame is saved and the next task is the current one.
abbrev saved : Tasks → Registers → ℕ → Task
saved st frame a =
    update st.tasks st.current_task (record (st.tasks st.current_task) { registers = frame }) a

abbrev switched : Tasks → Registers → ℕ → Tasks
switched st frame task = record st { tasks = saved st frame; current_task = task }

saved_next : (st : Tasks) (frame : Registers) (a : ℕ) → (saved st frame a).next ≡ (st.tasks a).next
saved_next st frame a = elim (Bool-cases (a == st.current_task)) [
  | inl same ↦
      let here : a ≡ st.current_task = ground arith in
      rw same (ap (λ b. (st.tasks b).next) (sym here))
  | inr other ↦ rw other refl
]

module _ (st : Tasks) (xs : List ℕ) (i : ℕ) (ring : IsRing st xs i) (frame : Registers) where
  abbrev following : ℕ
  following = (suc i) % length xs

  abbrev chosen : ℕ
  chosen = get_or xs following 0

  following_inside : following < length xs
  following_inside = mod-lt (suc i) (above ring.inside)
    where
      above : i < length xs → 0 < length xs
      above h = omega arith

  abbrev kept : Tasks
  kept = record st { tasks = saved st frame }

  present : (st.current_task == 0) ≡ false
  present = eq_false st.current_task (λ z. ring.there i ring.inside (sym ring.current ∙ z))

  chosen_present : (chosen == 0) ≡ false
  chosen_present = eq_false chosen (ring.there following following_inside)

  next_kept :
      (saved st frame st.current_task).next
      ≡ (if ltb (suc i) (length xs) then get_or xs (suc i) 0 else 0)
  next_kept =
      saved_next st frame st.current_task
      ∙ ap (λ a. (st.tasks a).next) ring.current
      ∙ ring.next_of i ring.inside

  get_next-chosen : get_next kept ≡ some chosen
  unfolding get_next
  get_next-chosen = elim (Bool-cases (ltb (suc i) (length xs))) [
    | inl more ↦
        let place : suc i ≡ following = sym (mod-eq_of_lt (ltb→lt (suc i) (length xs) more)) in
        let goes : (saved st frame st.current_task).next ≡ chosen =
          next_kept ∙ rw more (ap (λ k. get_or xs k 0) place) in
        let known : ((saved st frame st.current_task).next == 0) ≡ false =
          ap (λ k. k == 0) goes ∙ chosen_present in
        rw (get_next, present, known) (ap some goes)
    | inr last ↦
        let whole : suc i ≡ length xs = ground (arith, ring.inside) in
        let place : 0 ≡ following = sym (ap (λ k. k % length xs) whole ∙ mod_self (length xs)) in
        let null : (saved st frame st.current_task).next ≡ 0 = next_kept ∙ rw last refl in
        let ends : ((saved st frame st.current_task).next == 0) ≡ true = ap (λ k. k == 0) null in
        rw (get_next, present, ends) (ap some (ring.first ∙ ap (λ k. get_or xs k 0) place))
  ]

  timer_lem : timer frame st ≡ some ((saved st frame chosen).registers, switched st frame chosen)
  unfolding timer timer_interrupt current_save_state task_switch
  timer_lem =
      let keeps : current_save_state st frame ≡ some kept = rw (current_save_state, present) refl in
      let interrupts : timer_interrupt kept
          ≡ some ((saved st frame chosen).registers, switched st frame chosen) =
        rw (timer_interrupt, get_next-chosen, chosen_present) refl in
      rw (timer, keeps) interrupts

  switched-IsRing : IsRing (switched st frame chosen) xs following
  switched-IsRing = record {
    next_of = λ j q. saved_next st frame (get_or xs j 0) ∙ ring.next_of j q;
    there = ring.there;
    apart = ring.apart;
    first = ring.first;
    current = refl;
    inside = following_inside;
  }

plus_zero : (i : ℕ) → i + 0 ≡ i
plus_zero i = omega arith

here : {n : ℕ} (i : ℕ) → i < n → (i + 0) % n ≡ i
here {n} i h = ap (λ k. k % n) (plus_zero i) ∙ mod-eq_of_lt h

-- What the interrupts of the timer at some frames come to, from the place `i` on.
record Rounds (xs : List ℕ) (i : ℕ) (frames : List Registers) (st : Tasks) (r : Registers)
    : Type 0 where
  ends_with : Registers
  ends_in : Tasks
  returns : timers frames r st ≡ some (ends_with, ends_in)
  ring_after : IsRing ends_in xs ((i + length frames) % length xs)
  resumed :
      r ≡ (st.tasks st.current_task).registers
      → ends_with ≡ (ends_in.tasks ends_in.current_task).registers
  untouched :
      (j : ℕ)
      → j < length xs
      → ((k : ℕ) → k < length frames → (i + k) % length xs ≢ j)
      → (ends_in.tasks (get_or xs j 0)).registers ≡ (st.tasks (get_or xs j 0)).registers

rounds :
    (frames : List Registers) (st : Tasks) (xs : List ℕ) (i : ℕ) (r : Registers)
    → IsRing st xs i
    → Rounds xs i frames st r
unfolding timers
rounds [] st xs i r ring = record {
  ends_with = r;
  ends_in = st;
  returns = refl;
  ring_after =
      subst (IsRing st xs) (sym (ap (λ n. n % length xs) (plus_zero i) ∙ mod-eq_of_lt ring.inside))
        ring;
  resumed = λ e. e;
  untouched = λ j lt away. refl;
}
rounds (frame ∷ frames) st xs i r ring =
    let st' = switched st frame (chosen st xs i ring frame) in
    let step = timer_lem st xs i ring frame in
    let rest =
      rounds frames st' xs ((suc i) % length xs) (st'.tasks st'.current_task).registers
        (switched-IsRing st xs i ring frame) in
    let later : (k : ℕ) → ((suc i) % length xs + k) % length xs ≡ (i + suc k) % length xs =
      λ k. mod-add-mod (suc i) (length xs) k ∙ ap (λ n. n % length xs) (omega arith) in
    record {
      ends_with = rest.ends_with;
      ends_in = rest.ends_in;
      returns = rw (timers, step) rest.returns;
      ring_after = subst (IsRing rest.ends_in xs) (later (length frames)) rest.ring_after;
      resumed = λ e. rest.resumed refl;
      untouched = λ j lt away.
          rest.untouched j lt (λ k q e. away (suc k) (omega arith) (sym (later k) ∙ e))
          ∙ ap (λ (t : Task). t.registers)
              (update_ne st.tasks st.current_task (get_or xs j 0)
                (record (st.tasks st.current_task) { registers = frame })
                (λ e.
                  away 0 (omega arith)
                    (here i ring.inside ∙ sym (ring.apart j i lt ring.inside (e ∙ ring.current)))));
    }

-- As many steps round as there are places lead back, and fewer do not.
part_round : (i k n : ℕ) → i < n → suc k < n → (suc i + k) % n ≢ i
part_round i k n h lt e = elim (Bool-cases (ltb (suc i + k) n)) [
  | inl below ↦ let q = sym (mod-eq_of_lt (ltb→lt (suc i + k) n below)) ∙ e in omega arith
  | inr above ↦
      let le : n ≤ suc i + k = ground arith in
      let q =
        sym (mod-eq-sub-mod le ∙ mod-eq_of_lt {n = suc i + k - n} {m = n} (omega arith)) ∙ e in
      omega arith
]

whole_round : {n : ℕ} (i k : ℕ) → suc k ≡ n → i < n → (suc i + k) % n ≡ i
whole_round {n} i k e h =
    let le : n ≤ suc i + k = omega arith in
    mod-eq-sub-mod le ∙ mod-eq_of_lt {n = suc i + k - n} {m = n} (omega arith) ∙ omega arith

-- Each task gets its turn. From a list of tasks whose current one is at the place `i`, any number of
-- interrupts of the timer goes through; after them the current task is as many places further, going
-- round. After as many interrupts as there are tasks the task runs again that was interrupted first,
-- and with the registers that it had then.
pub timers-round_robin :
    (st : Tasks) (xs : List ℕ) (i : ℕ) (r : Registers)
    → IsList st xs
    → i < length xs
    → st.current_task ≡ get_or xs i 0
    → ((frames : List Registers)
        → (r' : Registers) × (st' : Tasks) × ◌≡◌ {A = Option (Registers × Tasks)}
            (timers frames r st)
            (some (r', st'))
          × (st'.current_task ≡ get_or xs ((i + length frames) % length xs) 0))
      × ((frame : Registers) (frames : List Registers)
          → length (frame ∷ frames) ≡ length xs
          → (st' : Tasks) × ◌≡◌ {A = Option (Registers × Tasks)}
              (timers (frame ∷ frames) r st)
              (some (frame, st'))
            × (st'.current_task ≡ st.current_task))
unfolding timers
timers-round_robin st xs i r l lt e = (turns, again)
  where
    ring : IsRing st xs i
    ring = IsList-IsRing st xs i l lt e

    turns :
        (frames : List Registers)
        → (r' : Registers) × (st' : Tasks) × ◌≡◌ {A = Option (Registers × Tasks)}
            (timers frames r st)
            (some (r', st'))
          × (st'.current_task ≡ get_or xs ((i + length frames) % length xs) 0)
    turns frames =
        let q = rounds frames st xs i r ring in
        (q.ends_with, q.ends_in, q.returns, q.ring_after.current)

    again :
        (frame : Registers) (frames : List Registers)
        → length (frame ∷ frames) ≡ length xs
        → (st' : Tasks) × ◌≡◌ {A = Option (Registers × Tasks)}
            (timers (frame ∷ frames) r st)
            (some (frame, st'))
          × (st'.current_task ≡ st.current_task)
    again frame frames whole =
        let st1 = switched st frame (chosen st xs i ring frame) in
        let step = timer_lem st xs i ring frame in
        let q =
          rounds frames st1 xs (suc i % length xs) (st1.tasks st1.current_task).registers
            (switched-IsRing st xs i ring frame) in
        let round : (suc i % length xs + length frames) % length xs ≡ i =
          mod-add-mod (suc i) (length xs) (length frames)
          ∙ whole_round i (length frames) whole lt in
        let back : q.ends_in.current_task ≡ get_or xs i 0 =
          q.ring_after.current ∙ ap (λ k. get_or xs k 0) round in
        let away : (k : ℕ) → k < length frames → (suc i % length xs + k) % length xs ≢ i = λ k h z.
          part_round i k (length xs) lt (omega arith)
            (sym (mod-add-mod (suc i) (length xs) k) ∙ z) in
        let same : q.ends_with ≡ frame =
          q.resumed refl
          ∙ ap (λ a. (q.ends_in.tasks a).registers) back
          ∙ q.untouched i lt away
          ∙ ap (λ a. (saved st frame a).registers) (sym e)
          ∙ ap (λ (t : Task). t.registers)
              (update_self st.tasks st.current_task
                (record (st.tasks st.current_task) { registers = frame })) in
        (
          q.ends_in,
          rw (timers, step) (q.returns ∙ ap (λ (x : Registers). some (x, q.ends_in)) same),
          back ∙ sym e,
        )
