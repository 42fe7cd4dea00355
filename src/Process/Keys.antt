-- ===== src/Process/Keys.antt =====
-- The key buffer of a process, src/kernel/task/process.cpp, is a queue of at most 1024 keys.
mod Tests
use git_os.Base.{
  ℕ, zero, suc, ◌+◌, ◌-◌, ◌%◌, ◌^◌, ◌≤◌, ◌<◌, ◌≡◌, ◌≢◌, refl, sym, ap, ◌∙◌, arith, true, false,
  ◌==◌, ltb, if◌then◌else◌, Bool-cases, inl, inr, List, [], ◌∷◌, ◌++◌, length, length-append,
  get_or, get_or-append, update, add32,
}
use mathlib.Core.Path.{ap₂}
use git_os.Process.{KeyboardBuffer, keyboard_buffer_size, pushkey, popkey}

-- The pending keys lie from the head on, going round, and everything else is 0.
pub record Pending (k : KeyboardBuffer) (keys : List ℕ) : Type 0 where
  pub held :
      (i : ℕ)
      → i < keyboard_buffer_size
      → k.buffer ((k.head + i) % keyboard_buffer_size) ≡ get_or keys i 0
  pub ends : k.tail ≡ (k.head + length keys) % 2 ^ 32
  pub fits : length keys ≤ keyboard_buffer_size
  pub word : k.head < 2 ^ 32

get_or-past : (xs : List ℕ) (i : ℕ) → length xs ≤ i → get_or xs i 0 ≡ 0
get_or-past [] i h = refl
get_or-past (x ∷ xs) zero h = absurd (omega arith)
get_or-past (x ∷ xs) (suc i) h = get_or-past xs i (omega arith)

get_or-before :
    (xs : List ℕ) (c i : ℕ) → i ≢ length xs → get_or (xs ++ (c ∷ [])) i 0 ≡ get_or xs i 0
get_or-before [] c zero h = absurd (h refl)
get_or-before [] c (suc i) h = refl
get_or-before (x ∷ xs) c zero h = refl
get_or-before (x ∷ xs) c (suc i) h = get_or-before xs c i (λ e. h (ap suc e))

pushkey-Pending :
    (k : KeyboardBuffer) (keys : List ℕ) (c : ℕ)
    → Pending k keys
    → length keys < keyboard_buffer_size
    → Pending (pushkey k c) (keys ++ (c ∷ []))
unfolding pushkey
pushkey-Pending k keys c p h = record {
  held = λ i q. pushed i q;
  ends = omega (arith, p.ends, length-append keys (c ∷ []));
  fits = omega (arith, length-append keys (c ∷ []));
  word = p.word;
}
  where
    pushed :
        (i : ℕ)
        → i < keyboard_buffer_size
        → update k.buffer (k.tail % keyboard_buffer_size) c ((k.head + i) % keyboard_buffer_size)
          ≡ get_or (keys ++ (c ∷ [])) i 0
    pushed i q = elim (Bool-cases (i == length keys)) [
      | inl last ↦
          let place : ((k.head + i) % keyboard_buffer_size == k.tail % keyboard_buffer_size)
              ≡ true =
            ground (arith, p.ends) in
          let inside : ltb i (length keys) ≡ false = ground arith in
          let index : i - length keys ≡ 0 = ground arith in
          rw (place, get_or-append, inside, index) refl
      | inr other ↦
          let place : ((k.head + i) % keyboard_buffer_size == k.tail % keyboard_buffer_size)
              ≡ false =
            ground (arith, p.ends) in
          rw place (p.held i q ∙ sym (get_or-before keys c i (ground arith)))
    ]

first_key :
    (k : KeyboardBuffer) (keys : List ℕ)
    → Pending k keys
    → k.buffer (k.head % keyboard_buffer_size) ≡ get_or keys 0 0
first_key k keys p =
    let place : k.head % keyboard_buffer_size ≡ (k.head + 0) % keyboard_buffer_size = omega arith in
    ap k.buffer place ∙ p.held 0 (omega arith)

popkey-none : (k : KeyboardBuffer) → Pending k [] → popkey k ≡ (0, k)
unfolding popkey
popkey-none k p =
    let empty : (k.buffer (k.head % keyboard_buffer_size) == 0) ≡ true =
      ground (arith, first_key k [] p) in
    rw empty refl

-- A key that is found at the head, and the buffer without it.
abbrev pub without_first : KeyboardBuffer → KeyboardBuffer
without_first k = record k {
  buffer = update k.buffer (k.head % keyboard_buffer_size) 0;
  head = add32 k.head 1;
}

popkey_found :
    (k : KeyboardBuffer) (c : ℕ)
    → k.buffer (k.head % keyboard_buffer_size) ≡ c
    → c ≢ 0
    → popkey k ≡ (c, without_first k)
unfolding popkey
popkey_found k c e ne = let some_key : (c == 0) ≡ false = ground arith in rw (e, some_key) refl

popkey-some :
    (k : KeyboardBuffer) (c : ℕ) (keys : List ℕ)
    → Pending k (c ∷ keys)
    → c ≢ 0
    → popkey k ≡ (c, without_first k)
popkey-some k c keys p ne = popkey_found k c (first_key k (c ∷ keys) p) ne

popkey-Pending :
    (k : KeyboardBuffer) (c : ℕ) (keys : List ℕ)
    → Pending k (c ∷ keys)
    → c ≢ 0
    → Pending (popkey k).1 keys
popkey-Pending k c keys p ne = rw (popkey-some k c keys p ne) (record {
  held = popped;
  ends = omega (arith, p.ends);
  fits = omega (arith, p.fits);
  word = omega arith;
})
  where
    popped :
        (i : ℕ)
        → i < keyboard_buffer_size
        → update k.buffer
            (k.head % keyboard_buffer_size)
            0
            ((add32 k.head 1 + i) % keyboard_buffer_size)
          ≡ get_or keys i 0
    popped i q = elim (Bool-cases (ltb (i + 1) keyboard_buffer_size)) [
      | inl below ↦
          let other : ((add32 k.head 1 + i) % keyboard_buffer_size == k.head % keyboard_buffer_size)
              ≡ false =
            ground arith in
          let place : (add32 k.head 1 + i) % keyboard_buffer_size
              ≡ (k.head + suc i) % keyboard_buffer_size =
            ground arith in
          rw other (ap k.buffer place ∙ p.held (suc i) (ground arith))
      | inr last ↦
          let same : ((add32 k.head 1 + i) % keyboard_buffer_size == k.head % keyboard_buffer_size)
              ≡ true =
            ground arith in
          rw same (sym (get_or-past keys i (ground (arith, p.fits))))
    ]

-- What happens to the buffer of a process: a key is pushed, or the process asks for one.
pub data KeyEvent : Type 0 where
  key_pushed : ℕ → KeyEvent
  key_asked : KeyEvent

-- What the process is told, in order.
pub run : KeyboardBuffer → List KeyEvent → List ℕ
run k [] = []
run k (key_pushed c ∷ events) = run (pushkey k c) events
run k (key_asked ∷ events) = let (c, k') = popkey k in c ∷ run k' events

-- The same of a queue of keys.
pub run_queue : List ℕ → List KeyEvent → List ℕ
run_queue keys [] = []
run_queue keys (key_pushed c ∷ events) = run_queue (keys ++ (c ∷ [])) events
run_queue [] (key_asked ∷ events) = 0 ∷ run_queue [] events
run_queue (c ∷ keys) (key_asked ∷ events) = c ∷ run_queue keys events

-- Each key that is pushed is one, and comes when fewer than 1024 are pending.
abbrev pub HasRoom : List ℕ → List KeyEvent → Type 0
HasRoom keys [] = Unit {0}
HasRoom keys (key_pushed c ∷ events) =
    (c ≢ 0) × (length keys < keyboard_buffer_size) × HasRoom (keys ++ (c ∷ [])) events
HasRoom [] (key_asked ∷ events) = HasRoom [] events
HasRoom (c ∷ keys) (key_asked ∷ events) = HasRoom keys events

abbrev NonZero : List ℕ → Type 0
NonZero [] = Unit {0}
NonZero (c ∷ keys) = (c ≢ 0) × NonZero keys

NonZero-append : (keys : List ℕ) (c : ℕ) → NonZero keys → c ≢ 0 → NonZero (keys ++ (c ∷ []))
NonZero-append [] c n e = (e, tt)
NonZero-append (x ∷ keys) c n e = (n.0, NonZero-append keys c n.1 e)

run_from :
    (events : List KeyEvent) (k : KeyboardBuffer) (keys : List ℕ)
    → Pending k keys
    → NonZero keys
    → HasRoom keys events
    → run k events ≡ run_queue keys events
unfolding run run_queue
run_from [] k keys p n r = refl
run_from (key_pushed c ∷ events) k keys p n r =
    run_from events (pushkey k c) (keys ++ (c ∷ [])) (pushkey-Pending k keys c p r.1)
      (NonZero-append keys c n r.0) r.2
run_from (key_asked ∷ events) k [] p n r =
    rw (popkey-none k p) (ap (◌∷◌ 0) (run_from events k [] p tt r))
run_from (key_asked ∷ events) k (c ∷ keys) p n r =
    ap₂ ◌∷◌ (ap (λ (q : ℕ × KeyboardBuffer). q.0) (popkey-some k c keys p n.0))
      (run_from events (popkey k).1 keys (popkey-Pending k c keys p n.0) n.1 r)

-- The buffer of a new process is all 0.
abbrev pub new_keyboard_buffer : KeyboardBuffer
new_keyboard_buffer = record { buffer = λ i. 0; tail = 0; head = 0 }

-- From the buffer of a new process on, whatever keys are pushed and however often the process asks, it
-- is told each key once, in the order in which they were pushed, and 0 where none is pending, as long
-- as no key is 0 and none is pushed while 1024 are pending.
pub run-queue :
    (events : List KeyEvent)
    → HasRoom [] events
    → run new_keyboard_buffer events ≡ run_queue [] events
run-queue events r =
    run_from events new_keyboard_buffer []
      (record { held = λ i q. refl; ends = refl; fits = omega arith; word = omega arith }) tt r

popkey_peek : (k : KeyboardBuffer) → (popkey k).0 ≡ k.buffer (k.head % keyboard_buffer_size)
unfolding popkey
popkey_peek k = ground arith

-- While 1024 keys are pending, a key that is pushed takes the place of the oldest, and the tail runs
-- ahead: the process is told this newest key next, and the key that is pushed after that takes the
-- place of the second oldest and is told before all others.
pub pushkey_full :
    (k : KeyboardBuffer) (keys : List ℕ) (c d : ℕ)
    → Pending k keys
    → length keys ≡ keyboard_buffer_size
    → c ≢ 0
    → ((popkey (pushkey k c)).0 ≡ c) × ((popkey (pushkey (popkey (pushkey k c)).1 d)).0 ≡ d)
unfolding pushkey
pushkey_full k keys c d p full ne =
    let round : (k.head % keyboard_buffer_size == k.tail % keyboard_buffer_size) ≡ true =
      ground (arith, p.ends) in
    let next : (add32 k.head 1 % keyboard_buffer_size == add32 k.tail 1 % keyboard_buffer_size)
        ≡ true =
      ground (arith, p.ends) in
    let told = popkey_found (pushkey k c) c (rw round refl) ne in
    (
      ap (λ (q : ℕ × KeyboardBuffer). q.0) told,
      ap (λ (q : ℕ × KeyboardBuffer). (popkey (pushkey q.1 d)).0) told
          ∙ popkey_peek (pushkey (without_first (pushkey k c)) d)
          ∙ rw next refl,
    )
