-- ===== src/Process/Keys/Tests.antt =====
-- Keys for a process that asks for them, and a buffer that is full.
use git_os.Base.{ℕ, zero, suc, ◌<◌, ◌≡◌, refl, sym, ap, arith, List, [], ◌∷◌, length, get_or}
use git_os.Process.{KeyboardBuffer, pushkey, popkey}
use git_os.Process.Keys.{
  Pending, KeyEvent, key_pushed, key_asked, run, run_queue, new_keyboard_buffer, run-queue,
  pushkey_full, HasRoom,
}

-- Two keys, for a process that asks three times.
abbrev two_keys : List KeyEvent
two_keys = key_pushed b'a' ∷ key_pushed b'b' ∷ key_asked ∷ key_asked ∷ key_asked ∷ []

run-queue_example : run new_keyboard_buffer two_keys ≡ b'a' ∷ b'b' ∷ 0 ∷ []
unfolding run_queue
run-queue_example =
    let second : HasRoom (b'a' ∷ []) (key_pushed b'b' ∷ key_asked ∷ key_asked ∷ key_asked ∷ []) =
      (omega arith, omega arith, tt) in
    run-queue two_keys (omega arith, omega arith, second)

-- 1024 times the same key.
abbrev same_keys : ℕ → List ℕ
same_keys zero = []
same_keys (suc n) = b'a' ∷ same_keys n

length-same_keys : (n : ℕ) → length (same_keys n) ≡ n
length-same_keys zero = refl
length-same_keys (suc n) = ap suc (length-same_keys n)

get_or-same_keys : (n i : ℕ) → i < n → get_or (same_keys n) i 0 ≡ b'a'
get_or-same_keys zero i h = absurd (omega arith)
get_or-same_keys (suc n) zero h = refl
get_or-same_keys (suc n) (suc i) h = get_or-same_keys n i (omega arith)

abbrev full : KeyboardBuffer
full = record { buffer = λ i. b'a'; tail = 1024; head = 0 }

full-Pending : Pending full (same_keys 1024)
full-Pending = record {
  held = λ i q. sym (get_or-same_keys 1024 i q);
  ends = omega (arith, length-same_keys 1024);
  fits = omega (arith, length-same_keys 1024);
  word = omega arith;
}

pushkey_full_example :
    ((popkey (pushkey full b'x')).0 ≡ b'x')
    × ((popkey (pushkey (popkey (pushkey full b'x')).1 b'y')).0 ≡ b'y')
pushkey_full_example =
    pushkey_full full (same_keys 1024) b'x' b'y' full-Pending (length-same_keys 1024) (omega arith)
