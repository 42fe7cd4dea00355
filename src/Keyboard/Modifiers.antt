-- ===== src/Keyboard/Modifiers.antt =====
-- The flags of src/kernel/drivers/ps2keyboard/ps2keyboard.c over a sequence of interrupts.
use git_os.Base.{
  ℕ, zero, suc, ◌+◌, ◌≡◌, ◌≢◌, ◌<◌, ◌≤◌, refl, ap, ◌∙◌, arith, Bool, true, false, ◌||◌, ◌&&◌, not,
  Option, none, some, List, [], ◌∷◌, length, get_elem?, leb, ltb, ◌==◌, if◌then◌else◌, bit_and,
  Bool-cases, inl, inr,
}
use mathlib.Core.Option
use git_os.Keyboard.{
  Keyboard, scan_set_1, with_flags, scancode_to_char, irq_handler, pushed, shift_char,
}

-- The interrupts one after the other, with the keys that they give.
pub run : Keyboard → List ℕ → Option (Keyboard × List (Option ℕ))
run kb [] = some (kb, [])
run kb (code ∷ codes) = elim (irq_handler kb code) [
  | none ↦ none
  | some (kb', key) ↦ Option.map (λ r. (r.0, key ∷ r.1)) (run kb' codes)
]

-- Whether the last code of a shift key was of its press.
pub shift_after : Bool → List ℕ → Bool
shift_after b [] = b
shift_after b (code ∷ codes) =
    shift_after
      (if code == 0xAA || code == 0xB6
        then false
        else if code == 0x2A || code == 0x36
        then true
        else b)
      codes

-- Caps Lock turns with each press of its key.
pub capslock_after : Bool → List ℕ → Bool
capslock_after b [] = b
capslock_after b (code ∷ codes) = capslock_after (if code == 0x3A then not b else b) codes

-- No code of the key that lies just behind the table.
abbrev pub InTable : List ℕ → Type 0
InTable [] = Unit {0}
InTable (code ∷ codes) = (code ≢ length scan_set_1) × InTable codes

in_table : (xs : List ℕ) (i : ℕ) → i < length xs → (c : ℕ) × (get_elem? xs i ≡ some c)
in_table [] i h = absurd (omega arith)
in_table (x ∷ xs) zero h = (x, refl)
in_table (x ∷ xs) (suc i) h = in_table xs i (omega arith)

char_found :
    (kb : Keyboard) (code : ℕ)
    → code ≢ length scan_set_1
    → (c : ℕ) × (scancode_to_char kb code ≡ some c)
unfolding scancode_to_char
char_found kb code h = elim (Bool-cases (ltb (length scan_set_1) code)) [
  | inl e ↦ (0, rw e refl)
  | inr e ↦
      let (c, found) = in_table scan_set_1 code (ground arith) in
      (with_flags kb c, rw (e, found) refl)
]

release_not_lock : (code : ℕ) → (code == 0xAA || code == 0xB6) ≡ true → (code == 0x3A) ≡ false
release_not_lock code h = ground arith

press_not_lock : (code : ℕ) → (code == 0x2A || code == 0x36) ≡ true → (code == 0x3A) ≡ false
press_not_lock code h = ground arith

-- The codes of a press do not have the bit of a release.
press_bit :
    (code press : ℕ)
    → not (bit_and code 0x80 == 0) ≡ true
    → bit_and press 0x80 ≡ 0
    → (code == press) ≡ false
press_bit code press h z = elim (Bool-cases (code == press)) [
  | inl e ↦
      let same : code ≡ press = ground arith in
      let low : bit_and code 0x80 ≡ 0 = ap (λ c. bit_and c 0x80) same ∙ z in absurd (ground arith)
  | inr e ↦ e
]

-- One interrupt does to the flags what its code says.
handler-flags :
    (kb : Keyboard) (code : ℕ)
    → code ≢ length scan_set_1
    → (key : Option ℕ) × ◌≡◌ {A = Option (Keyboard × Option ℕ)} (irq_handler kb code) (
        some (
          record {
            capslock = if code == 0x3A then not kb.capslock else kb.capslock;
            shift =
                if code == 0xAA || code == 0xB6
                then false
                else if code == 0x2A || code == 0x36
                then true
                else kb.shift;
          },
          key,
        ))
unfolding irq_handler
handler-flags kb code h = elim (Bool-cases (code == 0xAA || code == 0xB6)) [
  | inl a ↦ (none, rw (irq_handler, a, release_not_lock code a) refl)
  | inr a ↦ elim (Bool-cases (not (bit_and code 0x80 == 0))) [
    | inl r ↦ (
      none,
      rw
          (
            irq_handler,
            a,
            r,
            press_bit code 0x2A r refl,
            press_bit code 0x36 r refl,
            press_bit code 0x3A r refl,
          )
          refl,
    )
    | inr r ↦ elim (Bool-cases (code == 0x2A || code == 0x36)) [
      | inl p ↦ (none, rw (irq_handler, a, r, p, press_not_lock code p) refl)
      | inr p ↦ elim (Bool-cases (code == 0x3A)) [
        | inl l ↦ (none, rw (irq_handler, a, r, p, l) refl)
        | inr l ↦
            let (c, found) = char_found kb code h in
            (pushed c, rw (irq_handler, a, r, p, l, found) refl)
      ]
    ]
  ]
]

-- Over any sequence of interrupts in which the key just behind the table does not occur, shift is on
-- exactly if the last code of a shift key was of its press, and Caps Lock has turned as many times as
-- its key was pressed.
pub run-flags :
    (kb : Keyboard) (codes : List ℕ)
    → InTable codes
    → (keys : List (Option ℕ)) × ◌≡◌ {A = Option (Keyboard × List (Option ℕ))} (run kb codes) (
        some (
          record {
            capslock = capslock_after kb.capslock codes;
            shift = shift_after kb.shift codes;
          },
          keys,
        ))
unfolding run capslock_after shift_after
run-flags kb [] t = ([], refl)
run-flags kb (code ∷ codes) t =
    let (key, one) = handler-flags kb code t.0 in
    let kb' : Keyboard = record {
      capslock = if code == 0x3A then not kb.capslock else kb.capslock;
      shift =
          if code == 0xAA || code == 0xB6
          then false
          else if code == 0x2A || code == 0x36
          then true
          else kb.shift;
    } in
    let (keys, rest) = run-flags kb' codes t.1 in (key ∷ keys, rw (run, one, rest) refl)

shift_char_letter : (c : ℕ) → b'A' ≤ c → c ≤ b'Z' → shift_char c ≡ c
unfolding shift_char
shift_char_letter c h k = ground arith

-- A letter of the table comes in lower case unless Caps Lock is on; shift makes no difference to it.
pub with_flags_letter :
    (kb : Keyboard) (c : ℕ)
    → b'A' ≤ c
    → c ≤ b'Z'
    → with_flags kb c ≡ (if kb.capslock then c else c + 32)
unfolding with_flags
with_flags_letter kb c h k = letter kb.capslock kb.shift
  where
    letter :
        (lock on : Bool)
        → (if leb b'A' c && leb c b'Z' && not lock then c + 32 else if on then shift_char c else c)
          ≡ (if lock then c else c + 32)
    letter true true = ground (arith, shift_char_letter c h k)
    letter true false = ground arith
    letter false on = ground arith
