-- ===== src/Number/Digits.antt =====
-- What `uitoa` and `itoa` write, read back as a number.
use git_os.Base.{
  ℕ, zero, suc, ◌+◌, ◌-◌, ◌*◌, ◌/◌, ◌%◌, ◌^◌, ◌≤◌, ◌<◌, ◌≡◌, ◌≢◌, refl, ap, ◌∙◌, sym, arith, true,
  false, some, List, [], ◌∷◌, ◌++◌, ◌⊎◌, ltb, leb, ◌==◌, if◌then◌else◌, inl,
}
use git_os.Base.Int.{ℤ, pos, sub_ℕ}
use mathlib.Core.List.{reverse, reverse-append, reverse-reverse, append_assoc, append-nil}
use native.Mathlib.Decide.{ℕ_discrete, dec_lt}
use native.Mathlib.Nat.{div-add-mod', div-lt_self}
use git_os.Str.{strrev}
use git_os.Str.Copy.{IsText, buffer}
use git_os.Str.Reverse.{strrev-buffer}
use git_os.Number.{digit_char, digits_from, uitoa, itoa}

-- The digit that a character stands for.
abbrev pub digit_value : ℕ → ℕ
digit_value c = if leb b'a' c then c - b'a' + 10 else c - b'0'

module _ (base : ℕ) where
  abbrev pub value_from : ℕ → List ℕ → ℕ
  value_from acc [] = acc
  value_from acc (c ∷ t) = value_from (acc * base + digit_value c) t

  -- The number that a text stands for.
  abbrev pub value : List ℕ → ℕ
  value t = value_from 0 t

  abbrev pub IsDigit : ℕ → Type 0
  IsDigit c = (((b'0' ≤ c) × (c ≤ b'9')) ⊎ (b'a' ≤ c)) × (digit_value c < base)

  abbrev pub AllDigits : List ℕ → Type 0
  AllDigits [] = Unit {0}
  AllDigits (c ∷ t) = IsDigit c × AllDigits t

  value-append :
      (acc c : ℕ) (t : List ℕ)
      → value_from acc (t ++ (c ∷ [])) ≡ value_from acc t * base + digit_value c
  value-append acc c [] = refl
  value-append acc c (d ∷ t) = value-append (acc * base + digit_value d) c t

  AllDigits-append : (c : ℕ) (t : List ℕ) → IsDigit c → AllDigits t → AllDigits (t ++ (c ∷ []))
  AllDigits-append c [] h a = (h, tt)
  AllDigits-append c (d ∷ t) h a = (a.0, AllDigits-append c t h a.1)

abbrev pub StartsNonzero : List ℕ → Type 0
StartsNonzero [] = ⊥
StartsNonzero (c ∷ t) = c ≢ b'0'

IsText-append : (s : List ℕ) (c : ℕ) → IsText s → c ≢ 0 → IsText (s ++ (c ∷ []))
IsText-append [] c h p = (p, tt)
IsText-append (d ∷ s) c h p = (h.0, IsText-append s c h.1 p)

IsText-reverse : (s : List ℕ) → IsText s → IsText (reverse s)
IsText-reverse [] h = tt
IsText-reverse (c ∷ s) h =
    rw (reverse-append (c ∷ []) s) (IsText-append (reverse s) c (IsText-reverse s h.1) h.0)

-- A text that writes the number `n` in the given base: digits of the base, none of them in excess.
pub record IsNumeral (base n : ℕ) (t : List ℕ) : Type 0 where
  pub stands_for : value base t ≡ n
  pub digits : AllDigits base t
  pub text : IsText t
  pub no_zeros : n ≢ 0 → StartsNonzero t

module _ (base : ℕ) (low : 2 ≤ base) (high : base ≤ 36) where
  digit_char_lem :
      (r : ℕ)
      → r < base
      → (digit_value (digit_char false r) ≡ r)
        × IsDigit base (digit_char false r)
        × (digit_char false r ≢ 0)
        × (r ≢ 0 → digit_char false r ≢ b'0')
  unfolding digit_char
  digit_char_lem r h = ground arith

  -- What the loop has written, read backwards: nothing for 0.
  abbrev IsWritten : ℕ → List ℕ → Type 0
  IsWritten n t = IsNumeral base n t × (n ≡ 0 → t ≡ [])

  StartsNonzero-append :
      (n c : ℕ) (t : List ℕ) → IsWritten n t → (n ≡ 0 → c ≢ b'0') → StartsNonzero (t ++ (c ∷ []))
  StartsNonzero-append n c [] w z = z (sym w.0.stands_for)
  StartsNonzero-append n c (d ∷ t) w z = w.0.no_zeros (λ e. cc (w.1 e))

  IsWritten-suc :
      (n : ℕ) (t : List ℕ)
      → n ≢ 0
      → IsWritten (n / base) t
      → IsWritten n (t ++ (digit_char false (n % base) ∷ []))
  IsWritten-suc n t ne w =
      let (reads, is_digit, not_end, nonzero) = digit_char_lem (n % base) (omega arith) in
      (
        record {
          stands_for =
              value-append base 0 (digit_char false (n % base)) t
              ∙ ap (λ (q : ℕ). q * base + digit_value (digit_char false (n % base))) w.0.stands_for
              ∙ ap (λ (r : ℕ). n / base * base + r) reads
              ∙ div-add-mod' n base;
          digits = AllDigits-append base _ t is_digit w.0.digits;
          text = IsText-append t _ w.0.text not_end;
          no_zeros = λ _. StartsNonzero-append (n / base) _ t w (λ e.
              nonzero (λ f. ne (omega (arith, div-add-mod' n base, ap (λ (q : ℕ). q * base) e))));
        },
        λ e. absurd (ne e),
      )

  IsWritten-zero : (n : ℕ) → n ≡ 0 → IsWritten n []
  IsWritten-zero n e = (
    record { stands_for = sym e; digits = tt; text = tt; no_zeros = λ ne. absurd (ne e) },
    λ _. refl,
  )

  -- The loop stops within its fuel and writes the digits, the lowest first.
  digits_from-IsWritten :
      (fuel n : ℕ) (str : List ℕ)
      → n ≤ fuel
      → (t : List ℕ) × (digits_from fuel n base false str ≡ some (str ++ reverse t)) × IsWritten n t
  unfolding digits_from
  digits_from-IsWritten zero n str h =
      let e : n ≡ 0 = omega arith in ([], rw (e, append-nil), IsWritten-zero n e)
  digits_from-IsWritten (suc fuel) n str h = elim (ℕ_discrete n 0) [
    | yes e ↦ ([], rw (e, append-nil), IsWritten-zero n e)
    | no ne ↦
        let c = digit_char false (n % base) in
        let smaller : n / base < n = div-lt_self (omega arith) low in
        let (t, e, w) = digits_from-IsWritten fuel (n / base) (str ++ (c ∷ [])) (omega arith) in
        let more : (n == 0) ≡ false = ground arith in
        (t ++ (c ∷ []), rw (more, e, append_assoc, reverse-append), IsWritten-suc n t ne w)
  ]

  digits_from-IsNumeral :
      (n : ℕ)
      → (t : List ℕ) × (digits_from n n base false [] ≡ some (reverse t)) × IsNumeral base n t
  digits_from-IsNumeral n =
      let (t, e, w) = digits_from-IsWritten n n [] (omega arith) in (t, e, w.0)

strrev-reversed : (t : List ℕ) → IsText t → strrev (buffer (reverse t) []) ≡ some (buffer t [])
strrev-reversed t h = rw (strrev-buffer (reverse t) [] (IsText-reverse t h), reverse-reverse)

pub uitoa-IsNumeral :
    (num base : ℕ)
    → 2 ≤ base
    → base ≤ 36
    → (t : List ℕ) × (uitoa num base ≡ some (buffer t [])) × IsNumeral base num t
unfolding uitoa
uitoa-IsNumeral num base low high = elim (ℕ_discrete num 0) [
  | yes e ↦ (
    b'0' ∷ [],
    rw e,
    record {
      stands_for = omega arith;
      digits = ((inl (omega arith), omega arith), tt);
      text = (omega arith, tt);
      no_zeros = λ ne. absurd (ne e);
    },
  )
  | no ne ↦
      let (t, e, i) = digits_from-IsNumeral base low high num in
      let more : (num == 0) ≡ false = ground arith in
      (t, rw (more, e) (strrev-reversed t i.text), i)
]

-- The integer that a 32-bit word stands for.
abbrev pub signed32 : ℕ → ℤ
signed32 w = if ltb w (2 ^ 31) then pos w else sub_ℕ 0 (2 ^ 32 - w)

-- The integer that a decimal text with a sign stands for.
abbrev pub read_int : List ℕ → ℤ
read_int [] = pos 0
read_int (c ∷ t) = if c == b'-' then sub_ℕ 0 (value 10 t) else pos (value 10 (c ∷ t))

pub itoa-uitoa : (w : ℕ) → w < 2 ^ 31 → itoa w 10 ≡ uitoa w 10
unfolding itoa uitoa
itoa-uitoa w h = ground arith

read_int-numeral : (n : ℕ) (t : List ℕ) → IsNumeral 10 n t → read_int t ≡ pos n
read_int-numeral n [] i = ap pos i.stands_for
read_int-numeral n (c ∷ t) i =
    let digit = i.digits.0 in
    let no_sign : (c == b'-') ≡ false = ground arith in rw no_sign (ap pos i.stands_for)

itoa-negative :
    (w : ℕ) (str : List ℕ)
    → 2 ^ 31 < w
    → w < 2 ^ 32
    → digits_from (2 ^ 32 - w) (2 ^ 32 - w) 10 false [] ≡ some str
    → itoa w 10 ≡ strrev ((str ++ (b'-' ∷ [])) ++ (0 ∷ []))
unfolding itoa
itoa-negative w str low high e =
    let sign : ltb w (2 ^ 31) ≡ false = ground arith in
    let negated : (2 ^ 32 - w) % 2 ^ 32 ≡ 2 ^ 32 - w = omega arith in
    let positive : ltb (2 ^ 32 - w) (2 ^ 31) ≡ true = ground arith in
    let more : (w == 0) ≡ false = ground arith in rw (sign, negated, positive, more, e, sign)

-- A word whose sign bit is set and that is not the least integer is written as a minus sign and
-- the digits of its magnitude.
pub itoa-minus :
    (w : ℕ)
    → 2 ^ 31 < w
    → w < 2 ^ 32
    → (t : List ℕ) × (itoa w 10 ≡ some (buffer (b'-' ∷ t) [])) × IsNumeral 10 (2 ^ 32 - w) t
itoa-minus w low high =
    let (t, e, i) = digits_from-IsNumeral 10 (omega arith) (omega arith) (2 ^ 32 - w) in
    (
      t,
      itoa-negative w (reverse t) low high e
          ∙ rw (← reverse-append (b'-' ∷ []) t) (strrev-reversed (b'-' ∷ t) (omega arith, i.text)),
      i,
    )

-- Written in decimal by `itoa`, a word comes back as the integer that it stands for, unless it is
-- the least of them.
pub itoa-read_int :
    (w : ℕ)
    → w < 2 ^ 32
    → w ≢ 2 ^ 31
    → (t : List ℕ) × (itoa w 10 ≡ some (buffer t [])) × IsText t × (read_int t ≡ signed32 w)
itoa-read_int w h ne = elim (dec_lt w (2 ^ 31)) [
  | yes low ↦
      let (t, e, i) = uitoa-IsNumeral w 10 (omega arith) (omega arith) in
      let sign : ltb w (2 ^ 31) ≡ true = ground arith in
      (t, itoa-uitoa w low ∙ e, i.text, rw sign (read_int-numeral w t i))
  | no high ↦
      let (t, e, i) = itoa-minus w (omega arith) h in
      let sign : ltb w (2 ^ 31) ≡ false = ground arith in
      (b'-' ∷ t, e, (omega arith, i.text), ap (sub_ℕ 0) i.stands_for ∙ rw sign)
]
