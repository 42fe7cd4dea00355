-- ===== src/Format/Lengths.antt =====
-- A directive for a number in `kvsprintf` of src/kernel/common/string.c, with no `l`, one or two of them.
use git_os.Base.{
  ℕ, ◌-◌, ◌^◌, ◌<◌, ◌≡◌, ◌≢◌, refl, ap, ◌∙◌, arith, Option, none, some, List, [], ◌∷◌, ◌++◌, take,
  length, u32, ◌⊎◌, inl, inr,
}
use native.Mathlib.Decide.{dec_lt}
use git_os.Str.Copy.{IsText, buffer, strlen-buffer}
use git_os.Number.{uitoa, itoa}
use git_os.Number.Digits.{IsNumeral, uitoa-IsNumeral, itoa-uitoa, itoa-minus}
use git_os.Format.{
  Arg, Outcome, word, wide, plain, string_bytes, written, put_word, put_wide, decimal, directive,
  long_directive, long_long_directive, step, format_from,
}
use mathlib.Core.Option

-- `%d`, `%ld` and `%lld`.
pub data Length : Type 0 where
  short once twice : Length

abbrev pub letters : Length → List ℕ → List ℕ
letters short fmt = fmt
letters once fmt = b'l' ∷ fmt
letters twice fmt = b'l' ∷ b'l' ∷ fmt

-- The argument, and the number of 32 bits that is written of it.
abbrev pub number_arg : Length → ℕ → Arg
number_arg short w = word w
number_arg once w = word w
number_arg twice w = wide w

abbrev pub operand : Length → ℕ → ℕ
operand short w = w
operand once w = w
operand twice w = u32 w

-- A word in decimal: a numeral, behind a minus sign where the word is negative.
abbrev pub IsSigned : ℕ → List ℕ → Type 0
IsSigned w out =
    ((w < 2 ^ 31) × IsNumeral 10 w out)
    ⊎ ((2 ^ 31 < w) × (t : List ℕ) × (out ≡ b'-' ∷ t) × IsNumeral 10 (2 ^ 32 - w) t)

pub itoa-IsSigned :
    (w : ℕ)
    → w < 2 ^ 32
    → w ≢ 2 ^ 31
    → (t : List ℕ) × (itoa w 10 ≡ some (buffer t [])) × IsText t × IsSigned w t
itoa-IsSigned w h ne = elim (dec_lt w (2 ^ 31)) [
  | yes low ↦
      let (t, e, i) = uitoa-IsNumeral w 10 (omega arith) (omega arith) in
      (t, itoa-uitoa w low ∙ e, i.text, inl (low, i))
  | no high ↦
      let (t, e, i) = itoa-minus w (omega arith) h in
      (b'-' ∷ t, e, (omega arith, i.text), inr (omega arith, t, refl, i))
]

take_text : (s t : List ℕ) → take (length s) (s ++ t) ≡ s
take_text [] t = refl
take_text (c ∷ s) t = ap (◌∷◌ c) (take_text s t)

pub string_bytes-buffer : (s rest : List ℕ) → IsText s → string_bytes (buffer s rest) ≡ some s
unfolding string_bytes
string_bytes-buffer s rest h = rw (strlen-buffer s rest h) (ap some (take_text s (0 ∷ rest)))

abbrev put_number : Length → (ℕ → Option (List ℕ)) → List Arg → Outcome
put_number short f args = put_word f args
put_number once f args = put_word f args
put_number twice f args = put_wide f args

-- What a formatted number leaves.
pub put_number-text :
    (l : Length) (f : ℕ → Option (List ℕ)) (w : ℕ) (args : List Arg) (t : List ℕ)
    → f (operand l w) ≡ some (buffer t [])
    → IsText t
    → put_number l f (number_arg l w ∷ args) ≡ some (plain, t, args)
unfolding put_word put_wide
put_number-text short f w args t e h = rw (e, written, string_bytes-buffer t [] h)
put_number-text once f w args t e h = rw (e, written, string_bytes-buffer t [] h)
put_number-text twice f w args t e h = rw (e, written, string_bytes-buffer t [] h)

pub map-nil-append : (o : Option (List ℕ)) → Option.map (λ more. ◌++◌ {A = ℕ} [] more) o ≡ o
map-nil-append none = refl
map-nil-append (some t) = refl

-- The switch that reads the letter behind the percent sign and the `l`s.
abbrev pub switch_of : Length → ℕ → List Arg → Outcome
switch_of short c args = directive c args
switch_of once c args = long_directive c args
switch_of twice c args = long_long_directive c args

-- A directive that writes `first` and takes its arguments.
pub after_percent :
    (l : Length) (c : ℕ) (fmt : List ℕ) (args args' : List Arg) (first : List ℕ)
    → switch_of l c args ≡ some (plain, first, args')
    → format_from plain (b'%' ∷ letters l (c ∷ fmt)) args
      ≡ Option.map (λ more. first ++ more) (format_from plain fmt args')
unfolding format_from step directive long_directive
after_percent short c fmt args args' first e = rw e (map-nil-append _)
after_percent once c fmt args args' first e = rw e (map-nil-append _ ∙ map-nil-append _)
after_percent twice c fmt args args' first e =
    rw e (map-nil-append _ ∙ map-nil-append _ ∙ map-nil-append _)

switch_decimal : (l : Length) (args : List Arg) → switch_of l b'd' args ≡ put_number l decimal args
unfolding directive long_directive long_long_directive
switch_decimal short args = refl
switch_decimal once args = refl
switch_decimal twice args = refl

switch_hex :
    (l : Length) (args : List Arg) → switch_of l b'x' args ≡ put_number l (λ n. uitoa n 16) args
unfolding directive long_directive long_long_directive
switch_hex short args = refl
switch_hex once args = refl
switch_hex twice args = refl

switch_binary :
    (l : Length) (args : List Arg) → switch_of l b'b' args ≡ put_number l (λ n. uitoa n 2) args
unfolding directive long_directive long_long_directive
switch_binary short args = refl
switch_binary once args = refl
switch_binary twice args = refl

-- The three directives for numbers, of each length.
module _ (l : Length) (w : ℕ) (fmt : List ℕ) (args : List Arg) where
  abbrev Emits : ℕ → List ℕ → Type 0
  Emits c first =
      format_from plain (b'%' ∷ letters l (c ∷ fmt)) (number_arg l w ∷ args)
      ≡ Option.map (λ more. first ++ more) (format_from plain fmt args)

  pub number-IsSigned :
      operand l w < 2 ^ 32
      → operand l w ≢ 2 ^ 31
      → (t : List ℕ) × Emits b'd' t × IsSigned (operand l w) t
  number-IsSigned h ne =
      let (t, e, is_text, i) = itoa-IsSigned (operand l w) h ne in
      (
        t,
        after_percent l b'd' fmt (number_arg l w ∷ args) args t (
            switch_decimal l (number_arg l w ∷ args)
            ∙ put_number-text l decimal w args t e is_text),
        i,
      )

  pub hex-IsNumeral : (t : List ℕ) × Emits b'x' t × IsNumeral 16 (operand l w) t
  hex-IsNumeral =
      let (t, e, i) = uitoa-IsNumeral (operand l w) 16 (omega arith) (omega arith) in
      (
        t,
        after_percent l b'x' fmt (number_arg l w ∷ args) args t (
            switch_hex l (number_arg l w ∷ args)
            ∙ put_number-text l (λ n. uitoa n 16) w args t e i.text),
        i,
      )

  pub binary-IsNumeral : (t : List ℕ) × Emits b'b' t × IsNumeral 2 (operand l w) t
  binary-IsNumeral =
      let (t, e, i) = uitoa-IsNumeral (operand l w) 2 (omega arith) (omega arith) in
      (
        t,
        after_percent l b'b' fmt (number_arg l w ∷ args) args t (
            switch_binary l (number_arg l w ∷ args)
            ∙ put_number-text l (λ n. uitoa n 2) w args t e i.text),
        i,
      )
