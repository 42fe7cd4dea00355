-- ===== src/Format.antt =====
-- `kvsprintf` of src/kernel/common/string.c. Its state is the rest of the format, which is read one
-- byte after the other, the arguments that are left, and how far into a directive the reading is.
-- The result is the list of the bytes that are written from `buf` on; the code writes no terminator
-- behind them. `none` is what C leaves undefined: an argument of another type than the directive's,
-- too few arguments, or a read past the end of the format or of a string.
pub mod Lengths
pub mod Pieces
mod Tests
use git_os.Base.{
  ℕ, zero, suc, ◌+◌, ◌-◌, ◌*◌, ◌/◌, ◌%◌, ◌^◌, Bool, true, false, ◌&&◌, ◌||◌, not, Option, none,
  some, List, [], ◌∷◌, ◌++◌, ltb, leb, ◌==◌, if◌then◌else◌, u8, u32, take,
}
use mathlib.Core.Option
use git_os.Str.{strlen}
use git_os.Number.{uitoa, itoa}

-- What stands in the argument list: an `int` or a `long`, a `long long`, a `char*`.
pub data Arg : Type 0 where
  word : ℕ → Arg
  wide : ℕ → Arg
  text : List ℕ → Arg

-- Behind no `%`, behind `%`, behind `%l`, behind `%ll`.
pub data Mode : Type 0 where
  plain percent long long_long : Mode

-- The mode of the next byte, the bytes written, and the arguments left.
abbrev pub Outcome : Type 0
Outcome = Option (Mode × List ℕ × List Arg)

-- `sz = strlen(s); memcpy(buf, s, sz);`
pub string_bytes : List ℕ → Option (List ℕ)
string_bytes s = Option.map (λ sz. take sz s) (strlen s)

abbrev pub written : Option (List ℕ) → List Arg → Outcome
written none args = none
written (some buffer) args = Option.map (λ out. (plain, out, args)) (string_bytes buffer)

-- A number of `va_arg(args, int)` and the like, formatted in the internal buffer.
pub put_word : (ℕ → Option (List ℕ)) → List Arg → Outcome
put_word f (word w ∷ args) = written (f w) args
put_word f _ = none

-- `va_arg(args, long long)` is passed on as a `long`.
pub put_wide : (ℕ → Option (List ℕ)) → List Arg → Outcome
put_wide f (wide w ∷ args) = written (f (u32 w)) args
put_wide f _ = none

pub put_char : List Arg → Outcome
put_char (word w ∷ args) = some (plain, u8 w ∷ [], args)
put_char _ = none

pub put_text : List Arg → Outcome
put_text (text s ∷ args) = written (some s) args
put_text _ = none

abbrev pub decimal : ℕ → Option (List ℕ)
decimal w = itoa w 10

-- `switch (*fmt)` behind `%`.
pub directive : ℕ → List Arg → Outcome
directive c args =
    if c == b'%'
    then some (plain, b'%' ∷ [], args)
    else if c == b'c'
    then put_char args
    else if c == b's'
    then put_text args
    else if c == b'p'
    then put_word (λ w. uitoa w 16) args
    else if c == b'l'
    then some (long, [], args)
    else if c == b'x'
    then put_word (λ w. uitoa w 16) args
    else if c == b'i' || c == b'd'
    then put_word decimal args
    else if c == b'u'
    then put_word decimal args
    else if c == b'b'
    then put_word (λ w. uitoa w 2) args
    else some (plain, [], args)

-- `switch (*fmt)` behind `%l`.
pub long_directive : ℕ → List Arg → Outcome
long_directive c args =
    if c == b'l'
    then some (long_long, [], args)
    else if c == b'i' || c == b'd'
    then put_word decimal args
    else if c == b'u'
    then put_word decimal args
    else if c == b'x'
    then put_word (λ w. uitoa w 16) args
    else if c == b'b'
    then put_word (λ w. uitoa w 2) args
    else if c == b'p'
    then put_word (λ w. uitoa w 16) args
    else some (plain, [], args)

-- `switch (*fmt)` behind `%ll`.
pub long_long_directive : ℕ → List Arg → Outcome
long_long_directive c args =
    if c == b'i' || c == b'd'
    then put_wide decimal args
    else if c == b'u'
    then put_wide decimal args
    else if c == b'x'
    then put_wide (λ w. uitoa w 16) args
    else if c == b'b'
    then put_wide (λ w. uitoa w 2) args
    else if c == b'p'
    then put_wide (λ w. uitoa w 16) args
    else some (plain, [], args)

pub step : Mode → ℕ → List Arg → Outcome
step plain c args = if c == b'%' then some (percent, [], args) else some (plain, c ∷ [], args)
step percent c args = directive c args
step long c args = long_directive c args
step long_long c args = long_long_directive c args

-- The outer loop ends at a 0 that is not behind a `%`.
abbrev pub at_end : Mode → ℕ → Bool
at_end plain c = c == 0
at_end _ c = false

pub format_from : Mode → List ℕ → List Arg → Option (List ℕ)
format_from mode [] args = none
format_from mode (c ∷ fmt) args =
    let rest : Option (List ℕ) = elim (step mode c args) [
      | none ↦ none
      | some (mode', out, args') ↦ Option.map (λ more. out ++ more) (format_from mode' fmt args')
    ] in
    if at_end mode c then some [] else rest

pub kvsprintf : List ℕ → List Arg → Option (List ℕ)
kvsprintf fmt args = format_from plain fmt args
