-- ===== src/Format/Pieces.antt =====
-- The formats that `kvsprintf` understands, as lists of pieces, and what it makes of them.
use git_os.Base.{ℕ, ◌-◌, ◌^◌, ◌<◌, ◌≡◌, ◌≢◌, refl, ap, ◌∙◌, arith, some, List, [], ◌∷◌, ◌++◌, u8}
use git_os.Str.Copy.{IsText, buffer}
use git_os.Number.{itoa}
use git_os.Number.Digits.{IsNumeral, value, itoa-minus}
use git_os.Format.{Arg, word, text, plain, put_word, directive, format_from, kvsprintf}
use git_os.Format.Lengths.{
  Length, short, letters, number_arg, operand, IsSigned, put_number-text, map-nil-append,
  after_percent,
}
use mathlib.Core.Option
use mathlib.Core.List.{append-nil}

-- A byte of its own, `%%`, `%c`, `%s`, and `%d`, `%x` and `%b` with no `l`, one or two, with the argument
-- that it takes.
pub data Piece : Type 0 where
  literal : ℕ → Piece
  percent_sign : Piece
  character : ℕ → Piece
  string : List ℕ → List ℕ → Piece
  signed : Length → ℕ → Piece
  hex : Length → ℕ → Piece
  binary : Length → ℕ → Piece

abbrev pub IsPiece : Piece → Type 0
IsPiece (literal c) = (c ≢ 0) × (c ≢ b'%')
IsPiece (string s rest) = IsText s
IsPiece (signed l w) = (operand l w < 2 ^ 32) × (operand l w ≢ 2 ^ 31)
IsPiece _ = Unit {0}

-- How the piece stands in the format.
abbrev pub spelling : Piece → List ℕ → List ℕ
spelling (literal c) fmt = c ∷ fmt
spelling percent_sign fmt = b'%' ∷ b'%' ∷ fmt
spelling (character w) fmt = b'%' ∷ b'c' ∷ fmt
spelling (string s rest) fmt = b'%' ∷ b's' ∷ fmt
spelling (signed l w) fmt = b'%' ∷ letters l (b'd' ∷ fmt)
spelling (hex l w) fmt = b'%' ∷ letters l (b'x' ∷ fmt)
spelling (binary l w) fmt = b'%' ∷ letters l (b'b' ∷ fmt)

abbrev pub argument : Piece → List Arg → List Arg
argument (literal c) args = args
argument percent_sign args = args
argument (character w) args = word w ∷ args
argument (string s rest) args = text (buffer s rest) ∷ args
argument (signed l w) args = number_arg l w ∷ args
argument (hex l w) args = number_arg l w ∷ args
argument (binary l w) args = number_arg l w ∷ args

-- The bytes that the piece stands for.
abbrev pub Renders : Piece → List ℕ → Type 0
Renders (literal c) out = out ≡ c ∷ []
Renders percent_sign out = out ≡ b'%' ∷ []
Renders (character w) out = out ≡ u8 w ∷ []
Renders (string s rest) out = out ≡ s
Renders (signed l w) out = IsSigned (operand l w) out
Renders (hex l w) out = IsNumeral 16 (operand l w) out
Renders (binary l w) out = IsNumeral 2 (operand l w) out

abbrev pub AllPieces : List Piece → Type 0
AllPieces [] = Unit {0}
AllPieces (p ∷ ps) = IsPiece p × AllPieces ps

abbrev pub format_of : List Piece → List ℕ → List ℕ
format_of [] rest = 0 ∷ rest
format_of (p ∷ ps) rest = spelling p (format_of ps rest)

abbrev pub arguments : List Piece → List Arg
arguments [] = []
arguments (p ∷ ps) = argument p (arguments ps)

abbrev pub RenderAll : List Piece → List ℕ → Type 0
RenderAll [] out = out ≡ []
RenderAll (p ∷ ps) out =
    (first : List ℕ) × (more : List ℕ) × (out ≡ first ++ more) × Renders p first × RenderAll ps more

-- For an `unsigned int` above 2^31 `%u` writes a minus sign and the digits of 2^32 less the number.
pub unsigned_with_sign :
    (w : ℕ) (rest : List ℕ)
    → 2 ^ 31 < w
    → w < 2 ^ 32
    → (t : List ℕ) × (kvsprintf (b'%' ∷ b'u' ∷ 0 ∷ rest) (word w ∷ []) ≡ some (b'-' ∷ t))
      × (value 10 t ≡ 2 ^ 32 - w)
unfolding kvsprintf directive format_from
unsigned_with_sign w rest low high =
    let (t, e, i) = itoa-minus w low high in
    let out : put_word (λ n. itoa n 10) (word w ∷ []) ≡ some (plain, b'-' ∷ t, []) =
      put_number-text short (λ n. itoa n 10) w [] (b'-' ∷ t) e (omega arith, i.text) in
    (
      t,
      after_percent short b'u' (0 ∷ rest) (word w ∷ []) [] (b'-' ∷ t) out
          ∙ ap (λ s. some (b'-' ∷ s)) (append-nil t),
      i.stands_for,
    )

-- A format that ends in `%` is read on behind its terminator.
pub percent_at_end :
    (rest : List ℕ) (args : List Arg) → kvsprintf (b'%' ∷ 0 ∷ rest) args ≡ kvsprintf rest args
unfolding kvsprintf directive
percent_at_end rest args =
    after_percent short 0 rest args args [] refl ∙ map-nil-append (format_from plain rest args)
