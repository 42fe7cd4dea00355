-- ===== src/Format/Tests.antt =====
-- A run of `kvsprintf`, and its properties at a format.
use git_os.Base.{List, [], ◌∷◌}
use git_os.Format.Lengths.{short, once, twice}
use git_os.Format.Pieces.{Piece, literal, string, signed, hex, binary}

-- "=%s:%d,%lx%llb" with "ab", -10, 255 and 2^32 + 5
abbrev pieces : List Piece
pieces =
    literal b'='
    ∷ string (b'a' ∷ b'b' ∷ []) []
    ∷ literal b':'
    ∷ signed short 0xffff_fff6
    ∷ literal b','
    ∷ hex once 255
    ∷ binary twice 0x1_0000_0005
    ∷ []
