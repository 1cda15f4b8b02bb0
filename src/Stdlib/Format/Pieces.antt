-- ===== src/Stdlib/Format/Pieces.antt =====
-- What `vsprintf` writes for a format made of characters, `%%`, `%s`, `%u` and `%d`.
use vimos_minimal.Base.{ℕ, ◌^◌, ◌<◌, ◌≡◌, false, List, [], ◌∷◌, ◌++◌, ◌==◌}
use vimos_minimal.Stdlib.Number.Decimal.{decimal_of}
use vimos_minimal.Stdlib.Format.{Arg, text, long}

pub data Piece : Type 0 where
  plain : (c : ℕ) → (c == 37) ≡ false → Piece
  percent : Piece
  string : List ℕ → Piece
  unsigned : (n : ℕ) → n < 2 ^ 64 → Piece
  decimal : (n : ℕ) → n < 2 ^ 64 → Piece

-- The format of a piece: its first character, and the ones behind it.
abbrev first : Piece → ℕ
first (plain c p) = c
first percent = 37
first (string s) = 37
first (unsigned n h) = 37
first (decimal n h) = 37

abbrev behind : Piece → List ℕ
behind (plain c p) = []
behind percent = 37 ∷ []
behind (string s) = 115 ∷ []
behind (unsigned n h) = 117 ∷ []
behind (decimal n h) = 100 ∷ []

abbrev arg_of : Piece → List Arg
arg_of (plain c p) = []
arg_of percent = []
arg_of (string s) = text s ∷ []
arg_of (unsigned n h) = long n ∷ []
arg_of (decimal n h) = long n ∷ []

abbrev shown : Piece → List ℕ
shown (plain c p) = c ∷ []
shown percent = 37 ∷ []
shown (string s) = s
shown (unsigned n h) = decimal_of n
shown (decimal n h) = decimal_of n

abbrev pub render : List Piece → List ℕ
render [] = []
render (p ∷ ps) = first p ∷ (behind p ++ render ps)

abbrev pub args_of : List Piece → List Arg
args_of [] = []
args_of (p ∷ ps) = arg_of p ++ args_of ps

abbrev pub meaning : List Piece → List ℕ
meaning [] = []
meaning (p ∷ ps) = shown p ++ meaning ps
