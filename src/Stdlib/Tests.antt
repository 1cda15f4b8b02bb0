-- ===== src/Stdlib/Tests.antt =====
-- The library at concrete inputs.
use vimos_minimal.Base.{inr, ℕ, ◌≡◌, refl, some, List, [], ◌∷◌, ◌++◌, arith}
use vimos_minimal.Base.Int.{pos, negsuc}
use vimos_minimal.Stdlib.Number.{is_digit, skip_atoi, number}
use vimos_minimal.Stdlib.Number.Digits.{skip_atoi-number}
use vimos_minimal.Stdlib.Format.Pieces.{Piece, plain, percent, string, decimal}

skip_atoi-number_example :
    (out : List ℕ) × (number 4096 10 (negsuc 0) (negsuc 0) 2 ≡ some out)
    × (skip_atoi (out ++ 32 ∷ []) ≡ (pos 4096, 32 ∷ []))
unfolding is_digit
skip_atoi-number_example = skip_atoi-number 4096 2 32 [] (omega arith) (inr refl) refl

-- "n=%d %s%%"
abbrev pieces : List Piece
pieces =
    plain 110 refl
    ∷ plain 61 refl
    ∷ decimal 42 (omega arith)
    ∷ plain 32 refl
    ∷ string (111 ∷ 107 ∷ [])
    ∷ percent
    ∷ []
