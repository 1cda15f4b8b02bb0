-- ===== src/Stdlib/Ctype.antt =====
-- Character classes: stdlib/isdigit.c, islower.c, isupper.c, isspace.c, tolower.c, toupper.c. A
-- character is a `char` of the source that is not negative, hence a number.
use vimos_minimal.Base.{ℕ, ◌+◌, ◌-◌, ◌≡◌, Bool, false, ◌&&◌, ◌||◌, arith, leb, ◌==◌, if◌then◌else◌}

unfoldable pub isdigit : ℕ → Bool
isdigit c = leb 48 c && leb c 57

unfoldable pub islower : ℕ → Bool
islower c = leb 97 c && leb c 122

unfoldable pub isupper : ℕ → Bool
isupper c = leb 65 c && leb c 90

unfoldable pub isspace : ℕ → Bool
isspace c = (c == 32) || (c == 12) || (c == 10) || (c == 13) || (c == 9) || (c == 11)

unfoldable pub tolower : ℕ → ℕ
tolower c = if isupper c then c + 0x20 else c

unfoldable pub toupper : ℕ → ℕ
toupper c = if islower c then c - 0x20 else c

-- No capital is left by `tolower` and no small letter by `toupper`; `toupper` of `tolower` is
-- `toupper`, and `tolower` of `toupper` is `tolower`, on every character.
pub tolower-toupper :
    (c : ℕ)
    → (isupper (tolower c) ≡ false)
      × (islower (toupper c) ≡ false)
      × (toupper (tolower c) ≡ toupper c)
      × (tolower (toupper c) ≡ tolower c)
unfolding tolower toupper isupper islower
tolower-toupper c = (ground arith, ground arith, ground arith, ground arith)
