-- ===== src/Boot/Convert.antt =====
-- `convert` of boot/lib.c: a number with a fixed count of digits.
use mathlib.Core.List.{append_assoc}
use vimos_minimal.Base.{
  ℕ, zero, suc, ◌/◌, ◌%◌, ◌^◌, ◌<◌, ◌≡◌, refl, ap, ◌∙◌, false, List, [], ◌∷◌, ◌++◌, arith, length,
  length-append,
}
use vimos_minimal.Base.Int.{pos}
use vimos_minimal.Stdlib.Number.{is_digit, skip_digits, skip_atoi, digit}
use vimos_minimal.Stdlib.Number.Digits.{skip_digits-digit, digits_end, int_of-pos}

-- The loop from `j = digit - 1` down to 0 writes the digits from the end; the terminating 0 is left
-- out.
unfoldable pub convert : ℕ → ℕ → ℕ → List ℕ
convert zero base value = []
convert (suc digits) base value =
    convert digits base (value / base) ++ digit false (value % base) ∷ []

skip_digits-convert :
    (digits value : ℕ) (s : List ℕ)
    → value < 10 ^ digits
    → value < 2 ^ 32
    → skip_digits 0 (convert digits 10 value ++ s) ≡ skip_digits value s
unfolding convert
skip_digits-convert zero value s h small = let e : value ≡ 0 = omega arith in rw e refl
skip_digits-convert (suc digits) value s h small =
    rw (append_assoc (convert digits 10 (value / 10)) (digit false (value % 10) ∷ []) s) (
      skip_digits-convert digits (value / 10) (digit false (value % 10) ∷ s) (omega arith)
        (omega arith)
      ∙ skip_digits-digit false (value / 10) (value % 10) s (omega arith) (omega arith)
      ∙ ap (λ x. skip_digits x s) (omega arith))

length-convert : (digits base value : ℕ) → length (convert digits base value) ≡ digits
unfolding convert
length-convert zero base value = refl
length-convert (suc digits) base value = omega (
  arith,
  length-convert digits base (value / base),
  length-append (convert digits base (value / base)) (digit false (value % base) ∷ []),
)

-- For a number below 2^31 and 10 to the power of the count of digits, `convert` in base 10 writes exactly so
-- many characters, and `skip_atoi` reads them back as the number, up to the next character that is
-- no digit.
pub skip_atoi-convert :
    (digits value c : ℕ) (s : List ℕ)
    → value < 10 ^ digits
    → value < 2 ^ 31
    → is_digit c ≡ false
    → (length (convert digits 10 value) ≡ digits)
      × (skip_atoi (convert digits 10 value ++ c ∷ s) ≡ (pos value, c ∷ s))
unfolding skip_atoi
skip_atoi-convert digits value c s h small e = (
  length-convert digits 10 value,
  rw
      (
        skip_digits-convert digits value (c ∷ s) h (omega arith) ∙ digits_end value c s e,
        int_of-pos value small,
      )
      refl,
)
