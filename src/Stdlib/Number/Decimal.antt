-- ===== src/Stdlib/Number/Decimal.antt =====
-- The decimal notation, and that `number` of stdlib/vsprintf.c writes it.
use vimos_minimal.Base.{
  ◌⊎◌, inl, inr, ℕ, zero, suc, ◌+◌, ◌/◌, ◌%◌, ◌^◌, ◌<◌, ◌≡◌, refl, ap, ◌∙◌, true, false, some, List,
  [], ◌∷◌, ◌++◌, arith, ltb, ◌==◌, if◌then◌else◌, ==_iff, Bool-cases,
}
use vimos_minimal.Base.Int.{negsuc}
use vimos_minimal.Stdlib.Number.{sign_flag, digit, digits_loop, tmp_of, write_back, number}
use vimos_minimal.Stdlib.Number.Digits.{number-plain}

-- The decimal notation: the digits of n / 10, and the last one.
unfoldable pub decimal_loop : ℕ → ℕ → List ℕ
decimal_loop zero n = []
decimal_loop (suc fuel) n =
    let rest = decimal_loop fuel (n / 10) in
    if ltb n 10 then (48 + n) ∷ [] else rest ++ (48 + n % 10) ∷ []

-- 20 digits are enough below 2 ^ 64.
unfoldable pub decimal_of : ℕ → List ℕ
decimal_of n = decimal_loop 20 n

digits_loop-zero : (fuel : ℕ) → digits_loop fuel false 10 0 ≡ []
unfolding digits_loop
digits_loop-zero zero = refl
digits_loop-zero (suc fuel) = refl

write_back-digits_loop :
    (k fuel n : ℕ)
    → 0 < n
    → n < 10 ^ k
    → n < 2 ^ fuel
    → write_back (digits_loop fuel false 10 n) ≡ decimal_loop k n
unfolding digits_loop decimal_loop write_back digit
write_back-digits_loop zero fuel n n0 h f = absurd (omega arith)
write_back-digits_loop (suc k) zero n n0 h f = absurd (omega arith)
write_back-digits_loop (suc k) (suc fuel) n n0 h f =
    let nz : (n == 0) ≡ false = ground arith in
    let small_digit : ltb (n % 10) 10 ≡ true = ground arith in
    elim (Bool-cases (ltb n 10)) [
      | inl last ↦
          let nothing : n / 10 ≡ 0 = ground arith in
          let whole : n % 10 ≡ n = ground arith in
          rw (nz, small_digit, nothing, whole, last, digits_loop-zero fuel) refl
      | inr more ↦
          rw
            (
              nz,
              small_digit,
              more,
              write_back-digits_loop k fuel (n / 10) (ground arith) (omega arith) (omega arith),
            )
            refl
    ]

-- The digits in `tmp`, written back, are the decimal notation.
write_back-tmp_of : (n : ℕ) → n < 2 ^ 64 → write_back (tmp_of false 10 n) ≡ decimal_of n
unfolding tmp_of decimal_of decimal_loop write_back
write_back-tmp_of n h = elim (Bool-cases (n == 0)) [
  | inl z ↦ let nothing : n ≡ 0 = (==_iff _ _).0 z in rw nothing refl
  | inr nz ↦ rw nz (write_back-digits_loop 20 64 n (ground arith) (omega arith) h)
]

-- What `%u` and `%d` write without a width or a precision is the decimal notation.
pub number-decimal_of :
    (n type : ℕ)
    → n < 2 ^ 64
    → (type ≡ 0) ⊎ (type ≡ sign_flag)
    → number n 10 (negsuc 0) (negsuc 0) type ≡ some (decimal_of n)
number-decimal_of n type h t = number-plain n type h t ∙ ap some (write_back-tmp_of n h)
