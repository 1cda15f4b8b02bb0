-- ===== src/Stdlib/Number/Digits.antt =====
-- The digits of a number read back, and the width of what `number` writes.
use mathlib.Core.List.{append_assoc, append-nil}
use vimos_minimal.Base.{
  ◌⊎◌, inl, inr, ℕ, zero, suc, ◌+◌, ◌-◌, ◌*◌, ◌/◌, ◌%◌, ◌^◌, ◌≤◌, ◌<◌, ◌≡◌, refl, ap, ◌∙◌, Bool,
  false, some, List, [], ◌∷◌, ◌++◌, arith, ltb, ◌==◌, Bool-cases, length,
}
use vimos_minimal.Base.Int.{pos, negsuc, ◌-ℤ◌}
use vimos_minimal.Stdlib.Number.{
  is_digit, skip_digits, skip_atoi, sign_flag, digit, digits_loop, tmp_of, pad, padded, sign_of,
  less_sign, at_least, prefix_of, write_back, layout, no_zeros_left, number, int_of,
}

-- One digit is read.
pub skip_digits-digit :
    (lower : Bool) (i d : ℕ) (s : List ℕ)
    → d < 10
    → i * 10 + d < 2 ^ 32
    → skip_digits i (digit lower d ∷ s) ≡ skip_digits (i * 10 + d) s
unfolding skip_digits is_digit digit
skip_digits-digit lower i d s h fit = ground arith

skip_digits-digits_loop :
    (fuel : ℕ) (lower : Bool) (n : ℕ) (s : List ℕ)
    → n < 2 ^ fuel
    → n < 2 ^ 32
    → skip_digits 0 (write_back (digits_loop fuel lower 10 n) ++ s) ≡ skip_digits n s
unfolding digits_loop write_back
skip_digits-digits_loop zero lower n s h fit = ground arith
skip_digits-digits_loop (suc fuel) lower n s h fit = elim (Bool-cases (n == 0)) [
  | inl z ↦ ground arith
  | inr nz ↦
      let next : skip_digits (n / 10) (digit lower (n % 10) ∷ s) ≡ skip_digits n s =
        rw (skip_digits-digit lower (n / 10) (n % 10) s (omega arith) (omega arith))
          (ap (λ x. skip_digits x s) (omega arith)) in
      rw
        (
          nz,
          append_assoc (write_back (digits_loop fuel lower 10 (n / 10))) (digit lower (n % 10) ∷ [])
              s,
        )
        (skip_digits-digits_loop fuel lower (n / 10) (digit lower (n % 10) ∷ s) (omega arith)
            (omega arith)
          ∙ next)
]

-- The digits are read back as the number.
skip_digits-tmp_of :
    (lower : Bool) (n : ℕ) (s : List ℕ)
    → n < 2 ^ 31
    → skip_digits 0 (write_back (tmp_of lower 10 n) ++ s) ≡ skip_digits n s
unfolding tmp_of write_back digit
skip_digits-tmp_of lower n s h = elim (Bool-cases (n == 0)) [
  | inl z ↦
      let none_left : n ≡ 0 = ground arith in
      rw none_left (skip_digits-digit false 0 0 s (omega arith) (omega arith))
  | inr nz ↦ rw nz (skip_digits-digits_loop 64 lower n s (omega arith) (omega arith))
]

pub digits_end : (n c : ℕ) (s : List ℕ) → is_digit c ≡ false → skip_digits n (c ∷ s) ≡ (n, c ∷ s)
unfolding skip_digits
digits_end n c s e = rw e refl

length-digits_loop :
    (fuel k : ℕ) (lower : Bool) (base n : ℕ)
    → (base ≡ 10) ⊎ (base ≡ 16)
    → n < 10 ^ k
    → length (digits_loop fuel lower base n) ≤ k
unfolding digits_loop
length-digits_loop zero k lower base n b h = omega arith
length-digits_loop (suc fuel) zero lower base n b h = ground arith
length-digits_loop (suc fuel) (suc k) lower base n b h =
    let less : n / base < 10 ^ k = elim b [
      | inl e ↦ rw e (omega arith)
      | inr e ↦ rw e (omega arith)
    ] in
    let rest = length-digits_loop fuel k lower base (n / base) b less in ground arith

-- The digits of an unsigned long in base 10 or 16 are at most 20, inside the 36 places of `tmp`.
pub length-tmp_of :
    (lower : Bool) (base n : ℕ)
    → (base ≡ 10) ⊎ (base ≡ 16)
    → n < 2 ^ 64
    → length (tmp_of lower base n) ≤ 20
unfolding tmp_of
length-tmp_of lower base n b h =
    let rest = length-digits_loop 64 20 lower base n b (omega arith) in ground arith

negative : (n : ℕ) → negsuc 0 -ℤ pos n ≡ negsuc n
unfolding ◌-ℤ◌
negative n = ground arith

layout-plain :
    (tmp : List ℕ) (c p : ℕ) → layout tmp [] 0 c (length tmp) (negsuc p) 0 ≡ write_back tmp
unfolding layout pad padded
layout-plain tmp c p =
    let no_zeros : length tmp - length tmp ≡ 0 = omega arith in
    rw (no_zeros, append-nil (write_back tmp)) refl

layout-sign_flag :
    (tmp : List ℕ) (c p : ℕ) → layout tmp [] 0 c (length tmp) (negsuc p) 2 ≡ write_back tmp
unfolding layout pad padded
layout-sign_flag tmp c p =
    let no_zeros : length tmp - length tmp ≡ 0 = omega arith in
    rw (no_zeros, append-nil (write_back tmp)) refl

-- What `%u` and `%d` write without a width or a precision.
pub number-plain :
    (n type : ℕ)
    → n < 2 ^ 64
    → (type ≡ 0) ⊎ (type ≡ sign_flag)
    → number n 10 (negsuc 0) (negsuc 0) type ≡ some (write_back (tmp_of false 10 n))
unfolding number no_zeros_left sign_of less_sign at_least prefix_of
number-plain n type h t =
    let few = length-tmp_of false 10 n (inl refl) h in
    let fits : ltb 36 (length (tmp_of false 10 n)) ≡ false = ground arith in
    elim t [
      | inl e ↦
          rw (e, fits, negative (length (tmp_of false 10 n)))
            (ap some (layout-plain (tmp_of false 10 n) 32 (length (tmp_of false 10 n))))
      | inr e ↦
          rw (e, fits, negative (length (tmp_of false 10 n)))
            (ap some (layout-sign_flag (tmp_of false 10 n) 32 (length (tmp_of false 10 n))))
    ]

pub int_of-pos : (n : ℕ) → n < 2 ^ 31 → int_of n ≡ pos n
unfolding int_of
int_of-pos n h = ground arith

-- With no flag, or with SIGN, and without a width or a precision, number writes a number below 2^31
-- in base 10 so that skip_atoi reads it back, up to the next character that is no digit.
pub skip_atoi-number :
    (n type c : ℕ) (s : List ℕ)
    → n < 2 ^ 31
    → (type ≡ 0) ⊎ (type ≡ sign_flag)
    → is_digit c ≡ false
    → (out : List ℕ) × (number n 10 (negsuc 0) (negsuc 0) type ≡ some out)
      × (skip_atoi (out ++ c ∷ s) ≡ (pos n, c ∷ s))
unfolding skip_atoi
skip_atoi-number n type c s h t e = (
  write_back (tmp_of false 10 n),
  number-plain n type (omega arith) t,
  rw (skip_digits-tmp_of false n (c ∷ s) h ∙ digits_end n c s e, int_of-pos n h) refl,
)
