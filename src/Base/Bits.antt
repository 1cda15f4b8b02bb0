-- ===== src/Base/Bits.antt =====
-- The bit operations at variables: disjoint fields joined by `|` are a sum, and `&` with a mask of
-- low bits is a remainder, at every width.
use Prim.Native.Nat.{digits, bitwise, bit_and-bitwise, bit_or-bitwise}
use native.Mathlib.Nat.{pow-suc, one-le-pow}
use vimos_minimal.Base.{
  ℕ, zero, suc, ◌+◌, ◌-◌, ◌*◌, ◌/◌, ◌%◌, ◌^◌, ◌≤◌, ◌<◌, min, max, bit_and, bit_or, ◌≡◌, refl, ap,
  arith,
}

-- `x << k` and `x >> k`, without the cast that cuts a word.
infixl 75 ◌<<<◌ ◌>>>◌
abbrev pub ◌<<<◌ : ℕ → ℕ → ℕ
x <<< k = x * 2 ^ k

abbrev pub ◌>>>◌ : ℕ → ℕ → ℕ
x >>> k = x / 2 ^ k

module _ (only : ℕ → ℕ) (both : ℕ → ℕ → ℕ) where
  -- More fuel than the first operand changes nothing.
  enough : (f g a b : ℕ) → a ≤ f → a ≤ g → digits only both f a b ≡ digits only both g a b
  enough zero zero a b p q = refl
  enough zero (suc g) zero b p q = refl
  enough zero (suc g) (suc a) b p q = absurd (omega arith)
  enough (suc f) zero zero b p q = refl
  enough (suc f) zero (suc a) b p q = absurd (omega arith)
  enough (suc f) (suc g) zero b p q = refl
  enough (suc f) (suc g) (suc a) b p q =
      rw (enough f g (suc a / 2) (b / 2) (omega arith) (omega arith))

  lowest :
      (a b : ℕ)
      → bitwise only both (suc a) b
        ≡ bitwise only both (suc a / 2) (b / 2) * 2 + both (suc a % 2) (b % 2)
  lowest a b = omega (arith, enough a (suc a / 2) (suc a / 2) (b / 2) (omega arith) (omega arith))

-- One binary digit at a time.
pub or_digit : (a b : ℕ) → bit_or a b ≡ bit_or (a / 2) (b / 2) * 2 + max (a % 2) (b % 2)
or_digit zero b = simp bit_or-bitwise (omega arith)
or_digit (suc a) b = simp bit_or-bitwise (lowest (λ y. y) max a b)

pub and_digit : (a b : ℕ) → bit_and a b ≡ bit_and (a / 2) (b / 2) * 2 + min (a % 2) (b % 2)
and_digit zero b = simp bit_and-bitwise (omega arith)
and_digit (suc a) b = simp bit_and-bitwise (lowest (λ y. 0) min a b)

or_zero_fuel : (f a : ℕ) → a ≤ f → bit_or a 0 ≡ a
or_zero_fuel f zero h = refl
or_zero_fuel zero (suc a) h = absurd (omega arith)
or_zero_fuel (suc f) (suc a) h =
    omega (arith, or_digit (suc a) 0, or_zero_fuel f (suc a / 2) (omega arith))

and_zero_fuel : (f a : ℕ) → a ≤ f → bit_and a 0 ≡ 0
and_zero_fuel f zero h = refl
and_zero_fuel zero (suc a) h = absurd (omega arith)
and_zero_fuel (suc f) (suc a) h =
    omega (arith, and_digit (suc a) 0, and_zero_fuel f (suc a / 2) (omega arith))

pub bit_or-zero : (a : ℕ) → bit_or a 0 ≡ a
bit_or-zero a = or_zero_fuel a a (omega arith)

pub bit_and-zero : (a : ℕ) → bit_and a 0 ≡ 0
bit_and-zero a = and_zero_fuel a a (omega arith)

times_pow_suc : (q k : ℕ) → q * 2 ^ suc k ≡ 2 * (q * 2 ^ k)
times_pow_suc q k = omega (arith, ap (λ (t : ℕ). q * t) (pow-suc 2 k))

-- Fields that do not overlap: `(q << k) | r` with `r` below `2 ^ k`.
pub bit_or_disjoint : (k q r : ℕ) → r < 2 ^ k → bit_or (q * 2 ^ k) r ≡ q * 2 ^ k + r
bit_or_disjoint zero q r h = ground (arith, bit_or-zero q)
bit_or_disjoint (suc k) q r h = ground (
  arith,
  or_digit (q * 2 ^ suc k) r,
  times_pow_suc q k,
  bit_or_disjoint k q (r / 2) (omega arith),
)

-- Low bits under high bits, written the other way round.
pub bit_and_low : (k q r : ℕ) → r < 2 ^ k → bit_and (q * 2 ^ k + r) (2 ^ k - 1) ≡ r
bit_and_low zero q r h = rw bit_and-zero (omega arith)
bit_and_low (suc k) q r h = ground (
  arith,
  and_digit (q * 2 ^ suc k + r) (2 ^ suc k - 1),
  times_pow_suc q k,
  pow-suc 2 k,
  bit_and_low k q (r / 2) (omega arith),
)

-- `a & (2 ^ k - 1)` is `a % 2 ^ k`.
pub bit_and_mask : (k a : ℕ) → bit_and a (2 ^ k - 1) ≡ a % 2 ^ k
bit_and_mask k a = ground (arith, one-le-pow k 2, bit_and_low k (a / 2 ^ k) (a % 2 ^ k))

or_comm_fuel : (f a b : ℕ) → a ≤ f → b ≤ f → bit_or a b ≡ bit_or b a
or_comm_fuel zero a b p q =
    let a0 : a ≡ 0 = omega arith in let b0 : b ≡ 0 = omega arith in rw (a0, b0)
or_comm_fuel (suc f) a b p q =
    omega (
      arith,
      or_digit a b,
      or_digit b a,
      or_comm_fuel f (a / 2) (b / 2) (omega arith) (omega arith),
    )

pub bit_or_comm : (a b : ℕ) → bit_or a b ≡ bit_or b a
bit_or_comm a b = or_comm_fuel (a + b) a b (omega arith) (omega arith)
