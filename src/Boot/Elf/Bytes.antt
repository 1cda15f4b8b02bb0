-- ===== src/Boot/Elf/Bytes.antt =====
-- What `memcpy` and `memset` of boot/boot.c leave.
use vimos_minimal.Base.{
  ◌⊎◌, inl, inr, ℕ, zero, suc, ◌+◌, ◌-◌, ◌≤◌, ◌<◌, ◌≡◌, refl, ◌∙◌, arith, nat_cases, u8,
}
use vimos_minimal.Boot.Elf.{Bytes, put, memcpy, memset}

pub memcpy-outside :
    (n x y : ℕ) (m : Bytes) (a : ℕ) → (a < x) ⊎ (x + n ≤ a) → memcpy x y n m a ≡ m a
unfolding memcpy put
memcpy-outside zero x y m a o = refl
memcpy-outside (suc n) x y m a o =
    memcpy-outside n (x + 1) (y + 1) (put x (m y) m) a (omega arith) ∙ (ground arith)

-- The source is not overwritten.
pub memcpy-inside :
    (n x y : ℕ) (m : Bytes) (k : ℕ)
    → (x + n ≤ y) ⊎ (y + n ≤ x)
    → k < n
    → memcpy x y n m (x + k) ≡ m (y + k)
unfolding memcpy put
memcpy-inside zero x y m k apart h = absurd (omega arith)
memcpy-inside (suc n) x y m k apart h = elim (nat_cases k 0) [
  | inl less ↦ absurd (omega arith)
  | inr (inl e) ↦
      memcpy-outside n (x + 1) (y + 1) (put x (m y) m) (x + k) (omega arith) ∙ (rw e (ground arith))
  | inr (inr more) ↦
      let at_x : x + k ≡ x + 1 + (k - 1) = omega arith in
      let at_y : y + k ≡ y + 1 + (k - 1) = omega arith in
      rw (at_x, at_y)
        (memcpy-inside n (x + 1) (y + 1) (put x (m y) m) (k - 1) (omega arith) (omega arith)
          ∙ (ground arith))
]

pub memset-outside :
    (n s ch : ℕ) (m : Bytes) (a : ℕ) → (a < s) ⊎ (s + n ≤ a) → memset s ch n m a ≡ m a
unfolding memset put
memset-outside zero s ch m a o = refl
memset-outside (suc n) s ch m a o =
    memset-outside n (s + 1) ch (put s (u8 ch) m) a (omega arith) ∙ (ground arith)

pub memset-inside : (n s ch : ℕ) (m : Bytes) (a : ℕ) → s ≤ a → a < s + n → memset s ch n m a ≡ u8 ch
unfolding memset put
memset-inside zero s ch m a lo hi = absurd (omega arith)
memset-inside (suc n) s ch m a lo hi = elim (nat_cases s a) [
  | inl less ↦ memset-inside n (s + 1) ch (put s (u8 ch) m) a (omega arith) (omega arith)
  | inr (inl e) ↦
      memset-outside n (s + 1) ch (put s (u8 ch) m) a (omega arith) ∙ (rw e (ground arith))
  | inr (inr more) ↦ absurd (omega arith)
]
