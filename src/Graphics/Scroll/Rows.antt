-- ===== src/Graphics/Scroll/Rows.antt =====
-- The bytes of the lines that `scroll_screen` of kernel/uefi_graphics.c moves and clears.
use vimos_minimal.Base.{
  ◌⊎◌, inl, inr, ℕ, zero, suc, ◌+◌, ◌-◌, ◌*◌, ◌≤◌, ◌<◌, ◌≡◌, refl, sym, ◌∙◌, ◌&&◌, arith, ltb, leb,
  ◌==◌, if◌then◌else◌, nat_cases,
}
use vimos_minimal.Base.Int.{pos, ◌-ℤ◌, add-pos, mul-pos}
use vimos_minimal.Graphics.{Frame, poke, PutPixel}
use vimos_minimal.Graphics.Pixels.{screen, line_below}
use vimos_minimal.Graphics.Scroll.{copy_bytes, set_bytes, move_rows, clear_rows}

copy_bytes-outside :
    (n x y : ℕ) (m : Frame) (a : ℕ)
    → (a < x) ⊎ (x + n ≤ a)
    → copy_bytes (pos x) (pos y) n m (pos a) ≡ m (pos a)
unfolding copy_bytes poke
copy_bytes-outside zero x y m a o = refl
copy_bytes-outside (suc n) x y m a o =
    rw (add-pos x 1, add-pos y 1)
      (copy_bytes-outside n (x + 1) (y + 1) (poke (pos x) (m (pos y)) m) a (omega arith)
        ∙ (ground arith))

-- The bytes that are copied lie behind the place they go to.
copy_bytes-inside :
    (n x y k : ℕ) (m : Frame)
    → x + n ≤ y
    → k < n
    → copy_bytes (pos x) (pos y) n m (pos (x + k)) ≡ m (pos (y + k))
unfolding copy_bytes poke
copy_bytes-inside zero x y k m apart h = absurd (omega arith)
copy_bytes-inside (suc n) x y zero m apart h =
    let e : x + 0 ≡ x = omega arith in
    let e' : y + 0 ≡ y = omega arith in
    rw (add-pos x 1, add-pos y 1, e, e')
      (copy_bytes-outside n (x + 1) (y + 1) (poke (pos x) (m (pos y)) m) x (omega arith)
        ∙ (ground arith))
copy_bytes-inside (suc n) x y (suc k) m apart h =
    let e : x + suc k ≡ x + 1 + k = omega arith in
    let e' : y + suc k ≡ y + 1 + k = omega arith in
    rw (add-pos x 1, add-pos y 1, e, e')
      (copy_bytes-inside n (x + 1) (y + 1) k (poke (pos x) (m (pos y)) m) (omega arith)
          (omega arith)
        ∙ (ground arith))

set_bytes-at :
    (n x v : ℕ) (m : Frame) (a : ℕ)
    → set_bytes (pos x) v n m (pos a) ≡ (if leb x a && ltb a (x + n) then v else m (pos a))
unfolding set_bytes poke
set_bytes-at zero x v m a = ground arith
set_bytes-at (suc n) x v m a =
    rw (add-pos x 1) (set_bytes-at n (x + 1) v (poke (pos x) v m) a ∙ (ground arith))

pub sub-pos : (a b : ℕ) → b ≤ a → pos a -ℤ pos b ≡ pos (a - b)
unfolding ◌-ℤ◌
sub-pos a b h = ground arith

pub row_le : (p a b : ℕ) → a ≤ b → p * a ≤ p * b
row_le p a b h = elim (nat_cases a b) [
  | inl less ↦ let r = line_below p a b less in omega arith
  | inr (inl e) ↦ rw e (omega arith)
  | inr (inr more) ↦ absurd (omega arith)
]

module _ (w h p : ℕ) (q : PutPixel) (wide : 400 ≤ p) where
  copy_row-at :
      (i : ℕ) (m : Frame) (c k : ℕ)
      → k < p * 4
      → copy_bytes (pos (i * p * 4)) (pos ((i + 16) * p * 4)) 1600 m (pos (c * p * 4 + k))
        ≡ (if c == i && ltb k 1600 then m (pos ((c + 16) * p * 4 + k)) else m (pos (c * p * 4 + k)))
  copy_row-at i m c k hk = elim (nat_cases c i) [
    | inl less ↦
        let r = line_below p c i less in
        copy_bytes-outside 1600 (i * p * 4) ((i + 16) * p * 4) m (c * p * 4 + k) (omega arith)
        ∙ (ground arith)
    | inr (inl e) ↦
        let r = line_below p i (i + 16) (omega arith) in
        elim (nat_cases k 1600) [
          | inl near ↦ rw e (
              copy_bytes-inside 1600 (i * p * 4) ((i + 16) * p * 4) k m (omega arith) near
              ∙ (ground arith))
          | inr far ↦ rw e (
              copy_bytes-outside 1600 (i * p * 4) ((i + 16) * p * 4) m (i * p * 4 + k)
                (omega (arith, far))
              ∙ (ground (arith, far)))
        ]
    | inr (inr more) ↦
        let r = line_below p i c more in
        copy_bytes-outside 1600 (i * p * 4) ((i + 16) * p * 4) m (c * p * 4 + k) (omega arith)
        ∙ (ground arith)
  ]

  pub move_rows-at :
      (n i : ℕ) (m : Frame)
      → (m' : Frame) × (move_rows n i (screen w h p q m) ≡ screen w h p q m')
        × ((c k : ℕ)
            → k < p * 4
            → m' (pos (c * p * 4 + k)) ≡ (
                if leb i c && ltb c (i + n) && ltb k 1600
                then m (pos ((c + 16) * p * 4 + k))
                else m (pos (c * p * 4 + k))))
  unfolding move_rows
  move_rows-at zero i m = (m, refl, λ c k hk. ground arith)
  move_rows-at (suc n) i m =
      let m1 = copy_bytes (pos (i * p * 4)) (pos ((i + 16) * p * 4)) 1600 m in
      let (m', e, at_rest) = move_rows-at n (i + 1) m1 in
      (
        m',
        rw (mul-pos i p, mul-pos (i * p) 4, mul-pos (i + 16) p, mul-pos ((i + 16) * p) 4) e,
        λ c k hk.
            let here = copy_row-at i m c k hk in
            let below = copy_row-at i m (c + 16) k hk in
            at_rest c k hk ∙ (rw (here, below) (ground arith)),
      )

  pub clear_rows-at :
      (n i : ℕ) (m : Frame)
      → i + n ≤ 16
      → 16 ≤ h
      → (m' : Frame) × (clear_rows n i (screen w h p q m) ≡ screen w h p q m')
        × ((b : ℕ) → b < p * (h - 15) * 4 → m' (pos b) ≡ m (pos b))
        × ((b : ℕ) → m (pos b) ≡ 0 → m' (pos b) ≡ 0)
        × ((j k : ℕ) → i ≤ j → j < i + n → k < 25600 → m' (pos (p * (h - j) * 4 + k)) ≡ 0)
  unfolding clear_rows
  clear_rows-at zero i m lo hi =
      (m, refl, (λ b hb. refl), (λ b z. z), (λ j k a b c. absurd (omega arith)))
  clear_rows-at (suc n) i m lo hi =
      let start = p * (h - i) * 4 in
      let m1 = set_bytes (pos start) 0 25600 m in
      let (m', e, kept, still, clean) = clear_rows-at n (i + 1) m1 (omega arith) hi in
      (
        m',
        rw (sub-pos h i (omega arith), mul-pos p (h - i), mul-pos (p * (h - i)) 4) e,
        (λ b hb.
            kept b hb
            ∙ set_bytes-at 25600 start 0 m b
            ∙ (let r = row_le p (h - 15) (h - i) (omega arith) in ground arith)),
        (λ b z. still b (set_bytes-at 25600 start 0 m b ∙ ground arith)),
        (λ j k lo' hi' hk. elim (nat_cases i j) [
          | inl less ↦ clean j k (omega arith) (omega arith) hk
          | inr (inl same) ↦
              still (p * (h - j) * 4 + k) (
                set_bytes-at 25600 start 0 m (p * (h - j) * 4 + k) ∙ (rw (sym same) (ground arith)))
          | inr (inr more) ↦ absurd (omega arith)
        ]),
      )
