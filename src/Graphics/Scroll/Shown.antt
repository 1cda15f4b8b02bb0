-- ===== src/Graphics/Scroll/Shown.antt =====
-- The pixels that `scroll_screen` of kernel/uefi_graphics.c leaves.
use vimos_minimal.Base.{
  inl, inr, ℕ, ◌+◌, ◌-◌, ◌*◌, ◌≤◌, ◌<◌, ◌≡◌, refl, ap, ◌∙◌, arith, ltb, ◌==◌, if◌then◌else◌,
  nat_cases,
}
use vimos_minimal.Base.Int.{ℤ, pos, ◌+ℤ◌, add-pos, mul-pos}
use vimos_minimal.Graphics.{Frame, PutPixel, rgb, bgr, offset}
use vimos_minimal.Graphics.Pixels.{colour_at, pixel, screen}
use vimos_minimal.Graphics.Scroll.{scroll_screen}
use vimos_minimal.Graphics.Scroll.Rows.{sub-pos, row_le, move_rows-at, clear_rows-at}

colour_at-same :
    (q : PutPixel) (m m' : Frame) (o o' : ℤ)
    → ((k : ℕ) → k < 3 → m' (o +ℤ pos k) ≡ m (o' +ℤ pos k))
    → colour_at q m' o ≡ colour_at q m o'
unfolding colour_at
colour_at-same rgb m m' o o' same =
    rw (same 0 (omega arith), same 1 (omega arith), same 2 (omega arith)) refl
colour_at-same bgr m m' o o' same =
    rw (same 0 (omega arith), same 1 (omega arith), same 2 (omega arith)) refl

colour_at-black :
    (q : PutPixel) (m : Frame) (o : ℤ)
    → ((k : ℕ) → k < 3 → m (o +ℤ pos k) ≡ 0)
    → colour_at q m o ≡ (0, 0, 0)
unfolding colour_at
colour_at-black rgb m o zero_at =
    rw (zero_at 0 (omega arith), zero_at 1 (omega arith), zero_at 2 (omega arith)) refl
colour_at-black bgr m o zero_at =
    rw (zero_at 0 (omega arith), zero_at 1 (omega arith), zero_at 2 (omega arith)) refl

module _ (w h p : ℕ) (q : PutPixel) (wide : 400 ≤ p) where
  place :
      (m : Frame) (a c k : ℕ)
      → offset (pos a) (pos c) (screen w h p q m) +ℤ pos k ≡ pos (c * p * 4 + (a * 4 + k))
  place m a c k =
      rw (mul-pos c p, add-pos (c * p) a, mul-pos (c * p + a) 4, add-pos ((c * p + a) * 4) k)
        (ap pos (omega arith))

  pixels-same :
      (m m' : Frame) (a c d : ℕ)
      → ((k : ℕ) → k < 3 → m' (pos (c * p * 4 + (a * 4 + k))) ≡ m (pos (d * p * 4 + (a * 4 + k))))
      → pixel (screen w h p q m') a c ≡ pixel (screen w h p q m) a d
  unfolding pixel
  pixels-same m m' a c d same =
      colour_at-same q m m' _ _ (λ k hk. rw (place m' a c k, place m a d k) (same k hk))

  pixels-black :
      (m : Frame) (a c : ℕ)
      → ((k : ℕ) → k < 3 → m (pos (c * p * 4 + (a * 4 + k))) ≡ 0)
      → pixel (screen w h p q m) a c ≡ (0, 0, 0)
  unfolding pixel
  pixels-black m a c zeros = colour_at-black q m _ (λ k hk. rw (place m a c k) (zeros k hk))

  -- On a screen of at least 16 lines, in scan lines of at least 400 pixels, after scroll_screen: above the
  -- last 16 lines, each of the first 400 pixels of a line has the colour of the one 16 lines below, and
  -- the others keep theirs; the first of the last 16 lines keeps its colours, and the first 6400 pixels
  -- of each of the other 15 are black.
  pub scroll_screen-pixel :
      (m : Frame) (a c : ℕ)
      → 16 ≤ h
      → a < p
      → a < 6400
      → c < h
      → pixel (scroll_screen (screen w h p q m)) a c ≡ (
          if ltb (c + 16) h
          then (if ltb a 400
              then pixel (screen w h p q m) a (c + 16)
              else pixel (screen w h p q m) a c)
          else if (c + 16) == h
          then pixel (screen w h p q m) a c
          else (0, 0, 0))
  unfolding scroll_screen
  scroll_screen-pixel m a c hi ha near hc =
      let (m1, e1, moved) = move_rows-at w h p q wide (h - 16) 0 m in
      let (m2, e2, kept, still, clean) = clear_rows-at w h p q wide 16 0 m1 (omega arith) hi in
      let run : scroll_screen (screen w h p q m) ≡ screen w h p q m2 =
        rw (sub-pos h 16 hi, e1) e2 in
      let stays : (k : ℕ)
          → c + 16 ≤ h
          → k < 3
          → m2 (pos (c * p * 4 + (a * 4 + k))) ≡ m1 (pos (c * p * 4 + (a * 4 + k))) =
        λ k low hk.
          let r = row_le p (c + 1) (h - 15) (omega arith) in
          kept (c * p * 4 + (a * 4 + k)) (omega arith) in
      rw run (elim (nat_cases (c + 16) h) [
        | inl above ↦ elim (nat_cases a 400) [
          | inl left ↦
              pixels-same m m2 a c (c + 16) (λ k hk.
                stays k (omega arith) hk ∙ moved c (a * 4 + k) (omega arith) ∙ (ground arith))
              ∙ (ground arith)
          | inr right ↦
              pixels-same m m2 a c c (λ k hk.
                stays k (omega arith) hk
                ∙ moved c (a * 4 + k) (omega arith)
                ∙ (ground (arith, right)))
              ∙ (ground (arith, right))
        ]
        | inr (inl e) ↦
            pixels-same m m2 a c c (λ k hk.
              stays k (omega arith) hk ∙ moved c (a * 4 + k) (omega arith) ∙ (ground arith))
            ∙ (ground arith)
        | inr (inr below) ↦
            let at_row : p * (h - (h - c)) * 4 ≡ c * p * 4 =
              let back : h - (h - c) ≡ c = omega arith in rw back (omega arith) in
            pixels-black m2 a c (λ k hk.
              rw at_row at (clean (h - c) (a * 4 + k) (omega arith) (omega arith) (omega arith)))
            ∙ (ground arith)
      ])
