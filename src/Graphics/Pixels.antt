-- ===== src/Graphics/Pixels.antt =====
-- The pixels of the screen, as the calls of kernel/uefi_graphics.c leave them.
use vimos_minimal.Base.{
  inl, inr, ℕ, zero, suc, ◌+◌, ◌*◌, ◌≤◌, ◌<◌, ◌≡◌, refl, sym, Bool, true, false, ◌&&◌, arith, ltb,
  ◌==◌, if◌then◌else◌, Bool-cases, nat_cases,
}
use vimos_minimal.Base.Int.{ℤ, pos, ◌+ℤ◌, add-pos, mul-pos}
use vimos_minimal.Graphics.{
  Frame, poke, PutPixel, rgb, bgr, Gop, offset, put_pixel_rgb, put_pixel_bgr, call,
}

abbrev pub Colour : Type 0
Colour = ℕ × ℕ × ℕ

unfoldable pub colour_at : PutPixel → Frame → ℤ → Colour
colour_at rgb m o = (m (o +ℤ pos 0), m (o +ℤ pos 1), m (o +ℤ pos 2))
colour_at bgr m o = (m (o +ℤ pos 2), m (o +ℤ pos 1), m (o +ℤ pos 0))

-- The colour that the pixel in column x of line y has.
unfoldable pub pixel : Gop → ℕ → ℕ → Colour
pixel gop x y = colour_at gop.format gop.frame_buffer (offset (pos x) (pos y) gop)

pub line_below : (p y y' : ℕ) → y < y' → y * p + p ≤ y' * p
line_below p y zero h = absurd (omega arith)
line_below p y (suc y') h = elim (nat_cases y y') [
  | inl less ↦ let r = line_below p y y' less in grind arith
  | inr (inl e) ↦ rw e (grind arith)
  | inr (inr more) ↦ absurd (omega arith)
]

-- Two places in lines of p pixels are the same only where line and column are.
place-eq : (p x y x' y' : ℕ) → x < p → x' < p → (y * p + x) == (y' * p + x') ≡ (x == x' && y == y')
place-eq p x y x' y' h h' = elim (nat_cases y y') [
  | inl less ↦ let r = line_below p y y' less in ground arith
  | inr (inl e) ↦ rw e (ground arith)
  | inr (inr more) ↦ let r = line_below p y' y more in ground arith
]

paint-at :
    (a b v0 v1 v2 : ℕ) (m : Frame)
    → let m' =
        poke
          (pos (a * 4) +ℤ pos 2)
          v2
          (poke (pos (a * 4) +ℤ pos 1) v1 (poke (pos (a * 4) +ℤ pos 0) v0 m)) in
      (m' (pos (b * 4) +ℤ pos 0) ≡ (if b == a then v0 else m (pos (b * 4) +ℤ pos 0)))
      × (m' (pos (b * 4) +ℤ pos 1) ≡ (if b == a then v1 else m (pos (b * 4) +ℤ pos 1)))
      × (m' (pos (b * 4) +ℤ pos 2) ≡ (if b == a then v2 else m (pos (b * 4) +ℤ pos 2)))
unfolding poke ◌+ℤ◌
paint-at a b v0 v1 v2 m = (ground arith, ground arith, ground arith)

-- A screen of w times h pixels, in scan lines of p pixels.
abbrev pub screen : ℕ → ℕ → ℕ → PutPixel → Frame → Gop
screen w h p q m = record {
  width = pos w;
  height = pos h;
  pixels_per_scanline = pos p;
  frame_buffer = m;
  format = q;
}

abbrev painted : ℕ → ℕ → ℕ → ℕ → Frame → Frame
painted o v0 v1 v2 m =
    poke (pos (o * 4) +ℤ pos 2) v2
      (poke (pos (o * 4) +ℤ pos 1) v1 (poke (pos (o * 4) +ℤ pos 0) v0 m))

-- The bytes of a call go to the frame buffer where the place is on the screen.
put_pixel_rgb_lem :
    (q : PutPixel) (w h p : ℕ) (m : Frame) (x y r g b : ℕ)
    → put_pixel_rgb (pos x) (pos y) r g b (screen w h p q m)
      ≡ screen w h p q (if ltb x w && ltb y h then painted (y * p + x) r g b m else m)
unfolding put_pixel_rgb
put_pixel_rgb_lem q w h p m x y r g b = elim (Bool-cases (ltb x w && ltb y h)) [
  | inl on ↦ rw (mul-pos y p, add-pos (y * p) x, mul-pos (y * p + x) 4) (ground arith)
  | inr off ↦ rw off (ground arith)
]

put_pixel_bgr_lem :
    (q : PutPixel) (w h p : ℕ) (m : Frame) (x y r g b : ℕ)
    → put_pixel_bgr (pos x) (pos y) r g b (screen w h p q m)
      ≡ screen w h p q (if ltb x w && ltb y h then painted (y * p + x) b g r m else m)
unfolding put_pixel_bgr
put_pixel_bgr_lem q w h p m x y r g b = elim (Bool-cases (ltb x w && ltb y h)) [
  | inl on ↦ rw (mul-pos y p, add-pos (y * p) x, mul-pos (y * p + x) 4) (ground arith)
  | inr off ↦ rw off (ground arith)
]

if-triple :
    (q : Bool) (a b c d e f : ℕ)
    → let t : Colour = ((if q then a else d), (if q then b else e), (if q then c else f)) in
      t ≡ (if q then (a, b, c) else (d, e, f))
if-triple true a b c d e f = refl
if-triple false a b c d e f = refl

-- The bytes at a place of the screen, after the bytes of a call.
painted-at :
    (w h p : ℕ) (m : Frame) (x y v0 v1 v2 a c : ℕ)
    → w ≤ p
    → a < w
    → c < h
    → let m' = if ltb x w && ltb y h then painted (y * p + x) v0 v1 v2 m else m in
      let o = pos ((c * p + a) * 4) in
      let hit = a == x && c == y in
      (m' (o +ℤ pos 0) ≡ (if hit then v0 else m (o +ℤ pos 0)))
      × (m' (o +ℤ pos 1) ≡ (if hit then v1 else m (o +ℤ pos 1)))
      × (m' (o +ℤ pos 2) ≡ (if hit then v2 else m (o +ℤ pos 2)))
painted-at w h p m x y v0 v1 v2 a c f ha hc = elim (Bool-cases (ltb x w && ltb y h)) [
  | inl on ↦
      let within : x < w = ground arith in
      rw (on, sym (place-eq p a c x y (omega arith) (omega arith)))
        (paint-at (y * p + x) (c * p + a) v0 v1 v2 m)
  | inr off ↦
      let miss : (a == x && c == y) ≡ false = ground arith in rw (off, miss) (refl, refl, refl)
]

-- What a call through the pointer does to the pixels of a screen, in either format.
pub call-pixel :
    (q : PutPixel) (w h p : ℕ) (m : Frame) (x y r g b a c : ℕ)
    → w ≤ p
    → a < w
    → c < h
    → pixel (call q (pos x) (pos y) r g b (screen w h p q m)) a c
      ≡ (if a == x && c == y then (r, g, b) else pixel (screen w h p q m) a c)
unfolding call pixel colour_at
call-pixel rgb w h p m x y r g b a c f ha hc =
    let o = pos ((c * p + a) * 4) in
    let (e0, e1, e2) = painted-at w h p m x y r g b a c f ha hc in
    rw
      (
        put_pixel_rgb_lem rgb w h p m x y r g b,
        mul-pos c p,
        add-pos (c * p) a,
        mul-pos (c * p + a) 4,
      )
      (rw (e0, e1, e2)
        (if-triple (a == x && c == y) r g b (m (o +ℤ pos 0)) (m (o +ℤ pos 1)) (m (o +ℤ pos 2))))
call-pixel bgr w h p m x y r g b a c f ha hc =
    let o = pos ((c * p + a) * 4) in
    let (e0, e1, e2) = painted-at w h p m x y b g r a c f ha hc in
    rw
      (
        put_pixel_bgr_lem bgr w h p m x y r g b,
        mul-pos c p,
        add-pos (c * p) a,
        mul-pos (c * p + a) 4,
      )
      (rw (e0, e1, e2)
        (if-triple (a == x && c == y) r g b (m (o +ℤ pos 2)) (m (o +ℤ pos 1)) (m (o +ℤ pos 0))))

pub call-screen :
    (q : PutPixel) (w h p : ℕ) (m : Frame) (x y r g b : ℕ)
    → (m' : Frame) × (call q (pos x) (pos y) r g b (screen w h p q m) ≡ screen w h p q m')
unfolding call
call-screen rgb w h p m x y r g b = (_, put_pixel_rgb_lem rgb w h p m x y r g b)
call-screen bgr w h p m x y r g b = (_, put_pixel_bgr_lem bgr w h p m x y r g b)
