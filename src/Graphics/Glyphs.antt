-- ===== src/Graphics/Glyphs.antt =====
-- The pixels that `put_char` of kernel/uefi_graphics.c changes.
use vimos_minimal.Base.{
  inl, inr, ℕ, zero, suc, ◌+◌, ◌-◌, ◌*◌, ◌≤◌, ◌<◌, bit_and, ◌≡◌, refl, sym, ◌∙◌, Bool, false, ◌&&◌,
  not, arith, ltb, leb, ◌==◌, if◌then◌else◌, Bool-cases, nat_cases, get_or, u8,
}
use vimos_minimal.Base.Int.{pos, add-pos}
use vimos_minimal.Graphics.Font.{font8x16}
use vimos_minimal.Graphics.{Frame, PutPixel, Gop, call, dot, put_row, put_rows, put_char}
use vimos_minimal.Graphics.Pixels.{Colour, pixel, screen, call-pixel, call-screen}

abbrev pick : (b0 b1 b2 b3 b4 b5 b6 b7 : Bool) → ℕ → Bool
pick b0 b1 b2 b3 b4 b5 b6 b7 k =
    if k == 0
    then b0
    else if k == 1
    then b1
    else if k == 2
    then b2
    else if k == 3
    then b3
    else if k == 4
    then b4
    else if k == 5
    then b5
    else if k == 6
    then b6
    else if k == 7
    then b7
    else false

-- Bit 7 - k of a row of a glyph, which stands for its column k.
unfoldable pub is_lit : ℕ → ℕ → Bool
is_lit f k =
    pick (not (bit_and f 0x80 == 0)) (not (bit_and f 0x40 == 0)) (not (bit_and f 0x20 == 0))
      (not (bit_and f 0x10 == 0)) (not (bit_and f 0x8 == 0)) (not (bit_and f 0x4 == 0))
      (not (bit_and f 0x2 == 0)) (not (bit_and f 0x1 == 0)) k

-- A row of a glyph that begins in column x is lit in column a.
abbrev pub is_inked : ℕ → ℕ → ℕ → Bool
is_inked f x a = leb x a && is_lit f (a - x)

-- A line with the dots of the columns below n.
abbrev lit_below : (f n x row : ℕ) (u : Colour) → (ℕ → ℕ → Colour) → ℕ → ℕ → Colour
lit_below f n x row u pic a c =
    if c == row && leb x a && (ltb (a - x) n && is_lit f (a - x)) then u else pic a c

lit_below-dot :
    (f n x row : ℕ) (u : Colour) (pic : ℕ → ℕ → Colour) (a c : ℕ)
    → (if is_lit f n && (a == (x + n) && c == row) then u else lit_below f n x row u pic a c)
      ≡ lit_below f (n + 1) x row u pic a c
lit_below-dot f n x row u pic a c = elim (nat_cases a (x + n)) [
  | inl less ↦ ground arith
  | inr (inl e) ↦ let d : a - x ≡ n = omega arith in rw d (ground arith)
  | inr (inr more) ↦ ground arith
]

is_lit-wide : (f k : ℕ) → 8 ≤ k → is_lit f k ≡ false
unfolding is_lit
is_lit-wide f k h = ground arith

lit_below-all :
    (f x row : ℕ) (u : Colour) (pic : ℕ → ℕ → Colour) (a c : ℕ)
    → lit_below f 8 x row u pic a c ≡ (if c == row && is_inked f x a then u else pic a c)
lit_below-all f x row u pic a c = elim (nat_cases 8 (a - x)) [
  | inl wide ↦ rw (is_lit-wide f (a - x) (omega arith)) (ground arith)
  | inr (inl e) ↦ rw (is_lit-wide f (a - x) (omega arith)) (ground arith)
  | inr (inr near) ↦ ground arith
]

lines-next :
    (lit : ℕ → Bool) (c y i n : ℕ) (u v : Colour)
    → (if leb (y + (i + 1)) c && ltb c (y + (i + 1) + n) && lit (c - y)
        then u
        else if c == (y + i) && lit i
        then u
        else v)
      ≡ (if leb (y + i) c && ltb c (y + i + suc n) && lit (c - y) then u else v)
lines-next lit c y i n u v = elim (nat_cases c (y + i)) [
  | inl less ↦ ground arith
  | inr (inl e) ↦ let d : c - y ≡ i = omega arith in rw d (ground arith)
  | inr (inr more) ↦ ground arith
]

module _ (w h p : ℕ) (q : PutPixel) (fits : w ≤ p) where
  -- A screen that shows these colours.
  pub record Shows (pic : ℕ → ℕ → Colour) (gop : Gop) : Type 0 where
    pub bytes : Frame
    pub same : gop ≡ screen w h p q bytes
    pub seen : (a c : ℕ) → a < w → c < h → pixel gop a c ≡ pic a c

  pub Shows-put_pixel :
      (pic : ℕ → ℕ → Colour) (gop : Gop) (x y r g b : ℕ)
      → Shows pic gop
      → Shows
          (λ a c. if a == x && c == y then (r, g, b) else pic a c)
          (call gop.format (pos x) (pos y) r g b gop)
  Shows-put_pixel pic gop x y r g b s =
      let (m', e) = call-screen q w h p s.bytes x y r g b in
      record {
        bytes = m';
        same = rw s.same e;
        seen = λ a c ha hc.
            rw (sym (s.seen a c ha hc))
              (rw s.same (call-pixel q w h p s.bytes x y r g b a c fits ha hc));
      }

  pub Shows-change :
      (pic pic' : ℕ → ℕ → Colour) (gop : Gop)
      → ((a c : ℕ) → a < w → c < h → pic a c ≡ pic' a c)
      → Shows pic gop
      → Shows pic' gop
  Shows-change pic pic' gop e s = record {
    bytes = s.bytes;
    same = s.same;
    seen = λ a c ha hc. s.seen a c ha hc ∙ e a c ha hc;
  }

  Shows-dot :
      (pic : ℕ → ℕ → Colour) (gop : Gop) (f mask k x row r g b : ℕ)
      → Shows pic gop
      → Shows
          (λ a c.
            if not (bit_and f mask == 0) && (a == (x + k) && c == row) then (r, g, b) else pic a c)
          (dot f mask k (pos x) (pos row) r g b gop)
  unfolding dot
  Shows-dot pic gop f mask k x row r g b s = elim (Bool-cases (bit_and f mask == 0)) [
    | inl dark ↦ rw dark s
    | inr lit ↦ rw (lit, add-pos x k) (Shows-put_pixel pic gop (x + k) row r g b s)
  ]

  Shows-lit_below :
      (pic : ℕ → ℕ → Colour) (gop : Gop) (f mask n x row r g b : ℕ)
      → not (bit_and f mask == 0) ≡ is_lit f n
      → Shows (lit_below f n x row (r, g, b) pic) gop
      → Shows (lit_below f (n + 1) x row (r, g, b) pic) (dot f mask n (pos x) (pos row) r g b gop)
  Shows-lit_below pic gop f mask n x row r g b e s =
      Shows-change _ _ _ (λ a c ha hc. rw e (lit_below-dot f n x row (r, g, b) pic a c))
        (Shows-dot _ gop f mask n x row r g b s)

  Shows-put_row :
      (pic : ℕ → ℕ → Colour) (gop : Gop) (f x row r g b : ℕ)
      → Shows pic gop
      → Shows
          (λ a c. if c == row && is_inked f x a then (r, g, b) else pic a c)
          (put_row f (pos x) (pos row) r g b gop)
  unfolding put_row is_lit
  Shows-put_row pic gop f x row r g b s =
      let s0 =
        Shows-change pic (lit_below f 0 x row (r, g, b) pic) gop (λ a c ha hc. ground arith) s in
      let s1 = Shows-lit_below pic _ f 0x80 0 x row r g b refl s0 in
      let s2 = Shows-lit_below pic _ f 0x40 1 x row r g b refl s1 in
      let s3 = Shows-lit_below pic _ f 0x20 2 x row r g b refl s2 in
      let s4 = Shows-lit_below pic _ f 0x10 3 x row r g b refl s3 in
      let s5 = Shows-lit_below pic _ f 0x8 4 x row r g b refl s4 in
      let s6 = Shows-lit_below pic _ f 0x4 5 x row r g b refl s5 in
      let s7 = Shows-lit_below pic _ f 0x2 6 x row r g b refl s6 in
      let s8 = Shows-lit_below pic _ f 0x1 7 x row r g b refl s7 in
      Shows-change _ _ _ (λ a c ha hc. lit_below-all f x row (r, g, b) pic a c) s8

  Shows-put_rows :
      (n i ch : ℕ) (pic : ℕ → ℕ → Colour) (gop : Gop) (x y r g b : ℕ)
      → Shows pic gop
      → Shows
          (λ a c.
            if leb (y + i) c
              && ltb c (y + i + n)
              && is_inked (get_or font8x16 (ch * 16 + (c - y)) 0) x a
            then (r, g, b)
            else pic a c)
          (put_rows n i ch (pos x) (pos y) r g b gop)
  unfolding put_rows
  Shows-put_rows zero i ch pic gop x y r g b s =
      Shows-change pic _ gop (λ a c ha hc. ground arith) s
  Shows-put_rows (suc n) i ch pic gop x y r g b s =
      let f = get_or font8x16 (ch * 16 + i) 0 in
      let one = Shows-put_row pic gop f x (y + i) r g b s in
      let rest = Shows-put_rows n (i + 1) ch _ _ x y r g b one in
      rw (add-pos y i) (
        Shows-change _ _ _
          (λ a c ha hc.
            lines-next (λ k. is_inked (get_or font8x16 (ch * 16 + k) 0) x a) c y i n (r, g, b)
              (pic a c))
          rest)

  -- On a screen with scan lines no shorter than its width, put_char at a place that is not negative
  -- gives the colour to the pixels of the screen that are lit in the rows of the character's glyph,
  -- and to no other pixel of the screen, in both formats and also where the glyph does not fit.
  pub put_char-pixel :
      (m : Frame) (ch x y r g b a c : ℕ)
      → a < w
      → c < h
      → pixel (put_char ch (pos x) (pos y) r g b (screen w h p q m)) a c ≡ (
          if leb y c && ltb c (y + 16) && is_inked (get_or font8x16 (u8 ch * 16 + (c - y)) 0) x a
          then (r, g, b)
          else pixel (screen w h p q m) a c)
  unfolding put_char
  put_char-pixel m ch x y r g b a c ha hc =
      let start : Shows (pixel (screen w h p q m)) (screen w h p q m) = record {
        bytes = m;
        same = refl;
        seen = λ a c ha hc. refl;
      } in
      let done = Shows-put_rows 16 0 (u8 ch) _ _ x y r g b start in
      let e : y + 0 ≡ y = omega arith in rw e at (done.seen a c ha hc)
