-- ===== src/Graphics.antt =====
-- kernel/uefi_graphics.c: pixels and characters in the frame buffer. A coordinate is an `int`, and the
-- frame buffer is read and written at offsets from its first byte; a product of coordinates that
-- leaves the range of `int` is not modelled.
mod Tests
pub mod Font
pub mod Pixels
pub mod Glyphs
pub mod Clear
pub mod Scroll
use vimos_minimal.Base.{
  ◌⊎◌, ◌↔◌, inl, inr, ℕ, zero, suc, ◌+◌, ◌-◌, ◌*◌, ◌/◌, ◌%◌, ◌^◌, ◌≤◌, ◌<◌, min, max, bit_and,
  bit_or, bit_xor, ◌≡◌, refl, sym, ap, ◌∙◌, ◌≢◌, Bool, true, false, ◌&&◌, ◌||◌, not, Option, none,
  some, List, [], ◌∷◌, ◌++◌, map, arith, ltb, leb, ◌==◌, if◌then◌else◌, ltb→lt, lt→ltb, le→ltb,
  leb→le, ==_iff, ==_refl, Bool-cases, nat_cases, length, get_elem?, get_or, set, take, drop,
  replicate, length-append, length-replicate, length-set, get_or-set_self, get_or-set_ne,
  get_or-append_left, get_or-append_right, get_or-append_last, get_or-replicate, u8, u16, u32, u64,
  sub32, sub64,
}
use vimos_minimal.Base.Int.{ℤ, pos, pos_part, negsuc, ◌+ℤ◌, ◌-ℤ◌, ◌*ℤ◌, ltb_ℤ, ◌==ℤ◌}
use vimos_minimal.Graphics.Font.{font8x16}

-- The bytes from the frame buffer on, by their offset.
abbrev pub Frame : Type 0
Frame = ℤ → ℕ

unfoldable pub poke : ℤ → ℕ → Frame → Frame
poke o v m q = if q ==ℤ o then v else m q

-- What `putPixel` points to.
pub data PutPixel : Type 0 where
  rgb : PutPixel
  bgr : PutPixel

-- The variables of the module.
pub record Gop : Type 0 where
  pub width : ℤ
  pub height : ℤ
  pub pixels_per_scanline : ℤ
  pub frame_buffer : Frame
  pub format : PutPixel

-- `x >= width || y >= height`
abbrev pub is_off : ℤ → ℤ → Gop → Bool
is_off x y gop = not (ltb_ℤ x gop.width) || not (ltb_ℤ y gop.height)

abbrev pub offset : ℤ → ℤ → Gop → ℤ
offset x y gop = (y *ℤ gop.pixels_per_scanline +ℤ x) *ℤ pos 4

unfoldable pub put_pixel_rgb : ℤ → ℤ → ℕ → ℕ → ℕ → Gop → Gop
put_pixel_rgb x y r g b gop =
    let o = offset x y gop in
    if is_off x y gop then gop else record gop {
      frame_buffer =
          poke (o +ℤ pos 2) b (poke (o +ℤ pos 1) g (poke (o +ℤ pos 0) r gop.frame_buffer));
    }

unfoldable pub put_pixel_bgr : ℤ → ℤ → ℕ → ℕ → ℕ → Gop → Gop
put_pixel_bgr x y r g b gop =
    let o = offset x y gop in
    if is_off x y gop then gop else record gop {
      frame_buffer =
          poke (o +ℤ pos 2) r (poke (o +ℤ pos 1) g (poke (o +ℤ pos 0) b gop.frame_buffer));
    }

-- A call through the pointer.
unfoldable pub call : PutPixel → ℤ → ℤ → ℕ → ℕ → ℕ → Gop → Gop
call rgb x y r g b gop = put_pixel_rgb x y r g b gop
call bgr x y r g b gop = put_pixel_bgr x y r g b gop

abbrev pub put_pixel : ℤ → ℤ → ℕ → ℕ → ℕ → Gop → Gop
put_pixel x y r g b gop = call gop.format x y r g b gop

-- `if(f & mask) putPixel(x + k, y + i, r, g, b);`, with `y + i` as `row`.
unfoldable pub dot : ℕ → ℕ → ℕ → ℤ → ℤ → ℕ → ℕ → ℕ → Gop → Gop
dot f mask k x row r g b gop =
    if bit_and f mask == 0 then gop else put_pixel (x +ℤ pos k) row r g b gop

unfoldable pub put_row : ℕ → ℤ → ℤ → ℕ → ℕ → ℕ → Gop → Gop
put_row f x row r g b gop0 =
    let gop1 = dot f 0x80 0 x row r g b gop0 in
    let gop2 = dot f 0x40 1 x row r g b gop1 in
    let gop3 = dot f 0x20 2 x row r g b gop2 in
    let gop4 = dot f 0x10 3 x row r g b gop3 in
    let gop5 = dot f 0x8 4 x row r g b gop4 in
    let gop6 = dot f 0x4 5 x row r g b gop5 in
    let gop7 = dot f 0x2 6 x row r g b gop6 in dot f 0x1 7 x row r g b gop7

-- The loop of `put_char`, with `n` rounds left.
unfoldable pub put_rows : ℕ → ℕ → ℕ → ℤ → ℤ → ℕ → ℕ → ℕ → Gop → Gop
put_rows zero i c x y r g b gop = gop
put_rows (suc n) i c x y r g b gop =
    put_rows n (i + 1) c x y r g b
      (put_row (get_or font8x16 (c * 16 + i) 0) x (y +ℤ pos i) r g b gop)

unfoldable pub put_char : ℕ → ℤ → ℤ → ℕ → ℕ → ℕ → Gop → Gop
put_char c x y r g b gop = put_rows 16 0 (u8 c) x y r g b gop

-- The inner loop of `clear_screen`, with `n` rounds left.
unfoldable pub clear_line : ℕ → ℕ → ℕ → Gop → Gop
clear_line zero j i gop = gop
clear_line (suc n) j i gop = clear_line n (j + 1) i (put_pixel (pos j) (pos i) 0x00 0x00 0x00 gop)

-- The outer one. A loop up to a bound below 1 has no round.
unfoldable pub clear_lines : ℕ → ℕ → Gop → Gop
clear_lines zero i gop = gop
clear_lines (suc n) i gop = clear_lines n (i + 1) (clear_line (pos_part gop.width) 0 i gop)

unfoldable pub clear_screen : Gop → Gop
clear_screen gop = clear_lines (pos_part gop.height) 0 gop

-- `put_string` of the text at `s` in a memory; `none` means that the fuel ran out. The character behind
-- a line feed is drawn without a look at whether the text ends there.
unfoldable pub put_string : ℕ → (ℕ → ℕ) → ℕ → ℤ → ℤ → ℕ → ℕ → ℕ → Gop → Option Gop
put_string zero text s x y r g b gop = none
put_string (suc fuel) text s x0 y0 r g b gop0 =
    let feed = text s == 10 in
    let y = if feed then y0 +ℤ pos 16 else y0 in
    let x = if feed then pos 0 else x0 in
    let s' = if feed then s + 1 else s in
    let at_edge = x ==ℤ gop0.width in
    let gop = if at_edge then gop0 else put_char (text s') x y r g b gop0 in
    let x' = if at_edge then x else x +ℤ pos 8 in
    let rest = put_string fuel text (s' + 1) x' y r g b gop in
    if text s == 0 then some gop0 else rest

-- What `init_gop` reads of the mode and its information.
pub record Info : Type 0 where
  pub horizontal_resolution : ℤ
  pub vertical_resolution : ℤ
  pub line_pixels : ℤ
  pub pixel_format : ℕ
  pub frame_buffer_base : Frame

unfoldable pub init_gop : Info → Gop → Gop
init_gop info gop0 =
    let gop1 = record gop0 {
      width = info.horizontal_resolution;
      height = info.vertical_resolution;
      pixels_per_scanline = info.line_pixels;
      frame_buffer = info.frame_buffer_base;
    } in
    let gop2 = if info.pixel_format == 1 then record gop1 { format = bgr } else gop1 in
    clear_screen gop2
