-- ===== src/Graphics/Tests.antt =====
-- The graphics functions at concrete inputs.
use vimos_minimal.Base.{
  ℕ, ◌+◌, ◌-◌, ◌*◌, ◌≡◌, refl, true, ◌&&◌, none, arith, ltb, leb, ◌==◌, if◌then◌else◌, length,
  get_or, u8,
}
use vimos_minimal.Base.Int.{pos}
use vimos_minimal.Graphics.Font.{font8x16}
use vimos_minimal.Graphics.{Frame, rgb, bgr, Gop, Info, put_char, put_string, init_gop}
use vimos_minimal.Graphics.Pixels.{pixel, screen}
use vimos_minimal.Graphics.Glyphs.{put_char-pixel, is_inked, is_lit}
use vimos_minimal.Graphics.Clear.{init_gop-pixel}
use vimos_minimal.Graphics.Scroll.{scroll_screen}
use vimos_minimal.Graphics.Scroll.Shown.{scroll_screen-pixel}

abbrev dark : Frame
dark o = 0

-- The letter A, at the right edge of a screen of 12 times 20 pixels.
put_char-pixel_example :
    pixel (put_char 65 (pos 8) (pos 2) 1 2 3 (screen 12 20 16 bgr dark)) 11 4 ≡ (
      if leb 2 4 && ltb 4 (2 + 16) && is_inked (get_or font8x16 (u8 65 * 16 + (4 - 2)) 0) 8 11
      then (1, 2, 3)
      else pixel (screen 12 20 16 bgr dark) 11 4)
put_char-pixel_example =
    put_char-pixel 12 20 16 bgr (omega arith) dark 65 8 2 1 2 3 11 4 (omega arith) (omega arith)

-- That pixel is lit.
a_lit : is_inked (get_or font8x16 (65 * 16 + 2) 0) 8 11 ≡ true
unfolding font8x16 is_lit
a_lit = refl

font_size : length font8x16 ≡ 4096
unfolding font8x16
font_size = refl

abbrev info : Info
info = record {
  horizontal_resolution = pos 3;
  vertical_resolution = pos 2;
  line_pixels = pos 4;
  pixel_format = 1;
  frame_buffer_base = λ o. 7;
}

abbrev unset : Gop
unset = record {
  width = pos 0;
  height = pos 0;
  pixels_per_scanline = pos 0;
  frame_buffer = dark;
  format = rgb;
}

init_gop-pixel_example :
    (pixel (init_gop info unset) 2 1 ≡ (0, 0, 0))
    × ((m : Frame) × (init_gop info unset ≡ screen 3 2 4 bgr m))
init_gop-pixel_example =
    init_gop-pixel info unset 3 2 4 2 1 refl refl refl refl (omega arith) (omega arith)
      (omega arith)

scroll_screen-pixel_example : pixel (scroll_screen (screen 640 48 640 rgb dark)) 3 32 ≡ (
    if ltb (32 + 16) 48
    then (if ltb 3 400
        then pixel (screen 640 48 640 rgb dark) 3 (32 + 16)
        else pixel (screen 640 48 640 rgb dark) 3 32)
    else if (32 + 16) == 48
    then pixel (screen 640 48 640 rgb dark) 3 32
    else (0, 0, 0))
scroll_screen-pixel_example =
    scroll_screen-pixel 640 48 640 rgb (omega arith) dark 3 32 (omega arith) (omega arith)
      (omega arith) (omega arith)

-- A text of a line feed alone, with other bytes behind it: it has not ended after two rounds.
abbrev feed_alone : ℕ → ℕ
feed_alone a = if a == 0 then 10 else if a == 1 then 0 else 88

put_string_past : put_string 2 feed_alone 0 (pos 0) (pos 0) 1 1 1 unset ≡ none
unfolding put_string
put_string_past = refl
