-- ===== src/Graphics/Clear.antt =====
-- The cleared screen of `clear_screen` and `init_gop` of kernel/uefi_graphics.c.
use vimos_minimal.Base.{
  inl, inr, ℕ, zero, suc, ◌+◌, ◌≤◌, ◌<◌, ◌≡◌, refl, ap, ◌∙◌, ◌&&◌, arith, ltb, leb, ◌==◌,
  if◌then◌else◌, Bool-cases,
}
use vimos_minimal.Base.Int.{pos, pos_part}
use vimos_minimal.Graphics.{
  Frame, PutPixel, rgb, bgr, Gop, Info, clear_line, clear_lines, clear_screen, init_gop,
}
use vimos_minimal.Graphics.Pixels.{Colour, pixel, screen}
use vimos_minimal.Graphics.Glyphs.{Shows, Shows-put_pixel, Shows-change}

abbrev black : Colour
black = (0, 0, 0)

module _ (w h p : ℕ) (q : PutPixel) (fits : w ≤ p) where
  Shows-clear_line :
      (n j i : ℕ) (pic : ℕ → ℕ → Colour) (gop : Gop)
      → Shows w h p q fits pic gop
      → Shows w h p q fits
          (λ a c. if c == i && leb j a && ltb a (j + n) then black else pic a c)
          (clear_line n j i gop)
  unfolding clear_line
  Shows-clear_line zero j i pic gop s =
      Shows-change w h p q fits pic _ gop (λ a c ha hc. ground arith) s
  Shows-clear_line (suc n) j i pic gop s =
      let one = Shows-put_pixel w h p q fits pic gop j i 0 0 0 s in
      let rest = Shows-clear_line n (j + 1) i _ _ one in
      Shows-change w h p q fits _ _ _ (λ a c ha hc. ground arith) rest

  Shows-clear_lines :
      (n i : ℕ) (pic : ℕ → ℕ → Colour) (gop : Gop)
      → Shows w h p q fits pic gop
      → Shows w h p q fits
          (λ a c. if leb i c && ltb c (i + n) then black else pic a c)
          (clear_lines n i gop)
  unfolding clear_lines
  Shows-clear_lines zero i pic gop s =
      Shows-change w h p q fits pic _ gop (λ a c ha hc. ground arith) s
  Shows-clear_lines (suc n) i pic gop s =
      let one = Shows-clear_line (pos_part gop.width) 0 i pic gop s in
      let all : pos_part gop.width ≡ w = ap (λ g. pos_part g.width) s.same in
      let rest = Shows-clear_lines n (i + 1) _ _ one in
      Shows-change w h p q fits _ _ _ (λ a c ha hc. rw all (ground arith)) rest

-- init_gop on a screen of w times h pixels, in scan lines no shorter than w, before which putPixel is
-- the function for red first: each pixel of the screen is black, the sizes are the firmware's, and
-- putPixel is the function for blue first where the firmware says so.
pub init_gop-pixel :
    (info : Info) (gop0 : Gop) (w h p a c : ℕ)
    → info.horizontal_resolution ≡ pos w
    → info.vertical_resolution ≡ pos h
    → info.line_pixels ≡ pos p
    → gop0.format ≡ rgb
    → w ≤ p
    → a < w
    → c < h
    → let gop = init_gop info gop0 in
      let q = if info.pixel_format == 1 then bgr else rgb in
      (pixel gop a c ≡ (0, 0, 0)) × ((m : Frame) × (gop ≡ screen w h p q m))
unfolding init_gop clear_screen
init_gop-pixel info gop0 w h p a c ew eh ep eq fits ha hc =
    let q = if info.pixel_format == 1 then bgr else rgb in
    let start : Shows w h p q fits (pixel (screen w h p q info.frame_buffer_base))
        (screen w h p q info.frame_buffer_base) =
      record { bytes = info.frame_buffer_base; same = refl; seen = λ a c ha hc. refl } in
    let cleared = Shows-clear_lines w h p q fits h 0 _ _ start in
    let gop1 = record gop0 {
      width = info.horizontal_resolution;
      height = info.vertical_resolution;
      pixels_per_scanline = info.line_pixels;
      frame_buffer = info.frame_buffer_base;
    } in
    let mode : (if info.pixel_format == 1 then record gop1 { format = bgr } else gop1)
        ≡ screen w h p q info.frame_buffer_base =
      elim (Bool-cases (info.pixel_format == 1)) [
        | inl blue ↦ rw (blue, ew, eh, ep) refl
        | inr red ↦ rw (red, ew, eh, ep, eq) refl
      ] in
    rw mode (cleared.seen a c ha hc ∙ (ground arith), (cleared.bytes, cleared.same))
