-- ===== src/Graphics/Font.antt =====
-- `font8x16` of kernel/font.c: 16 rows of 8 pixels for each of 256 characters.
pub mod Low
pub mod High
use vimos_minimal.Base.{ℕ, List, ◌++◌}
use vimos_minimal.Graphics.Font.Low.{
  glyphs_0, glyphs_1, glyphs_2, glyphs_3, glyphs_4, glyphs_5, glyphs_6, glyphs_7,
}
use vimos_minimal.Graphics.Font.High.{
  glyphs_8, glyphs_9, glyphs_a, glyphs_b, glyphs_c, glyphs_d, glyphs_e, glyphs_f,
}

unfoldable pub font8x16 : List ℕ
font8x16 =
    glyphs_0 ++ glyphs_1 ++ glyphs_2 ++ glyphs_3 ++ glyphs_4 ++ glyphs_5 ++ glyphs_6 ++ glyphs_7
    ++ glyphs_8 ++ glyphs_9 ++ glyphs_a ++ glyphs_b ++ glyphs_c ++ glyphs_d ++ glyphs_e ++ glyphs_f
