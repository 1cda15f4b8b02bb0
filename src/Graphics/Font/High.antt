-- ===== src/Graphics/Font/High.antt =====
-- The glyphs of the characters 128 to 255 in `font8x16` of kernel/font.c, 16 to a list.
use vimos_minimal.Base.{ℕ, List, [], ◌∷◌}

abbrev pub glyphs_8 : List ℕ
glyphs_8 =
    0x00 ∷ 0x00 ∷ 0x3c ∷ 0x66 ∷ 0xc2 ∷ 0xc0 ∷ 0xc0 ∷ 0xc0 ∷ 0xc2 ∷ 0x66 ∷ 0x3c ∷ 0x0c ∷ 0x06 ∷ 0x7c
    ∷ 0x00 ∷ 0x00 ∷ 0x00 ∷ 0x00 ∷ 0xcc ∷ 0xcc ∷ 0x00 ∷ 0xcc ∷ 0xcc ∷ 0xcc ∷ 0xcc ∷ 0xcc ∷ 0xcc
    ∷ 0x76 ∷ 0x00 ∷ 0x00 ∷ 0x00 ∷ 0x00 ∷ 0x00 ∷ 0x0c ∷ 0x18 ∷ 0x30 ∷ 0x00 ∷ 0x7c ∷ 0xc6 ∷ 0xfe
    ∷ 0xc0 ∷ 0xc0 ∷ 0xc6 ∷ 0x7c ∷ 0x00 ∷ 0x00 ∷ 0x00 ∷ 0x00 ∷ 0x00 ∷ 0x10 ∷ 0x38 ∷ 0x6c ∷ 0x00
    ∷ 0x78 ∷ 0x0c ∷ 0x7c ∷ 0xcc ∷ 0xcc ∷ 0xcc ∷ 0x76 ∷ 0x00 ∷ 0x00 ∷ 0x00 ∷ 0x00 ∷ 0x00 ∷ 0x00
    ∷ 0xcc ∷ 0xcc ∷ 0x00 ∷ 0x78 ∷ 0x0c ∷ 0x7c ∷ 0xcc ∷ 0xcc ∷ 0xcc ∷ 0x76 ∷ 0x00 ∷ 0x00 ∷ 0x00
    ∷ 0x00 ∷ 0x00 ∷ 0x60 ∷ 0x30 ∷ 0x18 ∷ 0x00 ∷ 0x78 ∷ 0x0c ∷ 0x7c ∷ 0xcc ∷ 0xcc ∷ 0xcc ∷ 0x76
    ∷ 0x00 ∷ 0x00 ∷ 0x00 ∷ 0x00 ∷ 0x00 ∷ 0x38 ∷ 0x6c ∷ 0x38 ∷ 0x00 ∷ 0x78 ∷ 0x0c ∷ 0x7c ∷ 0xcc
    ∷ 0xcc ∷ 0xcc ∷ 0x76 ∷ 0x00 ∷ 0x00 ∷ 0x00 ∷ 0x00 ∷ 0x00 ∷ 0x00 ∷ 0x00 ∷ 0x00 ∷ 0x3c ∷ 0x66
    ∷ 0x60 ∷ 0x60 ∷ 0x66 ∷ 0x3c ∷ 0x0c ∷ 0x06 ∷ 0x3c ∷ 0x00 ∷ 0x00 ∷ 0x00 ∷ 0x00 ∷ 0x10 ∷ 0x38
    ∷ 0x6c ∷ 0x00 ∷ 0x7c ∷ 0xc6 ∷ 0xfe ∷ 0xc0 ∷ 0xc0 ∷ 0xc6 ∷ 0x7c ∷ 0x00 ∷ 0x00 ∷ 0x00 ∷ 0x00
    ∷ 0x00 ∷ 0x00 ∷ 0xc6 ∷ 0xc6 ∷ 0x00 ∷ 0x7c ∷ 0xc6 ∷ 0xfe ∷ 0xc0 ∷ 0xc0 ∷ 0xc6 ∷ 0x7c ∷ 0x00
    ∷ 0x00 ∷ 0x00 ∷ 0x00 ∷ 0x00 ∷ 0x60 ∷ 0x30 ∷ 0x18 ∷ 0x00 ∷ 0x7c ∷ 0xc6 ∷ 0xfe ∷ 0xc0 ∷ 0xc0
    ∷ 0xc6 ∷ 0x7c ∷ 0x00 ∷ 0x00 ∷ 0x00 ∷ 0x00 ∷ 0x00 ∷ 0x00 ∷ 0x66 ∷ 0x66 ∷ 0x00 ∷ 0x38 ∷ 0x18
    ∷ 0x18 ∷ 0x18 ∷ 0x18 ∷ 0x18 ∷ 0x3c ∷ 0x00 ∷ 0x00 ∷ 0x00 ∷ 0x00 ∷ 0x00 ∷ 0x18 ∷ 0x3c ∷ 0x66
    ∷ 0x00 ∷ 0x38 ∷ 0x18 ∷ 0x18 ∷ 0x18 ∷ 0x18 ∷ 0x18 ∷ 0x3c ∷ 0x00 ∷ 0x00 ∷ 0x00 ∷ 0x00 ∷ 0x00
    ∷ 0x60 ∷ 0x30 ∷ 0x18 ∷ 0x00 ∷ 0x38 ∷ 0x18 ∷ 0x18 ∷ 0x18 ∷ 0x18 ∷ 0x18 ∷ 0x3c ∷ 0x00 ∷ 0x00
    ∷ 0x00 ∷ 0x00 ∷ 0x00 ∷ 0xc6 ∷ 0xc6 ∷ 0x10 ∷ 0x38 ∷ 0x6c ∷ 0xc6 ∷ 0xc6 ∷ 0xfe ∷ 0xc6 ∷ 0xc6
    ∷ 0xc6 ∷ 0x00 ∷ 0x00 ∷ 0x00 ∷ 0x00 ∷ 0x38 ∷ 0x6c ∷ 0x38 ∷ 0x00 ∷ 0x38 ∷ 0x6c ∷ 0xc6 ∷ 0xc6
    ∷ 0xfe ∷ 0xc6 ∷ 0xc6 ∷ 0xc6 ∷ 0x00 ∷ 0x00 ∷ 0x00 ∷ 0x00 ∷ []

abbrev pub glyphs_9 : List ℕ
glyphs_9 =
    0x18 ∷ 0x30 ∷ 0x60 ∷ 0x00 ∷ 0xfe ∷ 0x66 ∷ 0x60 ∷ 0x7c ∷ 0x60 ∷ 0x60 ∷ 0x66 ∷ 0xfe ∷ 0x00 ∷ 0x00
    ∷ 0x00 ∷ 0x00 ∷ 0x00 ∷ 0x00 ∷ 0x00 ∷ 0x00 ∷ 0x00 ∷ 0xcc ∷ 0x76 ∷ 0x36 ∷ 0x7e ∷ 0xd8 ∷ 0xd8
    ∷ 0x6e ∷ 0x00 ∷ 0x00 ∷ 0x00 ∷ 0x00 ∷ 0x00 ∷ 0x00 ∷ 0x3e ∷ 0x6c ∷ 0xcc ∷ 0xcc ∷ 0xfe ∷ 0xcc
    ∷ 0xcc ∷ 0xcc ∷ 0xcc ∷ 0xce ∷ 0x00 ∷ 0x00 ∷ 0x00 ∷ 0x00 ∷ 0x00 ∷ 0x10 ∷ 0x38 ∷ 0x6c ∷ 0x00
    ∷ 0x7c ∷ 0xc6 ∷ 0xc6 ∷ 0xc6 ∷ 0xc6 ∷ 0xc6 ∷ 0x7c ∷ 0x00 ∷ 0x00 ∷ 0x00 ∷ 0x00 ∷ 0x00 ∷ 0x00
    ∷ 0xc6 ∷ 0xc6 ∷ 0x00 ∷ 0x7c ∷ 0xc6 ∷ 0xc6 ∷ 0xc6 ∷ 0xc6 ∷ 0xc6 ∷ 0x7c ∷ 0x00 ∷ 0x00 ∷ 0x00
    ∷ 0x00 ∷ 0x00 ∷ 0x60 ∷ 0x30 ∷ 0x18 ∷ 0x00 ∷ 0x7c ∷ 0xc6 ∷ 0xc6 ∷ 0xc6 ∷ 0xc6 ∷ 0xc6 ∷ 0x7c
    ∷ 0x00 ∷ 0x00 ∷ 0x00 ∷ 0x00 ∷ 0x00 ∷ 0x30 ∷ 0x78 ∷ 0xcc ∷ 0x00 ∷ 0xcc ∷ 0xcc ∷ 0xcc ∷ 0xcc
    ∷ 0xcc ∷ 0xcc ∷ 0x76 ∷ 0x00 ∷ 0x00 ∷ 0x00 ∷ 0x00 ∷ 0x00 ∷ 0x60 ∷ 0x30 ∷ 0x18 ∷ 0x00 ∷ 0xcc
    ∷ 0xcc ∷ 0xcc ∷ 0xcc ∷ 0xcc ∷ 0xcc ∷ 0x76 ∷ 0x00 ∷ 0x00 ∷ 0x00 ∷ 0x00 ∷ 0x00 ∷ 0x00 ∷ 0xc6
    ∷ 0xc6 ∷ 0x00 ∷ 0xc6 ∷ 0xc6 ∷ 0xc6 ∷ 0xc6 ∷ 0xc6 ∷ 0xc6 ∷ 0x7e ∷ 0x06 ∷ 0x0c ∷ 0x78 ∷ 0x00
    ∷ 0x00 ∷ 0xc6 ∷ 0xc6 ∷ 0x00 ∷ 0x38 ∷ 0x6c ∷ 0xc6 ∷ 0xc6 ∷ 0xc6 ∷ 0xc6 ∷ 0x6c ∷ 0x38 ∷ 0x00
    ∷ 0x00 ∷ 0x00 ∷ 0x00 ∷ 0x00 ∷ 0xc6 ∷ 0xc6 ∷ 0x00 ∷ 0xc6 ∷ 0xc6 ∷ 0xc6 ∷ 0xc6 ∷ 0xc6 ∷ 0xc6
    ∷ 0xc6 ∷ 0x7c ∷ 0x00 ∷ 0x00 ∷ 0x00 ∷ 0x00 ∷ 0x00 ∷ 0x18 ∷ 0x18 ∷ 0x3c ∷ 0x66 ∷ 0x60 ∷ 0x60
    ∷ 0x60 ∷ 0x66 ∷ 0x3c ∷ 0x18 ∷ 0x18 ∷ 0x00 ∷ 0x00 ∷ 0x00 ∷ 0x00 ∷ 0x00 ∷ 0x38 ∷ 0x6c ∷ 0x64
    ∷ 0x60 ∷ 0xf0 ∷ 0x60 ∷ 0x60 ∷ 0x60 ∷ 0x60 ∷ 0xe6 ∷ 0xfc ∷ 0x00 ∷ 0x00 ∷ 0x00 ∷ 0x00 ∷ 0x00
    ∷ 0x00 ∷ 0x66 ∷ 0x66 ∷ 0x3c ∷ 0x18 ∷ 0x7e ∷ 0x18 ∷ 0x7e ∷ 0x18 ∷ 0x18 ∷ 0x18 ∷ 0x00 ∷ 0x00
    ∷ 0x00 ∷ 0x00 ∷ 0x00 ∷ 0xf8 ∷ 0xcc ∷ 0xcc ∷ 0xf8 ∷ 0xc4 ∷ 0xcc ∷ 0xde ∷ 0xcc ∷ 0xcc ∷ 0xcc
    ∷ 0xc6 ∷ 0x00 ∷ 0x00 ∷ 0x00 ∷ 0x00 ∷ 0x00 ∷ 0x0e ∷ 0x1b ∷ 0x18 ∷ 0x18 ∷ 0x18 ∷ 0x7e ∷ 0x18
    ∷ 0x18 ∷ 0x18 ∷ 0x18 ∷ 0x18 ∷ 0xd8 ∷ 0x70 ∷ 0x00 ∷ 0x00 ∷ []

abbrev pub glyphs_a : List ℕ
glyphs_a =
    0x00 ∷ 0x18 ∷ 0x30 ∷ 0x60 ∷ 0x00 ∷ 0x78 ∷ 0x0c ∷ 0x7c ∷ 0xcc ∷ 0xcc ∷ 0xcc ∷ 0x76 ∷ 0x00 ∷ 0x00
    ∷ 0x00 ∷ 0x00 ∷ 0x00 ∷ 0x0c ∷ 0x18 ∷ 0x30 ∷ 0x00 ∷ 0x38 ∷ 0x18 ∷ 0x18 ∷ 0x18 ∷ 0x18 ∷ 0x18
    ∷ 0x3c ∷ 0x00 ∷ 0x00 ∷ 0x00 ∷ 0x00 ∷ 0x00 ∷ 0x18 ∷ 0x30 ∷ 0x60 ∷ 0x00 ∷ 0x7c ∷ 0xc6 ∷ 0xc6
    ∷ 0xc6 ∷ 0xc6 ∷ 0xc6 ∷ 0x7c ∷ 0x00 ∷ 0x00 ∷ 0x00 ∷ 0x00 ∷ 0x00 ∷ 0x18 ∷ 0x30 ∷ 0x60 ∷ 0x00
    ∷ 0xcc ∷ 0xcc ∷ 0xcc ∷ 0xcc ∷ 0xcc ∷ 0xcc ∷ 0x76 ∷ 0x00 ∷ 0x00 ∷ 0x00 ∷ 0x00 ∷ 0x00 ∷ 0x00
    ∷ 0x76 ∷ 0xdc ∷ 0x00 ∷ 0xdc ∷ 0x66 ∷ 0x66 ∷ 0x66 ∷ 0x66 ∷ 0x66 ∷ 0x66 ∷ 0x00 ∷ 0x00 ∷ 0x00
    ∷ 0x00 ∷ 0x76 ∷ 0xdc ∷ 0x00 ∷ 0xc6 ∷ 0xe6 ∷ 0xf6 ∷ 0xfe ∷ 0xde ∷ 0xce ∷ 0xc6 ∷ 0xc6 ∷ 0xc6
    ∷ 0x00 ∷ 0x00 ∷ 0x00 ∷ 0x00 ∷ 0x00 ∷ 0x3c ∷ 0x6c ∷ 0x6c ∷ 0x3e ∷ 0x00 ∷ 0x7e ∷ 0x00 ∷ 0x00
    ∷ 0x00 ∷ 0x00 ∷ 0x00 ∷ 0x00 ∷ 0x00 ∷ 0x00 ∷ 0x00 ∷ 0x00 ∷ 0x38 ∷ 0x6c ∷ 0x6c ∷ 0x38 ∷ 0x00
    ∷ 0x7c ∷ 0x00 ∷ 0x00 ∷ 0x00 ∷ 0x00 ∷ 0x00 ∷ 0x00 ∷ 0x00 ∷ 0x00 ∷ 0x00 ∷ 0x00 ∷ 0x00 ∷ 0x30
    ∷ 0x30 ∷ 0x00 ∷ 0x30 ∷ 0x30 ∷ 0x60 ∷ 0xc0 ∷ 0xc6 ∷ 0xc6 ∷ 0x7c ∷ 0x00 ∷ 0x00 ∷ 0x00 ∷ 0x00
    ∷ 0x00 ∷ 0x00 ∷ 0x00 ∷ 0x00 ∷ 0x00 ∷ 0x00 ∷ 0xfe ∷ 0xc0 ∷ 0xc0 ∷ 0xc0 ∷ 0xc0 ∷ 0x00 ∷ 0x00
    ∷ 0x00 ∷ 0x00 ∷ 0x00 ∷ 0x00 ∷ 0x00 ∷ 0x00 ∷ 0x00 ∷ 0x00 ∷ 0x00 ∷ 0xfe ∷ 0x06 ∷ 0x06 ∷ 0x06
    ∷ 0x06 ∷ 0x00 ∷ 0x00 ∷ 0x00 ∷ 0x00 ∷ 0x00 ∷ 0x00 ∷ 0xc0 ∷ 0xc0 ∷ 0xc2 ∷ 0xc6 ∷ 0xcc ∷ 0x18
    ∷ 0x30 ∷ 0x60 ∷ 0xce ∷ 0x93 ∷ 0x06 ∷ 0x0c ∷ 0x1f ∷ 0x00 ∷ 0x00 ∷ 0x00 ∷ 0xc0 ∷ 0xc0 ∷ 0xc2
    ∷ 0xc6 ∷ 0xcc ∷ 0x18 ∷ 0x30 ∷ 0x66 ∷ 0xce ∷ 0x9a ∷ 0x3f ∷ 0x06 ∷ 0x0f ∷ 0x00 ∷ 0x00 ∷ 0x00
    ∷ 0x00 ∷ 0x18 ∷ 0x18 ∷ 0x00 ∷ 0x18 ∷ 0x18 ∷ 0x18 ∷ 0x3c ∷ 0x3c ∷ 0x3c ∷ 0x18 ∷ 0x00 ∷ 0x00
    ∷ 0x00 ∷ 0x00 ∷ 0x00 ∷ 0x00 ∷ 0x00 ∷ 0x00 ∷ 0x00 ∷ 0x33 ∷ 0x66 ∷ 0xcc ∷ 0x66 ∷ 0x33 ∷ 0x00
    ∷ 0x00 ∷ 0x00 ∷ 0x00 ∷ 0x00 ∷ 0x00 ∷ 0x00 ∷ 0x00 ∷ 0x00 ∷ 0x00 ∷ 0x00 ∷ 0xcc ∷ 0x66 ∷ 0x33
    ∷ 0x66 ∷ 0xcc ∷ 0x00 ∷ 0x00 ∷ 0x00 ∷ 0x00 ∷ 0x00 ∷ 0x00 ∷ []

abbrev pub glyphs_b : List ℕ
glyphs_b =
    0x11 ∷ 0x44 ∷ 0x11 ∷ 0x44 ∷ 0x11 ∷ 0x44 ∷ 0x11 ∷ 0x44 ∷ 0x11 ∷ 0x44 ∷ 0x11 ∷ 0x44 ∷ 0x11 ∷ 0x44
    ∷ 0x11 ∷ 0x44 ∷ 0x55 ∷ 0xaa ∷ 0x55 ∷ 0xaa ∷ 0x55 ∷ 0xaa ∷ 0x55 ∷ 0xaa ∷ 0x55 ∷ 0xaa ∷ 0x55
    ∷ 0xaa ∷ 0x55 ∷ 0xaa ∷ 0x55 ∷ 0xaa ∷ 0xdd ∷ 0x77 ∷ 0xdd ∷ 0x77 ∷ 0xdd ∷ 0x77 ∷ 0xdd ∷ 0x77
    ∷ 0xdd ∷ 0x77 ∷ 0xdd ∷ 0x77 ∷ 0xdd ∷ 0x77 ∷ 0xdd ∷ 0x77 ∷ 0x18 ∷ 0x18 ∷ 0x18 ∷ 0x18 ∷ 0x18
    ∷ 0x18 ∷ 0x18 ∷ 0x18 ∷ 0x18 ∷ 0x18 ∷ 0x18 ∷ 0x18 ∷ 0x18 ∷ 0x18 ∷ 0x18 ∷ 0x18 ∷ 0x18 ∷ 0x18
    ∷ 0x18 ∷ 0x18 ∷ 0x18 ∷ 0x18 ∷ 0x18 ∷ 0xf8 ∷ 0x18 ∷ 0x18 ∷ 0x18 ∷ 0x18 ∷ 0x18 ∷ 0x18 ∷ 0x18
    ∷ 0x18 ∷ 0x18 ∷ 0x18 ∷ 0x18 ∷ 0x18 ∷ 0x18 ∷ 0xf8 ∷ 0x18 ∷ 0xf8 ∷ 0x18 ∷ 0x18 ∷ 0x18 ∷ 0x18
    ∷ 0x18 ∷ 0x18 ∷ 0x18 ∷ 0x18 ∷ 0x36 ∷ 0x36 ∷ 0x36 ∷ 0x36 ∷ 0x36 ∷ 0x36 ∷ 0x36 ∷ 0xf6 ∷ 0x36
    ∷ 0x36 ∷ 0x36 ∷ 0x36 ∷ 0x36 ∷ 0x36 ∷ 0x36 ∷ 0x36 ∷ 0x00 ∷ 0x00 ∷ 0x00 ∷ 0x00 ∷ 0x00 ∷ 0x00
    ∷ 0x00 ∷ 0xfe ∷ 0x36 ∷ 0x36 ∷ 0x36 ∷ 0x36 ∷ 0x36 ∷ 0x36 ∷ 0x36 ∷ 0x36 ∷ 0x00 ∷ 0x00 ∷ 0x00
    ∷ 0x00 ∷ 0x00 ∷ 0xf8 ∷ 0x18 ∷ 0xf8 ∷ 0x18 ∷ 0x18 ∷ 0x18 ∷ 0x18 ∷ 0x18 ∷ 0x18 ∷ 0x18 ∷ 0x18
    ∷ 0x36 ∷ 0x36 ∷ 0x36 ∷ 0x36 ∷ 0x36 ∷ 0xf6 ∷ 0x06 ∷ 0xf6 ∷ 0x36 ∷ 0x36 ∷ 0x36 ∷ 0x36 ∷ 0x36
    ∷ 0x36 ∷ 0x36 ∷ 0x36 ∷ 0x36 ∷ 0x36 ∷ 0x36 ∷ 0x36 ∷ 0x36 ∷ 0x36 ∷ 0x36 ∷ 0x36 ∷ 0x36 ∷ 0x36
    ∷ 0x36 ∷ 0x36 ∷ 0x36 ∷ 0x36 ∷ 0x36 ∷ 0x36 ∷ 0x00 ∷ 0x00 ∷ 0x00 ∷ 0x00 ∷ 0x00 ∷ 0xfe ∷ 0x06
    ∷ 0xf6 ∷ 0x36 ∷ 0x36 ∷ 0x36 ∷ 0x36 ∷ 0x36 ∷ 0x36 ∷ 0x36 ∷ 0x36 ∷ 0x36 ∷ 0x36 ∷ 0x36 ∷ 0x36
    ∷ 0x36 ∷ 0xf6 ∷ 0x06 ∷ 0xfe ∷ 0x00 ∷ 0x00 ∷ 0x00 ∷ 0x00 ∷ 0x00 ∷ 0x00 ∷ 0x00 ∷ 0x00 ∷ 0x36
    ∷ 0x36 ∷ 0x36 ∷ 0x36 ∷ 0x36 ∷ 0x36 ∷ 0x36 ∷ 0xfe ∷ 0x00 ∷ 0x00 ∷ 0x00 ∷ 0x00 ∷ 0x00 ∷ 0x00
    ∷ 0x00 ∷ 0x00 ∷ 0x18 ∷ 0x18 ∷ 0x18 ∷ 0x18 ∷ 0x18 ∷ 0xf8 ∷ 0x18 ∷ 0xf8 ∷ 0x00 ∷ 0x00 ∷ 0x00
    ∷ 0x00 ∷ 0x00 ∷ 0x00 ∷ 0x00 ∷ 0x00 ∷ 0x00 ∷ 0x00 ∷ 0x00 ∷ 0x00 ∷ 0x00 ∷ 0x00 ∷ 0x00 ∷ 0xf8
    ∷ 0x18 ∷ 0x18 ∷ 0x18 ∷ 0x18 ∷ 0x18 ∷ 0x18 ∷ 0x18 ∷ 0x18 ∷ []

abbrev pub glyphs_c : List ℕ
glyphs_c =
    0x18 ∷ 0x18 ∷ 0x18 ∷ 0x18 ∷ 0x18 ∷ 0x18 ∷ 0x18 ∷ 0x1f ∷ 0x00 ∷ 0x00 ∷ 0x00 ∷ 0x00 ∷ 0x00 ∷ 0x00
    ∷ 0x00 ∷ 0x00 ∷ 0x18 ∷ 0x18 ∷ 0x18 ∷ 0x18 ∷ 0x18 ∷ 0x18 ∷ 0x18 ∷ 0xff ∷ 0x00 ∷ 0x00 ∷ 0x00
    ∷ 0x00 ∷ 0x00 ∷ 0x00 ∷ 0x00 ∷ 0x00 ∷ 0x00 ∷ 0x00 ∷ 0x00 ∷ 0x00 ∷ 0x00 ∷ 0x00 ∷ 0x00 ∷ 0xff
    ∷ 0x18 ∷ 0x18 ∷ 0x18 ∷ 0x18 ∷ 0x18 ∷ 0x18 ∷ 0x18 ∷ 0x18 ∷ 0x18 ∷ 0x18 ∷ 0x18 ∷ 0x18 ∷ 0x18
    ∷ 0x18 ∷ 0x18 ∷ 0x1f ∷ 0x18 ∷ 0x18 ∷ 0x18 ∷ 0x18 ∷ 0x18 ∷ 0x18 ∷ 0x18 ∷ 0x18 ∷ 0x00 ∷ 0x00
    ∷ 0x00 ∷ 0x00 ∷ 0x00 ∷ 0x00 ∷ 0x00 ∷ 0xff ∷ 0x00 ∷ 0x00 ∷ 0x00 ∷ 0x00 ∷ 0x00 ∷ 0x00 ∷ 0x00
    ∷ 0x00 ∷ 0x18 ∷ 0x18 ∷ 0x18 ∷ 0x18 ∷ 0x18 ∷ 0x18 ∷ 0x18 ∷ 0xff ∷ 0x18 ∷ 0x18 ∷ 0x18 ∷ 0x18
    ∷ 0x18 ∷ 0x18 ∷ 0x18 ∷ 0x18 ∷ 0x18 ∷ 0x18 ∷ 0x18 ∷ 0x18 ∷ 0x18 ∷ 0x1f ∷ 0x18 ∷ 0x1f ∷ 0x18
    ∷ 0x18 ∷ 0x18 ∷ 0x18 ∷ 0x18 ∷ 0x18 ∷ 0x18 ∷ 0x18 ∷ 0x36 ∷ 0x36 ∷ 0x36 ∷ 0x36 ∷ 0x36 ∷ 0x36
    ∷ 0x36 ∷ 0x37 ∷ 0x36 ∷ 0x36 ∷ 0x36 ∷ 0x36 ∷ 0x36 ∷ 0x36 ∷ 0x36 ∷ 0x36 ∷ 0x36 ∷ 0x36 ∷ 0x36
    ∷ 0x36 ∷ 0x36 ∷ 0x37 ∷ 0x30 ∷ 0x3f ∷ 0x00 ∷ 0x00 ∷ 0x00 ∷ 0x00 ∷ 0x00 ∷ 0x00 ∷ 0x00 ∷ 0x00
    ∷ 0x00 ∷ 0x00 ∷ 0x00 ∷ 0x00 ∷ 0x00 ∷ 0x3f ∷ 0x30 ∷ 0x37 ∷ 0x36 ∷ 0x36 ∷ 0x36 ∷ 0x36 ∷ 0x36
    ∷ 0x36 ∷ 0x36 ∷ 0x36 ∷ 0x36 ∷ 0x36 ∷ 0x36 ∷ 0x36 ∷ 0x36 ∷ 0xf7 ∷ 0x00 ∷ 0xff ∷ 0x00 ∷ 0x00
    ∷ 0x00 ∷ 0x00 ∷ 0x00 ∷ 0x00 ∷ 0x00 ∷ 0x00 ∷ 0x00 ∷ 0x00 ∷ 0x00 ∷ 0x00 ∷ 0x00 ∷ 0xff ∷ 0x00
    ∷ 0xf7 ∷ 0x36 ∷ 0x36 ∷ 0x36 ∷ 0x36 ∷ 0x36 ∷ 0x36 ∷ 0x36 ∷ 0x36 ∷ 0x36 ∷ 0x36 ∷ 0x36 ∷ 0x36
    ∷ 0x36 ∷ 0x37 ∷ 0x30 ∷ 0x37 ∷ 0x36 ∷ 0x36 ∷ 0x36 ∷ 0x36 ∷ 0x36 ∷ 0x36 ∷ 0x36 ∷ 0x36 ∷ 0x00
    ∷ 0x00 ∷ 0x00 ∷ 0x00 ∷ 0x00 ∷ 0xff ∷ 0x00 ∷ 0xff ∷ 0x00 ∷ 0x00 ∷ 0x00 ∷ 0x00 ∷ 0x00 ∷ 0x00
    ∷ 0x00 ∷ 0x00 ∷ 0x36 ∷ 0x36 ∷ 0x36 ∷ 0x36 ∷ 0x36 ∷ 0xf7 ∷ 0x00 ∷ 0xf7 ∷ 0x36 ∷ 0x36 ∷ 0x36
    ∷ 0x36 ∷ 0x36 ∷ 0x36 ∷ 0x36 ∷ 0x36 ∷ 0x18 ∷ 0x18 ∷ 0x18 ∷ 0x18 ∷ 0x18 ∷ 0xff ∷ 0x00 ∷ 0xff
    ∷ 0x00 ∷ 0x00 ∷ 0x00 ∷ 0x00 ∷ 0x00 ∷ 0x00 ∷ 0x00 ∷ 0x00 ∷ []

abbrev pub glyphs_d : List ℕ
glyphs_d =
    0x36 ∷ 0x36 ∷ 0x36 ∷ 0x36 ∷ 0x36 ∷ 0x36 ∷ 0x36 ∷ 0xff ∷ 0x00 ∷ 0x00 ∷ 0x00 ∷ 0x00 ∷ 0x00 ∷ 0x00
    ∷ 0x00 ∷ 0x00 ∷ 0x00 ∷ 0x00 ∷ 0x00 ∷ 0x00 ∷ 0x00 ∷ 0xff ∷ 0x00 ∷ 0xff ∷ 0x18 ∷ 0x18 ∷ 0x18
    ∷ 0x18 ∷ 0x18 ∷ 0x18 ∷ 0x18 ∷ 0x18 ∷ 0x00 ∷ 0x00 ∷ 0x00 ∷ 0x00 ∷ 0x00 ∷ 0x00 ∷ 0x00 ∷ 0xff
    ∷ 0x36 ∷ 0x36 ∷ 0x36 ∷ 0x36 ∷ 0x36 ∷ 0x36 ∷ 0x36 ∷ 0x36 ∷ 0x36 ∷ 0x36 ∷ 0x36 ∷ 0x36 ∷ 0x36
    ∷ 0x36 ∷ 0x36 ∷ 0x3f ∷ 0x00 ∷ 0x00 ∷ 0x00 ∷ 0x00 ∷ 0x00 ∷ 0x00 ∷ 0x00 ∷ 0x00 ∷ 0x18 ∷ 0x18
    ∷ 0x18 ∷ 0x18 ∷ 0x18 ∷ 0x1f ∷ 0x18 ∷ 0x1f ∷ 0x00 ∷ 0x00 ∷ 0x00 ∷ 0x00 ∷ 0x00 ∷ 0x00 ∷ 0x00
    ∷ 0x00 ∷ 0x00 ∷ 0x00 ∷ 0x00 ∷ 0x00 ∷ 0x00 ∷ 0x1f ∷ 0x18 ∷ 0x1f ∷ 0x18 ∷ 0x18 ∷ 0x18 ∷ 0x18
    ∷ 0x18 ∷ 0x18 ∷ 0x18 ∷ 0x18 ∷ 0x00 ∷ 0x00 ∷ 0x00 ∷ 0x00 ∷ 0x00 ∷ 0x00 ∷ 0x00 ∷ 0x3f ∷ 0x36
    ∷ 0x36 ∷ 0x36 ∷ 0x36 ∷ 0x36 ∷ 0x36 ∷ 0x36 ∷ 0x36 ∷ 0x36 ∷ 0x36 ∷ 0x36 ∷ 0x36 ∷ 0x36 ∷ 0x36
    ∷ 0x36 ∷ 0xff ∷ 0x36 ∷ 0x36 ∷ 0x36 ∷ 0x36 ∷ 0x36 ∷ 0x36 ∷ 0x36 ∷ 0x36 ∷ 0x18 ∷ 0x18 ∷ 0x18
    ∷ 0x18 ∷ 0x18 ∷ 0xff ∷ 0x18 ∷ 0xff ∷ 0x18 ∷ 0x18 ∷ 0x18 ∷ 0x18 ∷ 0x18 ∷ 0x18 ∷ 0x18 ∷ 0x18
    ∷ 0x18 ∷ 0x18 ∷ 0x18 ∷ 0x18 ∷ 0x18 ∷ 0x18 ∷ 0x18 ∷ 0xf8 ∷ 0x00 ∷ 0x00 ∷ 0x00 ∷ 0x00 ∷ 0x00
    ∷ 0x00 ∷ 0x00 ∷ 0x00 ∷ 0x00 ∷ 0x00 ∷ 0x00 ∷ 0x00 ∷ 0x00 ∷ 0x00 ∷ 0x00 ∷ 0x1f ∷ 0x18 ∷ 0x18
    ∷ 0x18 ∷ 0x18 ∷ 0x18 ∷ 0x18 ∷ 0x18 ∷ 0x18 ∷ 0xff ∷ 0xff ∷ 0xff ∷ 0xff ∷ 0xff ∷ 0xff ∷ 0xff
    ∷ 0xff ∷ 0xff ∷ 0xff ∷ 0xff ∷ 0xff ∷ 0xff ∷ 0xff ∷ 0xff ∷ 0xff ∷ 0x00 ∷ 0x00 ∷ 0x00 ∷ 0x00
    ∷ 0x00 ∷ 0x00 ∷ 0x00 ∷ 0xff ∷ 0xff ∷ 0xff ∷ 0xff ∷ 0xff ∷ 0xff ∷ 0xff ∷ 0xff ∷ 0xff ∷ 0xf0
    ∷ 0xf0 ∷ 0xf0 ∷ 0xf0 ∷ 0xf0 ∷ 0xf0 ∷ 0xf0 ∷ 0xf0 ∷ 0xf0 ∷ 0xf0 ∷ 0xf0 ∷ 0xf0 ∷ 0xf0 ∷ 0xf0
    ∷ 0xf0 ∷ 0xf0 ∷ 0x0f ∷ 0x0f ∷ 0x0f ∷ 0x0f ∷ 0x0f ∷ 0x0f ∷ 0x0f ∷ 0x0f ∷ 0x0f ∷ 0x0f ∷ 0x0f
    ∷ 0x0f ∷ 0x0f ∷ 0x0f ∷ 0x0f ∷ 0x0f ∷ 0xff ∷ 0xff ∷ 0xff ∷ 0xff ∷ 0xff ∷ 0xff ∷ 0xff ∷ 0x00
    ∷ 0x00 ∷ 0x00 ∷ 0x00 ∷ 0x00 ∷ 0x00 ∷ 0x00 ∷ 0x00 ∷ 0x00 ∷ []

abbrev pub glyphs_e : List ℕ
glyphs_e =
    0x00 ∷ 0x00 ∷ 0x00 ∷ 0x00 ∷ 0x00 ∷ 0x76 ∷ 0xdc ∷ 0xd8 ∷ 0xd8 ∷ 0xd8 ∷ 0xdc ∷ 0x76 ∷ 0x00 ∷ 0x00
    ∷ 0x00 ∷ 0x00 ∷ 0x00 ∷ 0x00 ∷ 0x00 ∷ 0x00 ∷ 0x00 ∷ 0xfc ∷ 0xc6 ∷ 0xfc ∷ 0xc6 ∷ 0xc6 ∷ 0xfc
    ∷ 0xc0 ∷ 0xc0 ∷ 0xc0 ∷ 0x00 ∷ 0x00 ∷ 0x00 ∷ 0x00 ∷ 0xfe ∷ 0xc6 ∷ 0xc6 ∷ 0xc0 ∷ 0xc0 ∷ 0xc0
    ∷ 0xc0 ∷ 0xc0 ∷ 0xc0 ∷ 0xc0 ∷ 0x00 ∷ 0x00 ∷ 0x00 ∷ 0x00 ∷ 0x00 ∷ 0x00 ∷ 0x00 ∷ 0x00 ∷ 0x80
    ∷ 0xfe ∷ 0x6c ∷ 0x6c ∷ 0x6c ∷ 0x6c ∷ 0x6c ∷ 0x6c ∷ 0x00 ∷ 0x00 ∷ 0x00 ∷ 0x00 ∷ 0x00 ∷ 0x00
    ∷ 0x00 ∷ 0xfe ∷ 0xc6 ∷ 0x60 ∷ 0x30 ∷ 0x18 ∷ 0x30 ∷ 0x60 ∷ 0xc6 ∷ 0xfe ∷ 0x00 ∷ 0x00 ∷ 0x00
    ∷ 0x00 ∷ 0x00 ∷ 0x00 ∷ 0x00 ∷ 0x00 ∷ 0x00 ∷ 0x7e ∷ 0xd8 ∷ 0xd8 ∷ 0xd8 ∷ 0xd8 ∷ 0xd8 ∷ 0x70
    ∷ 0x00 ∷ 0x00 ∷ 0x00 ∷ 0x00 ∷ 0x00 ∷ 0x00 ∷ 0x00 ∷ 0x00 ∷ 0x66 ∷ 0x66 ∷ 0x66 ∷ 0x66 ∷ 0x66
    ∷ 0x7c ∷ 0x60 ∷ 0x60 ∷ 0xc0 ∷ 0x00 ∷ 0x00 ∷ 0x00 ∷ 0x00 ∷ 0x00 ∷ 0x00 ∷ 0x00 ∷ 0x76 ∷ 0xdc
    ∷ 0x18 ∷ 0x18 ∷ 0x18 ∷ 0x18 ∷ 0x18 ∷ 0x18 ∷ 0x00 ∷ 0x00 ∷ 0x00 ∷ 0x00 ∷ 0x00 ∷ 0x00 ∷ 0x00
    ∷ 0x7e ∷ 0x18 ∷ 0x3c ∷ 0x66 ∷ 0x66 ∷ 0x66 ∷ 0x3c ∷ 0x18 ∷ 0x7e ∷ 0x00 ∷ 0x00 ∷ 0x00 ∷ 0x00
    ∷ 0x00 ∷ 0x00 ∷ 0x00 ∷ 0x38 ∷ 0x6c ∷ 0xc6 ∷ 0xc6 ∷ 0xfe ∷ 0xc6 ∷ 0xc6 ∷ 0x6c ∷ 0x38 ∷ 0x00
    ∷ 0x00 ∷ 0x00 ∷ 0x00 ∷ 0x00 ∷ 0x00 ∷ 0x38 ∷ 0x6c ∷ 0xc6 ∷ 0xc6 ∷ 0xc6 ∷ 0x6c ∷ 0x6c ∷ 0x6c
    ∷ 0x6c ∷ 0xee ∷ 0x00 ∷ 0x00 ∷ 0x00 ∷ 0x00 ∷ 0x00 ∷ 0x00 ∷ 0x1e ∷ 0x30 ∷ 0x18 ∷ 0x0c ∷ 0x3e
    ∷ 0x66 ∷ 0x66 ∷ 0x66 ∷ 0x66 ∷ 0x3c ∷ 0x00 ∷ 0x00 ∷ 0x00 ∷ 0x00 ∷ 0x00 ∷ 0x00 ∷ 0x00 ∷ 0x00
    ∷ 0x00 ∷ 0x7e ∷ 0xdb ∷ 0xdb ∷ 0xdb ∷ 0x7e ∷ 0x00 ∷ 0x00 ∷ 0x00 ∷ 0x00 ∷ 0x00 ∷ 0x00 ∷ 0x00
    ∷ 0x00 ∷ 0x00 ∷ 0x03 ∷ 0x06 ∷ 0x7e ∷ 0xcf ∷ 0xdb ∷ 0xf3 ∷ 0x7e ∷ 0x60 ∷ 0xc0 ∷ 0x00 ∷ 0x00
    ∷ 0x00 ∷ 0x00 ∷ 0x00 ∷ 0x00 ∷ 0x1c ∷ 0x30 ∷ 0x60 ∷ 0x60 ∷ 0x7c ∷ 0x60 ∷ 0x60 ∷ 0x60 ∷ 0x30
    ∷ 0x1c ∷ 0x00 ∷ 0x00 ∷ 0x00 ∷ 0x00 ∷ 0x00 ∷ 0x00 ∷ 0x00 ∷ 0x7c ∷ 0xc6 ∷ 0xc6 ∷ 0xc6 ∷ 0xc6
    ∷ 0xc6 ∷ 0xc6 ∷ 0xc6 ∷ 0xc6 ∷ 0x00 ∷ 0x00 ∷ 0x00 ∷ 0x00 ∷ []

abbrev pub glyphs_f : List ℕ
glyphs_f =
    0x00 ∷ 0x00 ∷ 0x00 ∷ 0x00 ∷ 0xfe ∷ 0x00 ∷ 0x00 ∷ 0xfe ∷ 0x00 ∷ 0x00 ∷ 0xfe ∷ 0x00 ∷ 0x00 ∷ 0x00
    ∷ 0x00 ∷ 0x00 ∷ 0x00 ∷ 0x00 ∷ 0x00 ∷ 0x00 ∷ 0x18 ∷ 0x18 ∷ 0x7e ∷ 0x18 ∷ 0x18 ∷ 0x00 ∷ 0x00
    ∷ 0xff ∷ 0x00 ∷ 0x00 ∷ 0x00 ∷ 0x00 ∷ 0x00 ∷ 0x00 ∷ 0x00 ∷ 0x30 ∷ 0x18 ∷ 0x0c ∷ 0x06 ∷ 0x0c
    ∷ 0x18 ∷ 0x30 ∷ 0x00 ∷ 0x7e ∷ 0x00 ∷ 0x00 ∷ 0x00 ∷ 0x00 ∷ 0x00 ∷ 0x00 ∷ 0x00 ∷ 0x0c ∷ 0x18
    ∷ 0x30 ∷ 0x60 ∷ 0x30 ∷ 0x18 ∷ 0x0c ∷ 0x00 ∷ 0x7e ∷ 0x00 ∷ 0x00 ∷ 0x00 ∷ 0x00 ∷ 0x00 ∷ 0x00
    ∷ 0x0e ∷ 0x1b ∷ 0x1b ∷ 0x18 ∷ 0x18 ∷ 0x18 ∷ 0x18 ∷ 0x18 ∷ 0x18 ∷ 0x18 ∷ 0x18 ∷ 0x18 ∷ 0x18
    ∷ 0x18 ∷ 0x18 ∷ 0x18 ∷ 0x18 ∷ 0x18 ∷ 0x18 ∷ 0x18 ∷ 0x18 ∷ 0x18 ∷ 0xd8 ∷ 0xd8 ∷ 0xd8 ∷ 0x70
    ∷ 0x00 ∷ 0x00 ∷ 0x00 ∷ 0x00 ∷ 0x00 ∷ 0x00 ∷ 0x00 ∷ 0x00 ∷ 0x18 ∷ 0x18 ∷ 0x00 ∷ 0x7e ∷ 0x00
    ∷ 0x18 ∷ 0x18 ∷ 0x00 ∷ 0x00 ∷ 0x00 ∷ 0x00 ∷ 0x00 ∷ 0x00 ∷ 0x00 ∷ 0x00 ∷ 0x00 ∷ 0x00 ∷ 0x76
    ∷ 0xdc ∷ 0x00 ∷ 0x76 ∷ 0xdc ∷ 0x00 ∷ 0x00 ∷ 0x00 ∷ 0x00 ∷ 0x00 ∷ 0x00 ∷ 0x00 ∷ 0x38 ∷ 0x6c
    ∷ 0x6c ∷ 0x38 ∷ 0x00 ∷ 0x00 ∷ 0x00 ∷ 0x00 ∷ 0x00 ∷ 0x00 ∷ 0x00 ∷ 0x00 ∷ 0x00 ∷ 0x00 ∷ 0x00
    ∷ 0x00 ∷ 0x00 ∷ 0x00 ∷ 0x00 ∷ 0x00 ∷ 0x00 ∷ 0x00 ∷ 0x18 ∷ 0x18 ∷ 0x00 ∷ 0x00 ∷ 0x00 ∷ 0x00
    ∷ 0x00 ∷ 0x00 ∷ 0x00 ∷ 0x00 ∷ 0x00 ∷ 0x00 ∷ 0x00 ∷ 0x00 ∷ 0x00 ∷ 0x00 ∷ 0x00 ∷ 0x18 ∷ 0x00
    ∷ 0x00 ∷ 0x00 ∷ 0x00 ∷ 0x00 ∷ 0x00 ∷ 0x00 ∷ 0x00 ∷ 0x0f ∷ 0x0c ∷ 0x0c ∷ 0x0c ∷ 0x0c ∷ 0x0c
    ∷ 0xec ∷ 0x6c ∷ 0x6c ∷ 0x3c ∷ 0x1c ∷ 0x00 ∷ 0x00 ∷ 0x00 ∷ 0x00 ∷ 0x00 ∷ 0xd8 ∷ 0x6c ∷ 0x6c
    ∷ 0x6c ∷ 0x6c ∷ 0x6c ∷ 0x00 ∷ 0x00 ∷ 0x00 ∷ 0x00 ∷ 0x00 ∷ 0x00 ∷ 0x00 ∷ 0x00 ∷ 0x00 ∷ 0x00
    ∷ 0x70 ∷ 0x98 ∷ 0x30 ∷ 0x60 ∷ 0xc8 ∷ 0xf8 ∷ 0x00 ∷ 0x00 ∷ 0x00 ∷ 0x00 ∷ 0x00 ∷ 0x00 ∷ 0x00
    ∷ 0x00 ∷ 0x00 ∷ 0x00 ∷ 0x00 ∷ 0x00 ∷ 0x00 ∷ 0x7c ∷ 0x7c ∷ 0x7c ∷ 0x7c ∷ 0x7c ∷ 0x7c ∷ 0x7c
    ∷ 0x00 ∷ 0x00 ∷ 0x00 ∷ 0x00 ∷ 0x00 ∷ 0x00 ∷ 0x00 ∷ 0x00 ∷ 0x00 ∷ 0x00 ∷ 0x00 ∷ 0x00 ∷ 0x00
    ∷ 0x00 ∷ 0x00 ∷ 0x00 ∷ 0x00 ∷ 0x00 ∷ 0x00 ∷ 0x00 ∷ 0x00 ∷ []
