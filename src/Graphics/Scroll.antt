-- ===== src/Graphics/Scroll.antt =====
-- `scroll_screen` of kernel/uefi_graphics.c: the text moves up by one line of 16 pixels.
pub mod Rows
pub mod Shown
use vimos_minimal.Base.{
  ◌⊎◌, ◌↔◌, inl, inr, ℕ, zero, suc, ◌+◌, ◌-◌, ◌*◌, ◌/◌, ◌%◌, ◌^◌, ◌≤◌, ◌<◌, min, max, bit_and,
  bit_or, bit_xor, ◌≡◌, refl, sym, ap, ◌∙◌, ◌≢◌, Bool, true, false, ◌&&◌, ◌||◌, not, Option, none,
  some, List, [], ◌∷◌, ◌++◌, map, arith, ltb, leb, ◌==◌, if◌then◌else◌, ltb→lt, lt→ltb, le→ltb,
  leb→le, ==_iff, ==_refl, Bool-cases, nat_cases, length, get_elem?, get_or, set, take, drop,
  replicate, length-append, length-replicate, length-set, get_or-set_self, get_or-set_ne,
  get_or-append_left, get_or-append_right, get_or-append_last, get_or-replicate, u8, u16, u32, u64,
  sub32, sub64,
}
use vimos_minimal.Base.Int.{ℤ, pos, pos_part, ◌+ℤ◌, ◌-ℤ◌, ◌*ℤ◌}
use vimos_minimal.Graphics.{Frame, poke, Gop}

-- `memcpy` and `memset` of the C library, on places of the frame buffer.
unfoldable pub copy_bytes : ℤ → ℤ → ℕ → Frame → Frame
copy_bytes x y zero m = m
copy_bytes x y (suc n) m = copy_bytes (x +ℤ pos 1) (y +ℤ pos 1) n (poke x (m y) m)

unfoldable pub set_bytes : ℤ → ℕ → ℕ → Frame → Frame
set_bytes x v zero m = m
set_bytes x v (suc n) m = set_bytes (x +ℤ pos 1) v n (poke x v m)

-- `for(int i = 0; i < height - 16; i++)`, with `n` rounds left.
unfoldable pub move_rows : ℕ → ℕ → Gop → Gop
move_rows zero i gop = gop
move_rows (suc n) i gop = move_rows n (i + 1) (record gop {
  frame_buffer =
      copy_bytes (pos i *ℤ gop.pixels_per_scanline *ℤ pos 4)
        (pos (i + 16) *ℤ gop.pixels_per_scanline *ℤ pos 4) (400 * 4) gop.frame_buffer;
})

-- `for(int i = 0; i < 16; i++)`
unfoldable pub clear_rows : ℕ → ℕ → Gop → Gop
clear_rows zero i gop = gop
clear_rows (suc n) i gop = clear_rows n (i + 1) (record gop {
  frame_buffer =
      set_bytes (gop.pixels_per_scanline *ℤ (gop.height -ℤ pos i) *ℤ pos 4) 0 (400 * 16 * 4)
        gop.frame_buffer;
})

unfoldable pub scroll_screen : Gop → Gop
scroll_screen gop = clear_rows 16 0 (move_rows (pos_part (gop.height -ℤ pos 16)) 0 gop)
