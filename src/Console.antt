-- ===== src/Console.antt =====
-- The text console of kernel/console.c. The screen is what the graphics module is told to draw.
mod Tests
pub mod Colour
pub mod Grid
use vimos_minimal.Base.{
  ◌⊎◌, ◌↔◌, inl, inr, ℕ, zero, suc, ◌+◌, ◌-◌, ◌*◌, ◌/◌, ◌%◌, ◌^◌, ◌≤◌, ◌<◌, min, max, bit_and,
  bit_or, bit_xor, ◌≡◌, refl, sym, ap, ◌∙◌, ◌≢◌, Bool, true, false, ◌&&◌, ◌||◌, not, Option, none,
  some, List, [], ◌∷◌, ◌++◌, map, arith, ltb, leb, ◌==◌, if◌then◌else◌, ltb→lt, lt→ltb, le→ltb,
  leb→le, ==_iff, ==_refl, Bool-cases, nat_cases, length, get_elem?, get_or, set, take, drop,
  replicate, length-append, length-replicate, length-set, get_or-set_self, get_or-set_ne,
  get_or-append_left, get_or-append_right, get_or-append_last, get_or-replicate, u8, u16, u32, u64,
  sub32, sub64,
}
use vimos_minimal.Base.Int.{ℤ, pos, negsuc, ◌+ℤ◌, ◌-ℤ◌, ltb_ℤ, ◌==ℤ◌}

-- The calls of the graphics module: a character at a place in a colour, or `scroll_screen`.
pub data Draw : Type 0 where
  put_char : (c : ℕ) → (x y : ℤ) → (r g b : ℕ) → Draw
  scroll_screen : Draw

-- The static variables of `put_console`, and the calls made so far.
pub record Console : Type 0 where
  pub x : ℤ
  pub y : ℤ
  pub tmpx : ℤ
  pub tmpy : ℤ
  pub r : ℕ
  pub g : ℕ
  pub b : ℕ
  pub drawn : List Draw

unfoldable pub draw : Draw → Console → Console
draw d con = record con { drawn = con.drawn ++ d ∷ [] }

unfoldable pub set_colour : ℕ → ℕ → ℕ → Console → Console
set_colour r g b con = record con { r = r; g = g; b = b }

-- `switch(cc)`, by the character that `cc` is read from.
unfoldable pub choose_colour : ℕ → Console → Console
choose_colour c con =
    if c == 48
    then set_colour 0 0 0 con
    else if c == 49
    then set_colour 255 0 0 con
    else if c == 50
    then set_colour 0 255 0 con
    else if c == 51
    then set_colour 255 255 0 con
    else if c == 52
    then set_colour 0 0 255 con
    else if c == 53
    then set_colour 255 255 255 con
    else if c == 54
    then set_colour 0 255 255 con
    else if c == 55
    then set_colour 255 255 255 con
    else con

-- The position to return to at the end of the line, set once: it is -1 where there is none.
unfoldable pub keep : ℤ → ℤ → ℤ
keep tmp v = if tmp ==ℤ negsuc 0 then v else tmp

-- A character that is drawn, and no tab, carriage return, line feed, escape or backspace.
unfoldable pub is_drawn : ℕ → Bool
is_drawn c = not (c == 9) && not (c == 13) && not (c == 10) && not (c == 27) && not (c == 8)

module _ (width height : ℕ) where
  -- `(width / 8) * 8` and `(height / 16) * 16`.
  abbrev pub columns_end : ℤ
  columns_end = pos (width / 8 * 8)

  abbrev pub rows_end : ℤ
  rows_end = pos (height / 16 * 16)

  -- `y += 16`, and the screen scrolled where that is its end.
  unfoldable pub next_row : Console → Console
  next_row con0 =
      let con = record con0 { y = con0.y +ℤ pos 16 } in
      if con.y ==ℤ rows_end
      then record (draw scroll_screen con) { x = pos 0; y = con.y -ℤ pos 16 }
      else con

  unfoldable pub put_drawn : ℕ → Console → Console
  put_drawn c con0 =
      let con1 = draw (put_char c con0.x con0.y con0.r con0.g con0.b) con0 in
      let con = record con1 { x = con0.x +ℤ pos 8 } in
      if con.x ==ℤ columns_end then next_row (record con { x = pos 0 }) else con

  unfoldable pub tab : Console → Console
  tab con =
      let odd = pos_of con.x / 8 % 2 in record con { x = con.x +ℤ pos (if odd == 0 then 16 else 8) }
    where
      pos_of : ℤ → ℕ
      pos_of (pos n) = n
      pos_of (negsuc n) = 0

  unfoldable pub backspace : Console → Console
  backspace con0 =
      let con = record con0 { x = con0.x -ℤ pos 8 } in
      if ltb_ℤ con0.x (pos 8) then con0 else draw (put_char 219 con.x con.y 0 0 0) con

  -- The line feed also takes back the moves of the cursor and the colour.
  unfoldable pub line_feed : Console → Console
  line_feed con = next_row (record con {
    x = pos 0;
    y = if con.tmpy ==ℤ negsuc 0 then con.y else con.tmpy -ℤ pos 16;
    tmpx = negsuc 0;
    tmpy = negsuc 0;
    r = 255;
    g = 255;
    b = 255;
  })

  -- What a character does that begins no escape sequence.
  unfoldable pub put_plain : ℕ → Console → Console
  put_plain c con0 =
      let con = if not (con0.x ==ℤ pos width) && is_drawn c then put_drawn c con0 else con0 in
      if c == 9
      then tab con
      else if c == 8
      then backspace con
      else if c == 10
      then line_feed con
      else con

  unfoldable pub up : ℕ → Console → Console
  up num con =
      let y = con.y -ℤ pos (16 * num) in
      record con { tmpy = keep con.tmpy con.y; y = if ltb_ℤ y (pos 0) then pos 0 else y }

  unfoldable pub down : ℕ → Console → Console
  down num con =
      let y = con.y +ℤ pos (16 * num) in
      record con {
        tmpy = keep con.tmpy con.y;
        y = if ltb_ℤ rows_end y then rows_end -ℤ pos 16 else y;
      }

  unfoldable pub right : ℕ → Console → Console
  right num con =
      let x = con.x +ℤ pos (8 * num) in
      record con {
        tmpx = keep con.tmpx con.x;
        x = if ltb_ℤ columns_end x then columns_end -ℤ pos 8 else x;
      }

  unfoldable pub back : ℕ → Console → Console
  back num con =
      let x = con.x -ℤ pos (8 * num) in
      record con { tmpx = keep con.tmpx con.x; x = if ltb_ℤ x (pos 0) then pos 0 else x }

  -- An escape sequence with the digit `num`; `s3` and `s4` stand behind the digit. Also returned is
  -- the number of characters behind the digit that belong to the sequence.
  unfoldable pub escape : ℕ → ℕ → ℕ → Console → Console × ℕ
  escape num s3 s4 con =
      if s3 == 65
      then (up num con, 1)
      else if s3 == 66
      then (down num con, 1)
      else if s3 == 67
      then (right num con, 1)
      else if s3 == 68
      then (back num con, 1)
      else if num == 3 && s4 == 109
      then (choose_colour s3 con, 2)
      else (con, 0)

  -- One round of the loop at the string `s` that starts with `c`, and where it goes on; a character
  -- behind the end reads as 0.
  unfoldable pub put_round : ℕ → List ℕ → Console → Console × List ℕ
  put_round c s con0 =
      let con = put_plain c con0 in
      let s2 = get_or s 2 0 in
      let (after, more) = escape (s2 - 48) (get_or s 3 0) (get_or s 4 0) con in
      if c == 27 && get_or s 1 0 == 91
      then (if leb 48 s2 && leb s2 57 then (after, drop (3 + more) s) else (con, drop 2 s))
      else (con, drop 1 s)

  -- Each round takes a character at least, so that the length of the string is enough.
  unfoldable pub put_loop : ℕ → List ℕ → Console → Console
  put_loop fuel [] con = con
  put_loop zero (c ∷ s) con = con
  put_loop (suc fuel) (c ∷ s) con =
      let (after, rest) = put_round c (c ∷ s) con in put_loop fuel rest after

  unfoldable pub put_console : List ℕ → Console → Console
  put_console s con = put_loop (length s) s con
