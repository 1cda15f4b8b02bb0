-- ===== src/Console/Grid.antt =====
-- The cursor of kernel/console.c stays on the screen while plain text is printed.
use vimos_minimal.Base.{
  inl, inr, ℕ, zero, suc, ◌+◌, ◌-◌, ◌*◌, ◌/◌, ◌≤◌, ◌≡◌, refl, ap, false, ◌&&◌, not, List, [], ◌∷◌,
  ◌++◌, arith, ltb, ◌==◌, if◌then◌else◌, Bool-cases, length,
}
use vimos_minimal.Base.Int.{ℤ, pos, negsuc, ◌+ℤ◌, ◌-ℤ◌, ltb_ℤ, ◌==ℤ◌}
use vimos_minimal.Console.{
  Draw, put_char, scroll_screen, Console, draw, is_drawn, next_row, put_drawn, backspace, line_feed,
  put_plain, put_round, put_loop, put_console,
}

add-pos : (a b : ℕ) → pos a +ℤ pos b ≡ pos (a + b)
unfolding ◌+ℤ◌
add-pos a b = ground arith

sub-pos : (a b : ℕ) → b ≤ a → pos a -ℤ pos b ≡ pos (a - b)
unfolding ◌-ℤ◌
sub-pos a b h = ground arith

module _ (width height : ℕ) where
  -- A cell of the screen.
  pub record IsCell (x y : ℤ) : Type 0 where
    pub col : ℕ
    pub row : ℕ
    pub at_x : x ≡ pos (8 * col)
    pub at_y : y ≡ pos (16 * row)
    pub inside_x : 8 * col + 8 ≤ width
    pub inside_y : 16 * row + 16 ≤ height

  -- All characters were drawn in cells of the screen.
  abbrev pub AllInside : List Draw → Type 0
  AllInside [] = Unit {0}
  AllInside (put_char c x y r g b ∷ ds) = IsCell x y × AllInside ds
  AllInside (scroll_screen ∷ ds) = AllInside ds

  AllInside-append : (ds es : List Draw) → AllInside ds → AllInside es → AllInside (ds ++ es)
  AllInside-append [] es p q = q
  AllInside-append (put_char c x y r g b ∷ ds) es p q = (p.0, AllInside-append ds es p.1 q)
  AllInside-append (scroll_screen ∷ ds) es p q = AllInside-append ds es p q

  -- The cursor is on a cell, no move of the cursor is to be taken back, and so far only cells were
  -- drawn on.
  pub record IsOnGrid (con : Console) : Type 0 where
    pub cell : IsCell con.x con.y
    pub unmoved : con.tmpy ≡ negsuc 0
    pub drawn : AllInside con.drawn

  next_row-IsOnGrid :
      (con : Console)
      → IsOnGrid con
      → 8 ≤ width
      → IsOnGrid (next_row width height (record con { x = pos 0 }))
  unfolding next_row draw
  next_row-IsOnGrid con v w =
      let row = v.cell.row in
      let down : con.y +ℤ pos 16 ≡ pos (16 * (row + 1)) =
        rw (v.cell.at_y, add-pos (16 * row) 16) (ap pos (omega arith)) in
      let up : pos (16 * (row + 1)) -ℤ pos 16 ≡ pos (16 * row) =
        rw (sub-pos (16 * (row + 1)) 16 (omega arith)) (ap pos (omega arith)) in
      elim (Bool-cases ((16 * (row + 1) + 0) == (height / 16 * 16 + 0))) [
        | inl last ↦
            rw (down, last, up)
              (record {
                cell = record {
                  col = 0;
                  row = row;
                  at_x = refl;
                  at_y = refl;
                  inside_x = w;
                  inside_y = v.cell.inside_y;
                };
                unmoved = v.unmoved;
                drawn = AllInside-append con.drawn (scroll_screen ∷ []) v.drawn tt;
              })
        | inr more ↦
            rw (down, more)
              (record {
                cell = record {
                  col = 0;
                  row = row + 1;
                  at_x = refl;
                  at_y = refl;
                  inside_x = w;
                  inside_y = ground (arith, v.cell.inside_y);
                };
                unmoved = v.unmoved;
                drawn = v.drawn;
              })
      ]

  put_drawn-IsOnGrid :
      (c : ℕ) (con : Console) → IsOnGrid con → IsOnGrid (put_drawn width height c con)
  unfolding put_drawn draw
  put_drawn-IsOnGrid c con v =
      let col = v.cell.col in
      let drawn' =
        AllInside-append con.drawn (put_char c con.x con.y con.r con.g con.b ∷ []) v.drawn
          (v.cell, tt) in
      let right : con.x +ℤ pos 8 ≡ pos (8 * (col + 1)) =
        rw (v.cell.at_x, add-pos (8 * col) 8) (ap pos (omega arith)) in
      elim (Bool-cases ((8 * (col + 1) + 0) == (width / 8 * 8 + 0))) [
        | inl last ↦
            rw (right, last)
              (next_row-IsOnGrid (draw (put_char c con.x con.y con.r con.g con.b) con)
                (record { cell = v.cell; unmoved = v.unmoved; drawn = drawn' })
                (omega (arith, v.cell.inside_x)))
        | inr more ↦
            rw (right, more)
              (record {
                cell = record {
                  col = col + 1;
                  row = v.cell.row;
                  at_x = refl;
                  at_y = v.cell.at_y;
                  inside_x = ground (arith, v.cell.inside_x);
                  inside_y = v.cell.inside_y;
                };
                unmoved = v.unmoved;
                drawn = drawn';
              })
      ]

  backspace-IsOnGrid : (con : Console) → IsOnGrid con → IsOnGrid (backspace width height con)
  unfolding backspace draw
  backspace-IsOnGrid con v =
      let col = v.cell.col in
      elim (Bool-cases (ltb_ℤ con.x (pos 8))) [
        | inl none_left ↦ rw none_left v
        | inr some_left ↦
            let room : ltb (8 * col + 0) (8 + 0) ≡ false = rw v.cell.at_x at some_left in
            let left : con.x -ℤ pos 8 ≡ pos (8 * (col - 1)) =
              rw (v.cell.at_x, sub-pos (8 * col) 8 (ground arith)) (ap pos (omega arith)) in
            let cell : IsCell (con.x -ℤ pos 8) con.y = record {
              col = col - 1;
              row = v.cell.row;
              at_x = left;
              at_y = v.cell.at_y;
              inside_x = omega (arith, v.cell.inside_x);
              inside_y = v.cell.inside_y;
            } in
            rw some_left (record {
              cell = cell;
              unmoved = v.unmoved;
              drawn =
                  AllInside-append con.drawn (put_char 219 (con.x -ℤ pos 8) con.y 0 0 0 ∷ [])
                    v.drawn (cell, tt);
            })
      ]

  line_feed-IsOnGrid : (con : Console) → IsOnGrid con → IsOnGrid (line_feed width height con)
  unfolding line_feed
  line_feed-IsOnGrid con v = rw v.unmoved (
      next_row-IsOnGrid (record con { tmpx = negsuc 0; tmpy = negsuc 0; r = 255; g = 255; b = 255 })
        (record { cell = v.cell; unmoved = refl; drawn = v.drawn })
        (omega (arith, v.cell.inside_x)))

  -- A character of plain text: no tab and no escape.
  abbrev pub IsPlain : List ℕ → Type 0
  IsPlain [] = Unit {0}
  IsPlain (c ∷ s) = ((c == 9) ≡ false) × ((c == 27) ≡ false) × IsPlain s

  put_plain-IsOnGrid :
      (c : ℕ) (con : Console)
      → (c == 9) ≡ false
      → IsOnGrid con
      → IsOnGrid (put_plain width height c con)
  unfolding put_plain
  put_plain-IsOnGrid c con no_tab v =
      let con1 =
        if not (con.x ==ℤ pos width) && is_drawn c then put_drawn width height c con else con in
      let v1 : IsOnGrid con1 = elim (Bool-cases (not (con.x ==ℤ pos width) && is_drawn c)) [
        | inl shown ↦ rw shown (put_drawn-IsOnGrid c con v)
        | inr hidden ↦ rw hidden v
      ] in
      elim (Bool-cases (c == 8)) [
        | inl b ↦ rw (no_tab, b) (backspace-IsOnGrid con1 v1)
        | inr nb ↦ elim (Bool-cases (c == 10)) [
          | inl n ↦ rw (no_tab, nb, n) (line_feed-IsOnGrid con1 v1)
          | inr nn ↦ rw (no_tab, nb, nn) v1
        ]
      ]

  put_round-plain :
      (c : ℕ) (s : List ℕ) (con : Console)
      → (c == 27) ≡ false
      → put_round width height c (c ∷ s) con ≡ (put_plain width height c con, s)
  unfolding put_round
  put_round-plain c s con e = rw e refl

  put_loop-plain :
      (fuel c : ℕ) (s : List ℕ) (con : Console)
      → (c == 27) ≡ false
      → put_loop width height (suc fuel) (c ∷ s) con
        ≡ put_loop width height fuel s (put_plain width height c con)
  unfolding put_loop
  put_loop-plain fuel c s con e =
      ap (λ (t : Console × List ℕ). put_loop width height fuel t.1 t.0) (put_round-plain c s con e)

  put_loop-IsOnGrid :
      (fuel : ℕ) (s : List ℕ) (con : Console)
      → IsPlain s
      → IsOnGrid con
      → IsOnGrid (put_loop width height fuel s con)
  unfolding put_loop
  put_loop-IsOnGrid fuel [] con p v = v
  put_loop-IsOnGrid zero (c ∷ s) con p v = v
  put_loop-IsOnGrid (suc fuel) (c ∷ s) con p v =
      rw (put_loop-plain fuel c s con p.1) (
        put_loop-IsOnGrid fuel s (put_plain width height c con) p.2
          (put_plain-IsOnGrid c con p.0 v))

  -- A text without tabs and escapes, printed while the cursor is on a cell of the screen and no move
  -- of the cursor is to be taken back, draws characters on cells of the screen only, and leaves the
  -- cursor on a cell, also after line feeds, backspaces, long lines and scrolling.
  pub put_console-IsOnGrid :
      (s : List ℕ) (con : Console)
      → IsPlain s
      → IsOnGrid con
      → IsOnGrid (put_console width height s con)
  unfolding put_console
  put_console-IsOnGrid s con p v = put_loop-IsOnGrid (length s) s con p v
