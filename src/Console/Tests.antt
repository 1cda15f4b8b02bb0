-- ===== src/Console/Tests.antt =====
-- The console at concrete inputs.
use vimos_minimal.Base.{ℕ, refl, List, [], ◌∷◌, arith}
use vimos_minimal.Base.Int.{pos, negsuc}
use vimos_minimal.Console.{Console, put_console}
use vimos_minimal.Console.Grid.{IsOnGrid, put_console-IsOnGrid}

-- The console at the start.
abbrev fresh : Console
fresh = record {
  x = pos 0;
  y = pos 0;
  tmpx = negsuc 0;
  tmpy = negsuc 0;
  r = 255;
  g = 255;
  b = 255;
  drawn = [];
}

fresh-IsOnGrid : IsOnGrid 16 32 fresh
fresh-IsOnGrid = record {
  cell = record {
    col = 0;
    row = 0;
    at_x = refl;
    at_y = refl;
    inside_x = omega arith;
    inside_y = omega arith;
  };
  unmoved = refl;
  drawn = tt;
}

-- Two columns and two rows: "abc", a backspace, "d" and a line feed scroll the screen.
abbrev letters : List ℕ
letters = 97 ∷ 98 ∷ 99 ∷ 8 ∷ 100 ∷ 10 ∷ []

put_console-IsOnGrid_example : IsOnGrid 16 32 (put_console 16 32 letters fresh)
put_console-IsOnGrid_example =
    put_console-IsOnGrid 16 32 letters fresh
      (refl, refl, (refl, refl, (refl, refl, (refl, refl, (refl, refl, (refl, refl, tt))))))
      fresh-IsOnGrid
