-- ===== src/Console/Colour.antt =====
-- The colours of kernel/console.c.
use vimos_minimal.Base.{ℕ, ◌+◌, ◌/◌, ◌%◌, ◌<◌, ◌≡◌, arith, ◌==◌, if◌then◌else◌}
use vimos_minimal.Console.{Console, set_colour, choose_colour}

-- A channel is on where a bit of the colour's number is set.
abbrev pub channel : ℕ → ℕ → ℕ
channel n bit = if (n / bit % 2) == 1 then 255 else 0

-- For a colour from 0 to 7, the escape sequence turns on red, green and blue by the bits 0, 1 and 2
-- of the colour's number, except for colour 5, which gives white, and leaves the rest of the console.
pub choose_colour_lem :
    (n : ℕ) (con : Console)
    → n < 8
    → choose_colour (48 + n) con ≡ (
        if n == 5
        then record con { r = 255; g = 255; b = 255 }
        else record con { r = channel n 1; g = channel n 2; b = channel n 4 })
unfolding choose_colour set_colour
choose_colour_lem n con h = ground arith
