-- ===== src/Pixel/Tests.antt =====
-- console.c: concrete pixels on a black screen.
use sys_prog_assessment.Prelude.{◌≡◌, refl, arith}
use sys_prog_assessment.Pixel.{Vga, add_bit, colour_bits, setpixel}
use sys_prog_assessment.Pixel.Colour.{colour_at, setpixel_twice}

abbrev black : Vga
black = record { mode = 18; linear = λ a. 0; planes = λ p a. 0 }

-- A pixel that is drawn twice shows up at its left neighbour.
setpixel_carry : colour_at 8 2 (setpixel 9 2 5 (setpixel 9 2 5 black)) ≡ 5
unfolding setpixel colour_bits add_bit
setpixel_carry = refl

setpixel_twice_example : colour_at 9 2 (setpixel 9 2 5 (setpixel 9 2 5 black)) ≡ 0
setpixel_twice_example =
    setpixel_twice 9 2 5 black refl (omega arith)
      (omega arith, omega arith, omega arith, omega arith) refl
