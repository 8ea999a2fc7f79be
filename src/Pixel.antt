-- ===== src/Pixel.antt =====
-- console.c: setpixel in the two graphics modes, for coordinates and colours that are not negative.
-- The 640x480 mode has four planes, and a byte of a plane holds a bit of eight pixels.
pub mod Colour
mod Tests
use sys_prog_assessment.Prelude.{
  ℕ, zero, suc, ◌+◌, ◌-◌, ◌*◌, ◌/◌, ◌%◌, Bool, true, false, ◌&&◌, update, ◌==◌, ltb, leb,
  if◌then◌else◌,
}

-- The memory of the mode 0x13 at 0xA0000, and the planes of the mode 0x12.
pub record Vga : Type 0 where
  pub mode : ℕ
  pub linear : ℕ → ℕ
  pub planes : ℕ → ℕ → ℕ

abbrev pub bit_of : ℕ → ℕ
bit_of zero = 128
bit_of (suc zero) = 64
bit_of (suc (suc zero)) = 32
bit_of (suc (suc (suc zero))) = 16
bit_of (suc (suc (suc (suc zero)))) = 8
bit_of (suc (suc (suc (suc (suc zero))))) = 4
bit_of (suc (suc (suc (suc (suc (suc zero)))))) = 2
bit_of _ = 1

abbrev pub binary_stuff : ℕ → ℕ
binary_stuff x = bit_of (x % 8)

-- The four tests on `colourAsInt`, from BIT0 to BIT3.
unfoldable pub colour_bits : ℕ → Bool × Bool × Bool × Bool
colour_bits colour =
    let a : ℕ = (if leb 8 colour then colour - 8 else colour) in
    let b : ℕ = (if leb 4 a then a - 4 else a) in
    let c : ℕ = (if leb 2 b then b - 2 else b) in (leb 8 colour, leb 4 a, leb 2 b, leb 1 c)

-- The block of `setpixel` for one plane, where its bit of the colour is set.
unfoldable pub add_bit : Bool → ℕ → ℕ → ℕ → (ℕ → ℕ → ℕ) → ℕ → ℕ → ℕ
add_bit bit plane x y planes =
    let at : ℕ = (640 * y + x) / 8 in
    if bit
    then update planes plane (update (planes plane) at ((planes plane at + binary_stuff x) % 256))
    else planes

unfoldable pub setpixel : ℕ → ℕ → ℕ → Vga → Vga
unfolding colour_bits add_bit
setpixel x y colour v =
    let (bit0, bit1, bit2, bit3) = colour_bits colour in
    if v.mode == 19
    then record v { linear = update v.linear (320 * y + x) (colour % 256) }
    else (if v.mode == 18
        then record v {
          planes =
              add_bit bit0 3 x y
                (add_bit bit1 2 x y (add_bit bit2 1 x y (add_bit bit3 0 x y v.planes)));
        }
        else v)
