-- ===== src/Pixel/Colour.antt =====
-- console.c: the colour of a pixel in the mode 0x12.
use sys_prog_assessment.Prelude.{
  ℕ, zero, suc, ◌+◌, ◌-◌, ◌*◌, ◌/◌, ◌%◌, ◌<◌, Bool, true, false, ◌≢◌, update, update_self,
  update_ne, ◌==◌, if◌then◌else◌, ◌≡◌, subst, ◌∙◌, refl, arith,
}
use sys_prog_assessment.Pixel.{Vga, bit_of, binary_stuff, colour_bits, add_bit, setpixel}

-- The bit that a plane has for the pixel.
abbrev pub bit_at : ℕ → ℕ → (ℕ → ℕ) → ℕ
bit_at x y plane = plane ((640 * y + x) / 8) / binary_stuff x % 2

-- The colour that the four planes give a pixel.
abbrev pub colour_at : ℕ → ℕ → Vga → ℕ
colour_at x y v =
    bit_at x y (v.planes 0)
    + 2 * bit_at x y (v.planes 1)
    + 4 * bit_at x y (v.planes 2)
    + 8 * bit_at x y (v.planes 3)

-- Adding the bit of a pixel to a byte turns this bit around.
turned : (b r : ℕ) → b < 256 → (b + bit_of r) % 256 / bit_of r % 2 ≡ 1 - b / bit_of r % 2
turned b zero h = omega arith
turned b (suc zero) h = omega arith
turned b (suc (suc zero)) h = omega arith
turned b (suc (suc (suc zero))) h = omega arith
turned b (suc (suc (suc (suc zero)))) h = omega arith
turned b (suc (suc (suc (suc (suc zero))))) h = omega arith
turned b (suc (suc (suc (suc (suc (suc zero)))))) h = omega arith
turned b (suc (suc (suc (suc (suc (suc (suc r))))))) h = omega arith

abbrev pub flip : Bool → ℕ → ℕ
flip bit b = if bit then 1 - b else b

add_bit_self :
    (bit : Bool) (p x y : ℕ) (planes : ℕ → ℕ → ℕ)
    → planes p ((640 * y + x) / 8) < 256
    → (bit_at x y (add_bit bit p x y planes p) ≡ flip bit (bit_at x y (planes p)))
      × (add_bit bit p x y planes p ((640 * y + x) / 8) < 256)
unfolding add_bit
add_bit_self true p x y planes h =
    let new : ℕ → ℕ =
      update (planes p) ((640 * y + x) / 8)
        ((planes p ((640 * y + x) / 8) + binary_stuff x) % 256) in
    let here : update planes p new p ≡ new = update_self planes p new in
    let at =
      update_self (planes p) ((640 * y + x) / 8)
        ((planes p ((640 * y + x) / 8) + binary_stuff x) % 256) in
    (rw (here, at) (turned (planes p ((640 * y + x) / 8)) (x % 8) h), rw (here, at) (omega arith))
add_bit_self false p x y planes h = (refl, h)

add_bit_other :
    (bit : Bool) (p q x y : ℕ) (planes : ℕ → ℕ → ℕ) → p ≢ q → add_bit bit p x y planes q ≡ planes q
unfolding add_bit
add_bit_other true p q x y planes h = update_ne planes p _ q h
add_bit_other false p q x y planes h = refl

-- The byte of each plane that the pixel is in.
abbrev pub AreBytes : ℕ → ℕ → Vga → Type 0
AreBytes x y v =
    (v.planes 0 ((640 * y + x) / 8) < 256)
    × (v.planes 1 ((640 * y + x) / 8) < 256)
    × (v.planes 2 ((640 * y + x) / 8) < 256)
    × (v.planes 3 ((640 * y + x) / 8) < 256)

-- One plane of the four, which the blocks for the planes `q` do not touch.
abbrev Turned : Bool → ℕ → ℕ → (ℕ → ℕ) → (ℕ → ℕ) → Type 0
Turned bit x y new old =
    (bit_at x y new ≡ flip bit (bit_at x y old)) × (new ((640 * y + x) / 8) < 256)

four_planes :
    (b0 b1 b2 b3 : Bool) (x y : ℕ) (v : Vga)
    → AreBytes x y v
    → let new =
        add_bit b0 3 x y (add_bit b1 2 x y (add_bit b2 1 x y (add_bit b3 0 x y v.planes))) in
      Turned b3 x y (new 0) (v.planes 0)
      × Turned b2 x y (new 1) (v.planes 1)
      × Turned b1 x y (new 2) (v.planes 2)
      × Turned b0 x y (new 3) (v.planes 3)
four_planes b0 b1 b2 b3 x y v (h0, h1, h2, h3) =
    let one : (ℕ → ℕ → ℕ) = add_bit b3 0 x y v.planes in
    let two : (ℕ → ℕ → ℕ) = add_bit b2 1 x y one in
    let three : (ℕ → ℕ → ℕ) = add_bit b1 2 x y two in
    let o1 : one 1 ≡ v.planes 1 = add_bit_other b3 0 1 x y v.planes (omega arith) in
    let o2 : two 2 ≡ v.planes 2 =
      add_bit_other b2 1 2 x y one (omega arith)
      ∙ add_bit_other b3 0 2 x y v.planes (omega arith) in
    let o3 : three 3 ≡ v.planes 3 =
      add_bit_other b1 2 3 x y two (omega arith)
      ∙ add_bit_other b2 1 3 x y one (omega arith)
      ∙ add_bit_other b3 0 3 x y v.planes (omega arith) in
    let n0 : add_bit b0 3 x y three 0 ≡ one 0 =
      add_bit_other b0 3 0 x y three (omega arith)
      ∙ add_bit_other b1 2 0 x y two (omega arith)
      ∙ add_bit_other b2 1 0 x y one (omega arith) in
    let n1 : add_bit b0 3 x y three 1 ≡ two 1 =
      add_bit_other b0 3 1 x y three (omega arith) ∙ add_bit_other b1 2 1 x y two (omega arith) in
    let n2 : add_bit b0 3 x y three 2 ≡ three 2 = add_bit_other b0 3 2 x y three (omega arith) in
    (
      rw n0 (add_bit_self b3 0 x y v.planes h0),
      subst (λ f. Turned b2 x y (add_bit b0 3 x y three 1) f) o1
          (rw n1 (add_bit_self b2 1 x y one (rw o1 h1))),
      subst (λ f. Turned b1 x y (add_bit b0 3 x y three 2) f) o2
          (rw n2 (add_bit_self b1 2 x y two (rw o2 h2))),
      subst (λ f. Turned b0 x y (add_bit b0 3 x y three 3) f) o3
          (add_bit_self b0 3 x y three (rw o3 h3)),
    )

-- Where the colour of four bits is black, turning the bits of `colour` gives it, and where it is
-- `colour`, turning them gives black.
flipped :
    (colour p q r s : ℕ)
    → colour < 16
    → p < 2
    → q < 2
    → r < 2
    → s < 2
    → let (b0, b1, b2, b3) = colour_bits colour in
      (p + 2 * q + 4 * r + 8 * s ≡ 0
        → flip b3 p + 2 * flip b2 q + 4 * flip b1 r + 8 * flip b0 s ≡ colour)
      × (p + 2 * q + 4 * r + 8 * s ≡ colour
          → flip b3 p + 2 * flip b2 q + 4 * flip b1 r + 8 * flip b0 s ≡ 0)
unfolding colour_bits
flipped colour p q r s c hp hq hr hs = (λ e. ground arith, λ e. ground arith)

setpixel_planes :
    (x y colour : ℕ) (v : Vga)
    → (v.mode == 18) ≡ true
    → let (b0, b1, b2, b3) = colour_bits colour in
      (setpixel x y colour v ≡ record v {
        planes = add_bit b0 3 x y (add_bit b1 2 x y (add_bit b2 1 x y (add_bit b3 0 x y v.planes)));
      })
unfolding setpixel
setpixel_planes x y colour v m =
    let other : (v.mode == 19) ≡ false = ground arith in rw (setpixel, other, m)

-- The two ways of `setpixel` with a pixel, and what it keeps.
setpixel-Turned :
    (x y colour : ℕ) (v : Vga)
    → (v.mode == 18) ≡ true
    → colour < 16
    → AreBytes x y v
    → (colour_at x y v ≡ 0 → colour_at x y (setpixel x y colour v) ≡ colour)
      × (colour_at x y v ≡ colour → colour_at x y (setpixel x y colour v) ≡ 0)
      × AreBytes x y (setpixel x y colour v)
      × (((setpixel x y colour v).mode == 18) ≡ true)
setpixel-Turned x y colour v m c h =
    let (b0, b1, b2, b3) = colour_bits colour in
    let ((e0, f0), (e1, f1), (e2, f2), (e3, f3)) = four_planes b0 b1 b2 b3 x y v h in
    let (to, from) =
      flipped colour (bit_at x y (v.planes 0)) (bit_at x y (v.planes 1)) (bit_at x y (v.planes 2))
        (bit_at x y (v.planes 3)) c (omega arith) (omega arith) (omega arith) (omega arith) in
    rw (setpixel_planes x y colour v m, e0, e1, e2, e3) (to, from, (f0, f1, f2, f3), m)

-- In the mode 0x12, where the planes hold bytes, a black pixel gets the colour below 16 that it is
-- drawn in.
pub setpixel_black :
    (x y colour : ℕ) (v : Vga)
    → (v.mode == 18) ≡ true
    → colour < 16
    → AreBytes x y v
    → colour_at x y v ≡ 0
    → colour_at x y (setpixel x y colour v) ≡ colour
setpixel_black x y colour v m c h e = (setpixel-Turned x y colour v m c h).0 e

-- In the mode 0x12, where the planes hold bytes, a black pixel that is drawn twice in one colour below
-- 16 is black again.
pub setpixel_twice :
    (x y colour : ℕ) (v : Vga)
    → (v.mode == 18) ≡ true
    → colour < 16
    → AreBytes x y v
    → colour_at x y v ≡ 0
    → colour_at x y (setpixel x y colour (setpixel x y colour v)) ≡ 0
setpixel_twice x y colour v m c h e =
    let (to, from, h', m') = setpixel-Turned x y colour v m c h in
    (setpixel-Turned x y colour (setpixel x y colour v) m' c h').1 (to e)
