-- ===== src/Screen/Cells.antt =====
-- console.c: what one character does to the cells of the text screen and of its copy.
use sys_prog_assessment.Prelude.{
  ℕ, ◌+◌, ◌%◌, ◌^◌, ◌≤◌, ◌<◌, false, update, ◌==◌, ltb, if◌then◌else◌, ok, ◌≡◌, refl, arith, dec_lt,
  sym, subst,
}
use sys_prog_assessment.Screen.{
  Screen, backspace, cell, is_control, advance, move_up, clear_from, scroll, put_text, put_copy,
}

-- The characters 0 and 32 are blank in the font.
abbrev pub glyph : ℕ → ℕ
glyph x = if x % 256 == 0 then 32 else x % 256

-- The cells of a screen and of a copy with one cursor: they show the same 24 rows, which are blank
-- from the cursor on.
abbrev pub Alike : (ℕ → ℕ) → (ℕ → ℕ) → ℕ → Type 0
Alike f g pos =
    (pos < 1920)
    × ((i : ℕ) → i < 1920 → glyph (f i) ≡ glyph (g i))
    × ((i : ℕ) → pos ≤ i → i < 1920 → glyph (g i) ≡ 32)

abbrev pub drawn : ℕ → ℕ → (ℕ → ℕ) → ℕ → ℕ
drawn c pos f = if is_control c then f else update f pos (cell c)

abbrev pub drawn_copy : ℕ → ℕ → (ℕ → ℕ) → ℕ → ℕ
drawn_copy c pos f = if is_control c then f else update f pos (cell c % 256)

advance-le : (c pos : ℕ) → pos < 1920 → advance c pos ≤ 1920
unfolding advance
advance-le c pos h = ground arith

pub scroll-lt : (f : ℕ → ℕ) (pos : ℕ) → pos ≤ 1920 → (scroll f pos).1 < 1920
unfolding scroll
scroll-lt f pos h = ground arith

-- Before the scrolling: the cells from the new cursor on are blank.
drawn-Alike :
    (c pos : ℕ) (f g : ℕ → ℕ)
    → (c == backspace) ≡ false
    → Alike f g pos
    → ((i : ℕ) → i < 1920 → glyph (drawn c pos f i) ≡ glyph (drawn_copy c pos g i))
      × ((i : ℕ) → advance c pos ≤ i → i < 1920 → glyph (drawn_copy c pos g i) ≡ 32)
unfolding advance
drawn-Alike c pos f g n (l, same, blank) =
    (λ i h. ground (arith, same i), λ i h k. ground (arith, blank i))

scroll_stays : (f : ℕ → ℕ) (pos : ℕ) → pos < 1920 → scroll f pos ≡ (f, pos)
unfolding scroll
scroll_stays f pos h = ground arith

scroll_moves : (f : ℕ → ℕ) → scroll f 1920 ≡ (clear_from 1840 (move_up f), 1840)
unfolding scroll
scroll_moves f = refl

kept-Alike :
    (f g : ℕ → ℕ) (pos : ℕ)
    → pos < 1920
    → ((i : ℕ) → i < 1920 → glyph (f i) ≡ glyph (g i))
    → ((i : ℕ) → pos ≤ i → i < 1920 → glyph (g i) ≡ 32)
    → Alike (update f pos (cell 32)) g pos
kept-Alike f g pos h same blank = (h, λ i k. ground (arith, same i, blank i), λ i k l. blank i k l)

moved-Alike :
    (f g : ℕ → ℕ)
    → ((i : ℕ) → i < 1920 → glyph (f i) ≡ glyph (g i))
    → Alike (update (clear_from 1840 (move_up f)) 1840 (cell 32)) (clear_from 1840 (move_up g)) 1840
unfolding clear_from move_up
moved-Alike f g same = (omega arith, λ i k. ground (arith, same (i + 80)), λ i k l. ground arith)

scroll-Alike :
    (f g : ℕ → ℕ) (pos : ℕ)
    → pos ≤ 1920
    → ((i : ℕ) → i < 1920 → glyph (f i) ≡ glyph (g i))
    → ((i : ℕ) → pos ≤ i → i < 1920 → glyph (g i) ≡ 32)
    → Alike (update (scroll f pos).0 (scroll f pos).1 (cell 32)) (scroll g pos).0 (scroll f pos).1
unfolding scroll
scroll-Alike f g pos h same blank = elim (dec_lt pos 1920) [
  | yes l ↦
      let p : scroll f pos ≡ (f, pos) = scroll_stays f pos l in
      let q : scroll g pos ≡ (g, pos) = scroll_stays g pos l in
      rw (p, q) (kept-Alike f g pos l same blank)
  | no n ↦ let e : pos ≡ 1920 = omega arith in rw e (moved-Alike f g same)
]

scroll-cursor : (f g : ℕ → ℕ) (pos : ℕ) → (scroll f pos).1 ≡ (scroll g pos).1
unfolding scroll
scroll-cursor f g pos = ground arith

-- A text screen and the off-screen copy of another one show the same.
abbrev pub Shows : Screen → Screen → Type 0
Shows s t = (s.cursor ≡ t.cursor_pos) × Alike s.crt t.copy s.cursor

put_text-eq-ok :
    (c : ℕ) (s : Screen)
    → s.cursor < 1920
    → put_text c s
      ≡ ok (record s {
        crt =
            update
              (scroll (drawn c s.cursor s.crt) (advance c s.cursor)).0
              (scroll (drawn c s.cursor s.crt) (advance c s.cursor)).1
              (cell 32);
        cursor = (scroll (drawn c s.cursor s.crt) (advance c s.cursor)).1;
      })
unfolding put_text
put_text-eq-ok c s h =
    let a = advance-le c s.cursor h in
    let b = scroll-lt (drawn c s.cursor s.crt) (advance c s.cursor) a in
    let low : ltb 2000 (advance c s.cursor) ≡ false = ground arith in
    let small : (scroll (drawn c s.cursor s.crt) (advance c s.cursor)).1 % 2 ^ 16
        ≡ (scroll (drawn c s.cursor s.crt) (advance c s.cursor)).1 =
      omega arith in
    rw (put_text, low, small)

put_copy-eq-ok :
    (c : ℕ) (s : Screen)
    → s.cursor_pos < 1920
    → put_copy c s
      ≡ ok (record s {
        copy = (scroll (drawn_copy c s.cursor_pos s.copy) (advance c s.cursor_pos)).0;
        cursor_pos = (scroll (drawn_copy c s.cursor_pos s.copy) (advance c s.cursor_pos)).1;
      })
unfolding put_copy
put_copy-eq-ok c s h =
    let a = advance-le c s.cursor_pos h in
    let low : ltb 2000 (advance c s.cursor_pos) ≡ false = ground arith in rw (put_copy, low)

-- What `put_copy` leaves, with the cursor at `pos`.
abbrev pub copied : ℕ → Screen → ℕ → Screen
copied c s pos = record s {
  copy = (scroll (drawn_copy c pos s.copy) (advance c pos)).0;
  cursor_pos = (scroll (drawn_copy c pos s.copy) (advance c pos)).1;
}

put_copy-copied :
    (c : ℕ) (s : Screen) (pos : ℕ)
    → s.cursor_pos ≡ pos
    → pos < 1920
    → put_copy c s ≡ ok (copied c s pos)
put_copy-copied c s pos e h =
    subst (λ p. p < 1920 → put_copy c s ≡ ok (copied c s p)) e (put_copy-eq-ok c s) h

-- One character that is not a backspace.
pub put-Shows :
    (c : ℕ) (s t : Screen)
    → (c == backspace) ≡ false
    → Shows s t
    → (s' t' : Screen) × (put_text c s ≡ ok s')
      × (put_copy c t ≡ ok t')
      × Shows s' t'
      × (s'.mode ≡ s.mode)
      × (t'.mode ≡ t.mode)
put-Shows c s t n (e, l) =
    let (same, blank) = drawn-Alike c s.cursor s.crt t.copy n l in
    let a = advance-le c s.cursor l.0 in
    let f = drawn c s.cursor s.crt in
    let g = drawn_copy c s.cursor t.copy in
    (
      record s {
        crt = update (scroll f (advance c s.cursor)).0 (scroll f (advance c s.cursor)).1 (cell 32);
        cursor = (scroll f (advance c s.cursor)).1;
      },
      copied c t s.cursor,
      put_text-eq-ok c s l.0,
      put_copy-copied c t s.cursor (sym e) l.0,
      (scroll-cursor f g (advance c s.cursor), scroll-Alike f g (advance c s.cursor) a same blank),
      refl,
      refl,
    )

-- Any character, on a screen and a copy with the cursor in the first 24 rows.
pub put_text-Kept :
    (c : ℕ) (s : Screen)
    → s.cursor < 1920
    → (s' : Screen) × (put_text c s ≡ ok s')
      × (s'.cursor < 1920)
      × (s'.copy ≡ s.copy)
      × (s'.cursor_pos ≡ s.cursor_pos)
      × (s'.mode ≡ s.mode)
put_text-Kept c s h =
    let b = scroll-lt (drawn c s.cursor s.crt) (advance c s.cursor) (advance-le c s.cursor h) in
    (
      record s {
        crt =
            update (scroll (drawn c s.cursor s.crt) (advance c s.cursor)).0
              (scroll (drawn c s.cursor s.crt) (advance c s.cursor)).1 (cell 32);
        cursor = (scroll (drawn c s.cursor s.crt) (advance c s.cursor)).1;
      },
      put_text-eq-ok c s h,
      b,
      refl,
      refl,
      refl,
    )

pub put_copy-Kept :
    (c : ℕ) (s : Screen)
    → s.cursor_pos < 1920
    → (s' : Screen) × (put_copy c s ≡ ok s')
      × (s'.cursor_pos < 1920)
      × (s'.crt ≡ s.crt)
      × (s'.cursor ≡ s.cursor)
      × (s'.mode ≡ s.mode)
put_copy-Kept c s h =
    let b =
      scroll-lt (drawn_copy c s.cursor_pos s.copy) (advance c s.cursor_pos)
        (advance-le c s.cursor_pos h) in
    (copied c s s.cursor_pos, put_copy-eq-ok c s h, b, refl, refl, refl)
