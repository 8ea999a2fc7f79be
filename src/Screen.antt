-- ===== src/Screen.antt =====
-- console.c: the text screen, and its snapshot while a graphics mode is on. What the VGA makes of the
-- text memory when its registers are written is an argument `memory` of `consolevgamode`.
pub mod Cells
pub mod Offscreen
mod Tests
use sys_prog_assessment.Prelude.{
  ℕ, ◌+◌, ◌-◌, ◌*◌, ◌/◌, ◌%◌, ◌^◌, Bool, true, false, not, ◌&&◌, ◌||◌, List, [], ◌∷◌, update, ◌==◌,
  ltb, leb, if◌then◌else◌, Outcome, ok, panic,
}

abbrev pub backspace : ℕ
backspace = 256

abbrev pub newline : ℕ
newline = 10

abbrev pub text_mode : ℕ
text_mode = 3

-- The text memory at 0xB8000, the cursor that the registers 14 and 15 hold, `currentvgamode`, and the
-- fields of `consoleSnapshot`.
pub record Screen : Type 0 where
  pub crt : ℕ → ℕ
  pub cursor : ℕ
  pub mode : ℕ
  pub copy : ℕ → ℕ
  pub cursor_pos : ℕ

-- `(c & 0xff) | 0x0700`: the attribute is above the bits of the character.
abbrev pub cell : ℕ → ℕ
cell c = 1792 + c % 256

-- Where the cursor goes before the screen scrolls.
unfoldable pub advance : ℕ → ℕ → ℕ
advance c pos =
    if c == newline then pos + (80 - pos % 80) else (if c == backspace then pos - 1 else pos + 1)

abbrev pub is_control : ℕ → Bool
is_control c = c == newline || c == backspace

-- `memmove` of 23 rows up by one row.
unfoldable pub move_up : (ℕ → ℕ) → ℕ → ℕ
move_up f i = if ltb i (23 * 80) then f (i + 80) else f i

-- `memset` of the cells from `pos` to the end of row 23.
unfoldable pub clear_from : ℕ → (ℕ → ℕ) → ℕ → ℕ
clear_from pos f i = if leb pos i && ltb i (24 * 80) then 0 else f i

-- The cells and the cursor after the test of the last row.
unfoldable pub scroll : (ℕ → ℕ) → ℕ → (ℕ → ℕ) × ℕ
unfolding move_up clear_from
scroll f pos = if leb 24 (pos / 80) then (clear_from (pos - 80) (move_up f), pos - 80) else (f, pos)

-- `cgaputc` in text mode. `pos` is not negative: it is only decremented above 0.
unfoldable pub put_text : ℕ → Screen → Outcome Screen
unfolding advance scroll
put_text c s =
    let f : (ℕ → ℕ) = (if is_control c then s.crt else update s.crt s.cursor (cell c)) in
    let r = scroll f (advance c s.cursor) in
    if ltb (25 * 80) (advance c s.cursor)
    then panic "pos under/overflow"
    else ok (record s { crt = update r.0 r.1 (cell 32); cursor = r.1 % 2 ^ 16 })

-- `cgaputc` in a graphics mode; a cell of the copy is one byte.
unfoldable pub put_copy : ℕ → Screen → Outcome Screen
unfolding advance scroll
put_copy c s =
    let f : (ℕ → ℕ) =
      (if is_control c then s.copy else update s.copy s.cursor_pos (cell c % 256)) in
    let r = scroll f (advance c s.cursor_pos) in
    if ltb (25 * 80) (advance c s.cursor_pos)
    then panic "pos under/overflow"
    else ok (record s { copy = r.0; cursor_pos = r.1 })

unfoldable pub cgaputc : ℕ → Screen → Outcome Screen
cgaputc c s = if s.mode == text_mode then put_text c s else put_copy c s

-- The loop of `consolewrite`, for any characters that are passed to `consputc`: those of a write are
-- below 256, and BACKSPACE comes from the input. The serial port and the test of `panicked` are left
-- out.
unfoldable pub consolewrite : List ℕ → Screen → Outcome Screen
consolewrite [] s = ok s
consolewrite (c ∷ cs) s = elim (cgaputc c s) [ panic e ↦ panic e | ok s' ↦ consolewrite cs s' ]

unfoldable pub snapshot_text_take : Screen → Screen
snapshot_text_take s =
    if s.mode == text_mode
    then record s {
      copy = λ i. if ltb i 2000 then s.crt i % 256 else s.copy i;
      cursor_pos = s.cursor;
    }
    else s

unfoldable pub snapshot_text_restore : Screen → Screen
snapshot_text_restore s = record s {
  crt = λ i. if ltb i 2000 then cell (s.copy i) else s.crt i;
  cursor = s.cursor_pos % 2 ^ 16;
}

-- The screen, and whether 0 is returned. The cursor registers, which writeVideoRegisters writes too,
-- keep their value here.
unfoldable pub consolevgamode : (ℕ → ℕ) → ℕ → Screen → Screen × Bool
unfolding snapshot_text_take snapshot_text_restore
consolevgamode memory vgamode s =
    if vgamode == text_mode
    then (record (snapshot_text_restore (record s { crt = memory })) { mode = text_mode }, true)
    else (if vgamode == 18 || vgamode == 19
        then (record (snapshot_text_take s) { crt = memory; mode = vgamode }, true)
        else (s, false))
