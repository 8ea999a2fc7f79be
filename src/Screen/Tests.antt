-- ===== src/Screen/Tests.antt =====
-- console.c: concrete runs of the text screen and its snapshot.
use sys_prog_assessment.Prelude.{ℕ, update, ◌%◌, ◌^◌, ◌<◌, List, [], ◌∷◌, ◌≡◌, refl, ok, arith}
use sys_prog_assessment.Screen.{
  Screen, backspace, newline, text_mode, cell, advance, scroll, put_text, cgaputc, consolewrite,
  consolevgamode,
}
use sys_prog_assessment.Screen.Cells.{glyph}
use sys_prog_assessment.Screen.Offscreen.{consolewrite-InScreen, text_again, backspace_stays}

-- `$ ` on the second row, with the cursor behind it.
abbrev prompt : Screen
prompt = record {
  crt = update (λ i. 0) 80 (cell 36);
  cursor = 82;
  mode = 3;
  copy = λ i. 0;
  cursor_pos = 0;
}

abbrev noise : ℕ → ℕ
noise i = 1793

abbrev text : List ℕ
text = 72 ∷ 105 ∷ 10 ∷ []

consolewrite-InScreen_example :
    (s' : Screen) × (consolewrite (backspace ∷ text) prompt ≡ ok s')
    × (s'.cursor < 1920)
    × (s'.cursor_pos < 1920)
consolewrite-InScreen_example =
    consolewrite-InScreen (backspace ∷ text) prompt (omega arith) (omega arith)

text_again_example :
    (s' : Screen) × (consolewrite text prompt ≡ ok s')
    × ((consolevgamode noise text_mode s').0.crt 80 ≡ cell 0)
    × ((consolevgamode noise text_mode s').0.cursor ≡ 0 % 2 ^ 16)
text_again_example = text_again noise text prompt 80 refl (omega arith) (omega arith)

-- A graphics mode with `$x` in the copy.
abbrev typed : Screen
typed = record prompt { crt = update (update (λ i. 0) 80 (cell 36)) 81 (cell 120) }

abbrev hidden : Screen
hidden = record typed { mode = 19; copy = update (update (λ i. 0) 80 36) 81 120; cursor_pos = 82 }

backspace_stays_example :
    (s' t' : Screen) × (cgaputc backspace typed ≡ ok s')
    × (cgaputc backspace hidden ≡ ok t')
    × (glyph (s'.crt 81) ≡ 32)
    × (glyph ((consolevgamode noise text_mode t').0.crt 81) ≡ 120)
backspace_stays_example =
    backspace_stays noise typed hidden refl refl
      (refl, (omega arith, λ i h. ground arith, λ i h k. ground arith)) (omega arith)

scroll_last :
    cgaputc newline (record prompt { cursor = 1919 })
    ≡ ok (record prompt { crt = update (scroll prompt.crt 1920).0 1840 (cell 32); cursor = 1840 })
unfolding cgaputc put_text advance scroll
scroll_last = refl
