-- ===== src/Screen/Offscreen.antt =====
-- console.c: what is printed while a graphics mode is on, and the return to the text mode.
use sys_prog_assessment.Prelude.{
  ℕ, update, ◌-◌, ◌%◌, ◌^◌, ◌<◌, true, false, List, [], ◌∷◌, ◌==◌, ok, ◌≡◌, refl, arith, All, ◌∙◌,
  ap, Bool-cases, inl, inr,
}
use sys_prog_assessment.Screen.{
  Screen, backspace, text_mode, cell, put_text, put_copy, cgaputc, consolewrite, advance, scroll,
  snapshot_text_restore, consolevgamode,
}
use sys_prog_assessment.Screen.Cells.{glyph, Shows, put_text-Kept, put_copy-Kept}

-- Printed text: what is printed has no backspace.
abbrev pub IsPlain : List ℕ → Type 0
IsPlain cs = All (λ c. (c == backspace) ≡ false) cs

consolewrite-next :
    (c : ℕ) (cs : List ℕ) (s : Screen) {s' : Screen}
    → cgaputc c s ≡ ok s'
    → consolewrite (c ∷ cs) s ≡ consolewrite cs s'
unfolding consolewrite
consolewrite-next c cs s h = rw (consolewrite, h)

cgaputc-text : (c : ℕ) (s : Screen) → (s.mode == text_mode) ≡ true → cgaputc c s ≡ put_text c s
unfolding cgaputc
cgaputc-text c s h = ground (arith, h)

cgaputc-copy : (c : ℕ) (s : Screen) → (s.mode == text_mode) ≡ false → cgaputc c s ≡ put_copy c s
unfolding cgaputc
cgaputc-copy c s h = ground (arith, h)

consolewrite-Text :
    (cs : List ℕ) (s : Screen)
    → (s.mode == text_mode) ≡ true
    → s.cursor < 1920
    → (s' : Screen) × (consolewrite cs s ≡ ok s')
      × (s'.cursor < 1920)
      × (s'.copy ≡ s.copy)
      × (s'.cursor_pos ≡ s.cursor_pos)
unfolding consolewrite
consolewrite-Text [] s m h = (s, refl, h, refl, refl)
consolewrite-Text (c ∷ cs) s m h =
    let (s', e, b, p, q, n) = put_text-Kept c s h in
    let (u, f, b', p', q') = consolewrite-Text cs s' (rw (n, m)) b in
    (u, consolewrite-next c cs s (cgaputc-text c s m ∙ e) ∙ f, b', p' ∙ p, q' ∙ q)

consolewrite-Graphics :
    (cs : List ℕ) (s : Screen)
    → (s.mode == text_mode) ≡ false
    → s.cursor_pos < 1920
    → (s' : Screen) × (consolewrite cs s ≡ ok s')
      × (s'.cursor_pos < 1920)
      × (s'.crt ≡ s.crt)
      × (s'.cursor ≡ s.cursor)
unfolding consolewrite
consolewrite-Graphics [] s m h = (s, refl, h, refl, refl)
consolewrite-Graphics (c ∷ cs) s m h =
    let (s', e, b, p, q, n) = put_copy-Kept c s h in
    let (u, f, b', p', q') = consolewrite-Graphics cs s' (rw (n, m)) b in
    (u, consolewrite-next c cs s (cgaputc-copy c s m ∙ e) ∙ f, b', p' ∙ p, q' ∙ q)

-- Where both cursors are in the first 24 rows, whatever is printed, backspaces too, does not panic and
-- leaves them there.
pub consolewrite-InScreen :
    (cs : List ℕ) (s : Screen)
    → s.cursor < 1920
    → s.cursor_pos < 1920
    → (s' : Screen) × (consolewrite cs s ≡ ok s') × (s'.cursor < 1920) × (s'.cursor_pos < 1920)
consolewrite-InScreen cs s h k = elim (Bool-cases (s.mode == text_mode)) [
  | inl m ↦ let (s', e, b, p, q) = consolewrite-Text cs s m h in (s', e, b, omega (arith, q, k))
  | inr m ↦ let (s', e, b, p, q) = consolewrite-Graphics cs s m k in (s', e, omega (arith, q, h), b)
]

-- In the text mode, with the cursor in the first 24 rows, whatever is printed, a switch to the text mode
-- shows the snapshot that was there before: what was printed is lost.
pub text_again :
    (memory : ℕ → ℕ) (cs : List ℕ) (s : Screen) (i : ℕ)
    → (s.mode == text_mode) ≡ true
    → s.cursor < 1920
    → i < 2000
    → (s' : Screen) × (consolewrite cs s ≡ ok s')
      × ((consolevgamode memory text_mode s').0.crt i ≡ cell (s.copy i))
      × ((consolevgamode memory text_mode s').0.cursor ≡ s.cursor_pos % 2 ^ 16)
unfolding consolevgamode snapshot_text_restore
text_again memory cs s i m h k =
    let (s', e, b, p, q) = consolewrite-Text cs s m h in
    let same : s'.copy i ≡ s.copy i = ap (λ f. f i) p in
    (s', e, ground (arith, same), ground (arith, q))

-- For a text screen and a copy that show the same, with the cursor not at the first cell: a backspace
-- in the text mode blanks the cell that the cursor goes back to; one that is printed
-- while a graphics mode is on leaves its glyph on the screen after the return to the text mode.
pub backspace_stays :
    (memory : ℕ → ℕ) (s t : Screen)
    → (s.mode == text_mode) ≡ true
    → (t.mode == text_mode) ≡ false
    → Shows s t
    → 0 < s.cursor
    → (s' t' : Screen) × (cgaputc backspace s ≡ ok s')
      × (cgaputc backspace t ≡ ok t')
      × (glyph (s'.crt (s.cursor - 1)) ≡ 32)
      × (glyph ((consolevgamode memory text_mode t').0.crt (s.cursor - 1))
          ≡ glyph (s.crt (s.cursor - 1)))
unfolding consolevgamode snapshot_text_restore cgaputc put_text put_copy scroll advance
backspace_stays memory s t m n (e, (l, same, blank)) h = (
  record s { crt = update s.crt (s.cursor - 1) (cell 32); cursor = s.cursor - 1 },
  record t { cursor_pos = t.cursor_pos - 1 },
  ground arith,
  ground arith,
  ground arith,
  ground (arith, same (s.cursor - 1)),
)
