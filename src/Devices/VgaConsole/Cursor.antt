-- ===== src/Devices/VgaConsole/Cursor.antt =====
-- The cursor of kernel/devices/src/vga_console.cpp.
use bolgenos_ng.Base.{
  ℕ, ◌+◌, ◌*◌, ◌<◌, ◌≡◌, ◌≢◌, refl, ◌∙◌, List, [], ◌∷◌, arith, ◌==◌, if◌then◌else◌, length, get_or,
  set, length-set, get_or-set_self, get_or-set_ne, ℕ_discrete, true, false, ◌&&◌, ltb, sym,
}
use bolgenos_ng.Devices.VgaConsole.{
  Color, Cell, blank, Console, outside, screen_height, screen_width, lf, cr, scroll, new_line,
  line_break, carriage_return, cursor_next, cursor_address, putc_color, puts_color,
}
use bolgenos_ng.Devices.VgaConsole.Scroll.{scrolled, scroll_lem, length-scroll}

-- The screen has its 25 × 80 cells and the cursor is on it.
pub record OnScreen (s : Console) : Type 0 where
  pub full : length s.cells ≡ screen_height * screen_width
  pub line_low : s.line < screen_height
  pub column_low : s.column < screen_width

-- A console whose cursor may have passed the end of its line.
pub record Passing (s : Console) : Type 0 where
  pub full : length s.cells ≡ screen_height * screen_width
  pub line_low : s.line < screen_height

new_line-Passing : (s : Console) → Passing s → Passing (new_line s)
unfolding new_line scroll
new_line-Passing s inv = elim (ℕ_discrete s.line 24) [
  | yes e ↦
      rw e (record {
        full = length-scroll (record s { line = 24 }) ∙ inv.full;
        line_low = omega arith;
      })
  | no ne ↦
      let t : (s.line + 1 == 25) ≡ false = ground arith in
      rw t (record { full = inv.full; line_low = omega (arith, inv.line_low) })
]

line_break-OnScreen : (s : Console) → Passing s → OnScreen (line_break s)
unfolding line_break carriage_return
line_break-OnScreen s inv =
    let p = new_line-Passing s inv in
    record { full = p.full; line_low = p.line_low; column_low = omega arith }

advance-OnScreen : (s : Console) → OnScreen s → OnScreen (cursor_next s)
unfolding cursor_next
advance-OnScreen s inv = elim (ℕ_discrete s.column 79) [
  | yes e ↦ rw e (
      line_break-OnScreen (record s { column = 79 + 1 })
        (record { full = inv.full; line_low = inv.line_low }))
  | no ne ↦
      let t : (s.column + 1 == 80) ≡ false = ground arith in
      rw t (record {
        full = inv.full;
        line_low = inv.line_low;
        column_low = omega (arith, inv.column_low);
      })
]

-- From a cursor on the screen, printing any character keeps the number of cells and the cursor on
-- the screen.
pub putc_color-OnScreen :
    (s : Console) (symbol : ℕ) (fg bg : Color) → OnScreen s → OnScreen (putc_color s symbol fg bg)
unfolding putc_color carriage_return
putc_color-OnScreen s symbol fg bg inv = elim (ℕ_discrete symbol lf) [
  | yes e ↦ rw e (line_break-OnScreen s (record { full = inv.full; line_low = inv.line_low }))
  | no ne ↦ elim (ℕ_discrete symbol cr) [
    | yes e ↦ rw e (record { full = inv.full; line_low = inv.line_low; column_low = omega arith })
    | no ne' ↦
        let t : (symbol == 10) ≡ false = ground arith in
        let u : (symbol == 13) ≡ false = ground arith in
        rw (t, u)
          (advance-OnScreen _ (record {
            full =
                length-set s.cells (cursor_address s) (record { ch = symbol; fg = fg; bg = bg })
                ∙ inv.full;
            line_low = inv.line_low;
            column_low = inv.column_low;
          }))
  ]
]

-- From a cursor on the screen, printing any string keeps the number of cells and the cursor on the
-- screen.
pub puts_color-OnScreen :
    (s : Console) (string : List ℕ) (fg bg : Color)
    → OnScreen s
    → OnScreen (puts_color s string fg bg)
unfolding puts_color
puts_color-OnScreen s [] fg bg inv = inv
puts_color-OnScreen s (c ∷ string) fg bg inv =
    puts_color-OnScreen (putc_color s c fg bg) string fg bg (putc_color-OnScreen s c fg bg inv)

-- The cell at a line and a column.
abbrev pub view : Console → (line column : ℕ) → Cell
view s line column = get_or s.cells (line * screen_width + column) outside

-- The screen with the character at the cursor.
abbrev pub typed : Console → (symbol : ℕ) (fg bg : Color) (line column : ℕ) → Cell
typed s symbol fg bg line column =
    if line == s.line && column == s.column
    then record { ch = symbol; fg = fg; bg = bg }
    else view s line column

-- The console with the character written, before the cursor moves.
abbrev written : Console → (symbol : ℕ) (fg bg : Color) → Console
written s symbol fg bg = record s {
  cells = set s.cells (s.line * 80 + s.column) (record { ch = symbol; fg = fg; bg = bg });
}

view-written :
    (s : Console) (symbol : ℕ) (fg bg : Color) (line column : ℕ)
    → OnScreen s
    → line < screen_height
    → column < screen_width
    → view (written s symbol fg bg) line column ≡ typed s symbol fg bg line column
view-written s symbol fg bg line column inv low narrow =
    let cell : Cell = record { ch = symbol; fg = fg; bg = bg } in
    let small = inv.column_low in
    let low' = inv.line_low in
    elim (ℕ_discrete (s.line * 80 + s.column) (line * 80 + column)) [
      | yes e ↦
          let t : (line == s.line) ≡ true = ground arith in
          let u : (column == s.column) ≡ true = ground arith in
          rw (t, u, sym e)
            (get_or-set_self s.cells (s.line * 80 + s.column) cell outside
              (omega (arith, inv.full)))
      | no ne ↦
          let t : (line == s.line && column == s.column) ≡ false = ground arith in
          rw t (get_or-set_ne s.cells (s.line * 80 + s.column) (line * 80 + column) cell outside ne)
    ]

-- What an ordinary character does to the screen and the cursor.
pub record Typed (s : Console) (symbol : ℕ) (fg bg : Color) (s' : Console) : Type 0 where
  -- The screen scrolls only after the last cell.
  pub shows :
      (line column : ℕ)
      → line < screen_height
      → column < screen_width
      → view s' line column ≡ (
          if s.column + 1 == screen_width && s.line + 1 == screen_height
          then (if line + 1 == screen_height
              then blank s.fg s.bg
              else typed s symbol fg bg (line + 1) column)
          else typed s symbol fg bg line column)
  pub cursor_line : s'.line ≡ (
      if s.column + 1 == screen_width && ltb (s.line + 1) screen_height then s.line + 1 else s.line)
  pub cursor_column : s'.column ≡ (if s.column + 1 == screen_width then 0 else s.column + 1)

view-scroll :
    (s : Console) (line column : ℕ)
    → OnScreen s
    → line < screen_height
    → column < screen_width
    → view (scroll s) line column ≡ scrolled s line column
view-scroll s line column inv low narrow = scroll_lem s line column inv.full low narrow

-- Where the cursor goes on from a written screen.
advance-last :
    (s : Console)
    → s.column ≡ 79
    → s.line ≡ 24
    → cursor_next s ≡ carriage_return (scroll (record s { line = 24; column = 80 }))
unfolding cursor_next line_break new_line
advance-last s e f = rw (e, f) refl

advance-wrap :
    (s : Console)
    → s.column ≡ 79
    → s.line < 24
    → cursor_next s ≡ record s { line = s.line + 1; column = 0 }
unfolding cursor_next line_break new_line carriage_return
advance-wrap s e f = let t : (s.line + 1 == 25) ≡ false = ground arith in rw (e, t) refl

advance-on : (s : Console) → s.column < 79 → cursor_next s ≡ record s { column = s.column + 1 }
unfolding cursor_next
advance-on s f = let t : (s.column + 1 == 80) ≡ false = ground arith in rw t refl

putc_color-ordinary :
    (s : Console) (symbol : ℕ) (fg bg : Color)
    → symbol ≢ lf
    → symbol ≢ cr
    → putc_color s symbol fg bg ≡ cursor_next (written s symbol fg bg)
unfolding putc_color cursor_address
putc_color-ordinary s symbol fg bg n m =
    let t : (symbol == 10) ≡ false = ground arith in
    let u : (symbol == 13) ≡ false = ground arith in rw (t, u) refl

shows_scrolled :
    (s : Console) (symbol : ℕ) (fg bg : Color) (line column : ℕ)
    → OnScreen s
    → line < screen_height
    → column < screen_width
    → view (scroll (record (written s symbol fg bg) { line = 24; column = 80 })) line column ≡ (
        if line + 1 == screen_height
        then blank s.fg s.bg
        else typed s symbol fg bg (line + 1) column)
shows_scrolled s symbol fg bg line column inv low narrow =
    let step =
      scroll_lem (record (written s symbol fg bg) { line = 24; column = 80 }) line column
        (length-set s.cells _ _ ∙ inv.full) low narrow in
    elim (ℕ_discrete line 24) [
      | yes e ↦ step ∙ rw e refl
      | no ne ↦
          let t : (line + 1 == 25) ≡ false = ground arith in
          step ∙ rw t (view-written s symbol fg bg (line + 1) column inv (omega arith) narrow)
    ]

-- From a cursor on the screen, a character other than LF and CR is shown at the cursor in its
-- colours, the other cells keep their contents, and the cursor goes on by one, to the next line
-- after the last column; after the last cell of the screen the lines have moved up by one and the
-- last line is empty.
pub putc_color-Typed :
    (s : Console) (symbol : ℕ) (fg bg : Color)
    → OnScreen s
    → symbol ≢ lf
    → symbol ≢ cr
    → Typed s symbol fg bg (putc_color s symbol fg bg)
unfolding scroll carriage_return
putc_color-Typed s symbol fg bg inv n m =
    let w = written s symbol fg bg in
    let room : OnScreen w = record {
      full = length-set s.cells _ _ ∙ inv.full;
      line_low = inv.line_low;
      column_low = inv.column_low;
    } in
    elim (ℕ_discrete s.column 79) [
      | yes e ↦ elim (ℕ_discrete s.line 24) [
        | yes f ↦
            rw (putc_color-ordinary s symbol fg bg n m, advance-last w e f)
              (record {
                shows = λ line column low narrow.
                    let t : (s.column + 1 == 80 && s.line + 1 == 25) ≡ true = ground arith in
                    rw t (shows_scrolled s symbol fg bg line column inv low narrow);
                cursor_line = ground arith;
                cursor_column = ground arith;
              })
        | no nf ↦
            rw
              (
                putc_color-ordinary s symbol fg bg n m,
                advance-wrap w e (omega (arith, inv.line_low)),
              )
              (record {
                shows = λ line column low narrow.
                    let t : (s.column + 1 == 80 && s.line + 1 == 25) ≡ false = ground arith in
                    rw t (view-written s symbol fg bg line column inv low narrow);
                cursor_line = ground arith;
                cursor_column = ground arith;
              })
      ]
      | no ne ↦
          rw (putc_color-ordinary s symbol fg bg n m, advance-on w (omega (arith, inv.column_low)))
            (record {
              shows = λ line column low narrow.
                  let t : (s.column + 1 == 80 && s.line + 1 == 25) ≡ false = ground arith in
                  rw t (view-written s symbol fg bg line column inv low narrow);
              cursor_line = ground arith;
              cursor_column = ground arith;
            })
    ]
