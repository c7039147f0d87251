-- ===== src/Devices/VgaConsole.antt =====
-- kernel/devices/src/vga_console.cpp: the text console on the 25 lines of 80 cells at 0xb8000, with
-- `copy_n` and `fill_n` of kernel/libkernelcxx/include/algorithm.hpp on the cells. The globals of
-- the source are the fields of a record, and an iterator is a position among the cells.
pub mod Cursor
pub mod Scroll
use bolgenos_ng.Base.{ℕ, zero, suc, ◌+◌, ◌-◌, ◌*◌, List, [], ◌∷◌, ◌==◌, if◌then◌else◌, get_or, set}

pub data Color : Type 0 where
  black : Color
  blue : Color
  green : Color
  cyan : Color
  red : Color
  magenta : Color
  brown : Color
  grey : Color
  dark_grey : Color
  bright_blue : Color
  bright_green : Color
  bright_cyan : Color
  bright_red : Color
  bright_magenta : Color
  yellow : Color
  white : Color

pub record Cell : Type 0 where
  pub ch : ℕ
  pub fg : Color
  pub bg : Color

pub record Console : Type 0 where
  pub cells : List Cell
  pub fg : Color
  pub bg : Color
  pub line : ℕ
  pub column : ℕ

abbrev pub screen_height : ℕ
screen_height = 25

abbrev pub screen_width : ℕ
screen_width = 80

-- `LF`, `CR` and the space.
abbrev pub lf : ℕ
lf = 10

abbrev pub cr : ℕ
cr = 13

abbrev pub space : ℕ
space = 32

abbrev pub blank : Color → Color → Cell
blank fg bg = record { ch = space; fg = fg; bg = bg }

-- What a read outside the screen gives; no read of this file is outside it.
abbrev pub outside : Cell
outside = blank grey black

unfoldable pub copy_n : List Cell → (first n result : ℕ) → List Cell
copy_n cells first zero result = cells
copy_n cells first (suc n) result =
    copy_n (set cells result (get_or cells first outside)) (first + 1) n (result + 1)

unfoldable pub fill_n : List Cell → (first n : ℕ) → Cell → List Cell
fill_n cells first zero value = cells
fill_n cells first (suc n) value = fill_n (set cells first value) (first + 1) n value

-- The loop of `scroll`, with the rounds that are left.
unfoldable pub shift_lines : (left i : ℕ) → List Cell → List Cell
shift_lines zero i cells = cells
shift_lines (suc left) i cells =
    shift_lines left (i + 1) (copy_n cells ((i + 1) * screen_width) screen_width (i * screen_width))

unfoldable pub scroll : Console → Console
scroll s = record s {
  cells =
      fill_n (shift_lines (screen_height - 1) 0 s.cells) ((screen_height - 1) * screen_width)
        screen_width (blank s.fg s.bg);
}

unfoldable pub carriage_return : Console → Console
carriage_return s = record s { column = 0 }

unfoldable pub new_line : Console → Console
new_line s =
    if s.line + 1 == screen_height
    then scroll (record s { line = screen_height - 1 })
    else record s { line = s.line + 1 }

unfoldable pub line_break : Console → Console
line_break s = carriage_return (new_line s)

unfoldable pub cursor_next : Console → Console
cursor_next s =
    if s.column + 1 == screen_width
    then line_break (record s { column = s.column + 1 })
    else record s { column = s.column + 1 }

unfoldable pub cursor_address : Console → ℕ
cursor_address s = s.line * screen_width + s.column

unfoldable pub putc_color : Console → (symbol : ℕ) → Color → Color → Console
putc_color s symbol fg bg =
    if symbol == lf
    then line_break s
    else if symbol == cr
    then carriage_return s
    else cursor_next (record s {
      cells = set s.cells (cursor_address s) (record { ch = symbol; fg = fg; bg = bg });
    })

unfoldable pub putc : Console → ℕ → Console
putc s symbol = putc_color s symbol s.fg s.bg

-- A string is the list of its characters without the final 0.
unfoldable pub puts_color : Console → List ℕ → Color → Color → Console
puts_color s [] fg bg = s
puts_color s (c ∷ string) fg bg = puts_color (putc_color s c fg bg) string fg bg

unfoldable pub puts : Console → List ℕ → Console
puts s string = puts_color s string s.fg s.bg

unfoldable pub clear_screen : Console → Console
clear_screen s = record s {
  cells = fill_n s.cells 0 (screen_height * screen_width) (blank s.fg s.bg);
}

unfoldable pub set_bg : Console → Color → Console
set_bg s bg = record s { bg = bg }

unfoldable pub set_fg : Console → Color → Console
set_fg s fg = record s { fg = fg }
