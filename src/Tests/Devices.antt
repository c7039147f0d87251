-- ===== src/Tests/Devices.antt =====
-- The keyboard, the console and the timer.
use bolgenos_ng.Base.{◌≡◌, ◌≢◌, refl, true, false, [], ◌∷◌, arith, set, replicate, length-replicate}
use bolgenos_ng.Memory.Machine.{ok, out_of_fuel}
use bolgenos_ng.Devices.VgaConsole.{Console, black, grey, white, blank, putc_color, puts_color}
use bolgenos_ng.Devices.VgaConsole.Cursor.{OnScreen, Typed, puts_color-OnScreen, putc_color-Typed}
use bolgenos_ng.Devices.Keyboard.{to_printable_key, is_letter, is_digit, punctuation}
use bolgenos_ng.Devices.Keyboard.Key.Code.{code, cast}
use bolgenos_ng.Devices.Ps2.Keyboard.{
  Keyboard, initial, handle_byte, key, is_pressed, pressed, released, wait_state,
}
use bolgenos_ng.Devices.Ps2.Keyboard.Table.{translate}
use bolgenos_ng.Devices.Ps2.Keyboard.Machine.{
  repeats, take, initial-Resting, handle_byte-take, handle_byte-repeats,
}
use bolgenos_ng.Devices.FrequencyDivider.{FrequencyDivider}

-- The cursor is on the last cell of the screen.
abbrev console : Console
console = record {
  cells = replicate 2000 (blank grey black);
  fg = grey;
  bg = black;
  line = 24;
  column = 79;
}

console-OnScreen : OnScreen console
console-OnScreen = record {
  full = length-replicate 2000 (blank grey black);
  line_low = omega arith;
  column_low = omega arith;
}

puts_color-OnScreen_example : OnScreen (puts_color console (72 ∷ 105 ∷ 10 ∷ []) white black)
puts_color-OnScreen_example =
    puts_color-OnScreen console (72 ∷ 105 ∷ 10 ∷ []) white black console-OnScreen

putc_color-Typed_example : Typed console 65 white black (putc_color console 65 white black)
putc_color-Typed_example =
    putc_color-Typed console 65 white black console-OnScreen (omega arith) (omega arith)

-- The byte 0x1c is the key A, 0x12 the left shift.
abbrev fresh : Keyboard
fresh = initial console

fresh_press : repeats fresh 0x1c ≡ false
unfolding initial code translate key is_pressed
fresh_press = refl

handle_byte-take_example : handle_byte 3 fresh 0x1c ≡ ok (take fresh 0x1c)
handle_byte-take_example =
    handle_byte-take 0 fresh 0x1c (initial-Resting console) (omega arith) (λ waits. fresh_press)

abbrev shift_down : Keyboard
shift_down = record {
  state = wait_state;
  key_statuses = set (replicate 126 released) 16 pressed;
  console = console;
}

second_press : repeats shift_down 0x12 ≡ true
unfolding code translate key is_pressed
second_press = refl

handle_byte-repeats_example : handle_byte 1000 shift_down 0x12 ≡ out_of_fuel
handle_byte-repeats_example = handle_byte-repeats 1000 shift_down 0x12 refl second_press

key_nine_prints : to_printable_key (cast 31) ≢ 0
unfolding to_printable_key is_letter is_digit punctuation code cast
key_nine_prints = omega arith

-- 50 software ticks in a second need a counter of 238 on top of a chip that divides by 100.
abbrev slow : FrequencyDivider
slow = record { pit = 100; counter = 238; restart = 238 }
