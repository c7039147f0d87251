-- ===== src/Utils/Ostream.antt =====
-- kernel/libkernelcxx/src/ostream.cpp: formatted output. The stream buffer, which only passes the
-- characters on, is the text that has been put. A number is given by its bits: `bits` of them, with
-- a sign or without.
pub mod Numbers
pub mod Format
use bolgenos_ng.Base.{
  ℕ, zero, suc, ◌+◌, ◌-◌, ◌/◌, ◌%◌, ◌^◌, bit_and, bit_or, Bool, true, false, ◌&&◌, List, [], ◌∷◌,
  ◌++◌, leb, ltb, ◌==◌, if◌then◌else◌, length,
}
use bolgenos_ng.Memory.Machine.{Run, ok, fault, ◌>>=◌}

pub record Ostream : Type 0 where
  pub text : List ℕ
  pub format : ℕ
  pub width : ℕ
  pub fillch : ℕ

-- `fmtflags`.
abbrev pub dec_flag : ℕ
dec_flag = 1

abbrev pub hex_flag : ℕ
hex_flag = 2

abbrev pub basefield : ℕ
basefield = 3

unfoldable pub put : Ostream → ℕ → Ostream
put s c = record s { text = s.text ++ c ∷ [] }

-- The loop of the output of a string, which is the list of its characters without the final 0.
unfoldable pub put_string : Ostream → List ℕ → Ostream
put_string s [] = s
put_string s (c ∷ string) = put_string (put s c) string

unfoldable pub fill_field : (width already_have : ℕ) → Ostream → Ostream
fill_field zero already_have s = s
fill_field (suc width) already_have s =
    let rest = fill_field width already_have (put s s.fillch) in
    if ltb already_have (suc width) then rest else s

unfoldable pub show_string : Ostream → List ℕ → Ostream
show_string s string = put_string (fill_field s.width (length string) s) string

-- `setf(fl, mask)` on 32-bit flags.
unfoldable pub setf : Ostream → (fl mask : ℕ) → Ostream
setf s fl mask = record s { format = bit_or (bit_and s.format (2 ^ 32 - 1 - mask)) fl }

unfoldable pub dec : Ostream → Ostream
dec s = setf s dec_flag basefield

unfoldable pub hex : Ostream → Ostream
hex s = setf s hex_flag basefield

abbrev pub max_dec_length : ℕ
max_dec_length = 21

unfoldable pub to_printable : ℕ → ℕ
to_printable digit = if ltb digit 10 then 48 + digit else 97 + digit - 10

-- The digits in the order in which the loop writes them, with the room that the buffer has left; a
-- write beyond it is a fault.
unfoldable pub digit_loop : (room base value : ℕ) → Run (List ℕ)
digit_loop zero base value = if value == 0 then ok [] else fault
digit_loop (suc room) base value =
    let rest = digit_loop room base (value / base) in
    if value == 0 then ok [] else rest >>= λ digits. ok (to_printable (value % base) ∷ digits)

unfoldable pub at_least_zero : List ℕ → List ℕ
at_least_zero [] = 48 ∷ []
at_least_zero (c ∷ digits) = c ∷ digits

unfoldable pub add_sign : List ℕ → Run (List ℕ)
add_sign buffer = if ltb (length buffer) max_dec_length then ok (buffer ++ 45 ∷ []) else fault

-- The last loop: the buffer from its end.
unfoldable pub put_reversed : Ostream → List ℕ → Ostream
put_reversed s [] = s
put_reversed s (c ∷ buffer) = put (put_reversed s buffer) c

unfoldable pub is_negative : (bits : ℕ) (signed : Bool) (value : ℕ) → Bool
is_negative bits signed value = signed && leb (2 ^ (bits - 1)) value

unfoldable pub unsigned_value : (hexadecimal : Bool) (bits : ℕ) (signed : Bool) (value : ℕ) → ℕ
unsigned_value hexadecimal bits signed value =
    if hexadecimal
    then value
    else if is_negative bits signed value
    then (2 ^ bits - value) % 2 ^ bits
    else value

unfoldable pub show_numerical_value : Ostream → (bits : ℕ) (signed : Bool) (value : ℕ) → Run Ostream
show_numerical_value s bits signed value = do
  let hexadecimal = bit_and s.format basefield == hex_flag
  let decimal = bit_and s.format basefield == dec_flag
  digits ←
      digit_loop max_dec_length (if hexadecimal then 16 else 10)
        (unsigned_value hexadecimal bits signed value)
  let magnitude = at_least_zero digits
  buffer ← (if decimal && is_negative bits signed value then add_sign magnitude else ok magnitude)
  ok (put_reversed (fill_field s.width (length buffer) s) buffer)
