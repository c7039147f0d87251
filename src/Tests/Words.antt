-- ===== src/Tests/Words.antt =====
-- Alignment, bits, and printed numbers.
use bolgenos_ng.Base.{true, [], ◌∷◌, ◌≡◌, refl}
use bolgenos_ng.Utils.BitArray.{BitArray}
use bolgenos_ng.Utils.Ostream.{
  Ostream, dec_flag, show_numerical_value, digit_loop, to_printable, unsigned_value, is_negative,
  at_least_zero, add_sign, put_reversed, fill_field, put,
}
use bolgenos_ng.Memory.Machine.{ok}
use bolgenos_ng.Tests.World.{map_bytes}

abbrev bits : BitArray
bits = record { size = 16; bytes = map_bytes }

-- A field of 8 characters that is filled with zeroes.
abbrev stream : Ostream
stream = record { text = 62 ∷ []; format = dec_flag; width = 8; fillch = 48 }

minus_42 :
    show_numerical_value stream 32 true 4294967254
    ≡ ok (record stream { text = 62 ∷ 48 ∷ 48 ∷ 48 ∷ 48 ∷ 48 ∷ 45 ∷ 52 ∷ 50 ∷ [] })
unfolding show_numerical_value digit_loop to_printable unsigned_value is_negative at_least_zero
    add_sign put_reversed fill_field put
minus_42 = refl
