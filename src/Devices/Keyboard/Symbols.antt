-- ===== src/Devices/Keyboard/Symbols.antt =====
-- The characters of kernel/devices/src/keyboard.cpp.
use bolgenos_ng.Base.{
  ℕ, ◌<◌, ◌≡◌, ◌≢◌, refl, Bool, true, false, not, ◌||◌, arith, ◌==◌, if◌then◌else◌,
}
use bolgenos_ng.Base.Bits.{all_below, all_below_sound}
use bolgenos_ng.Devices.Keyboard.{
  is_letter, is_digit, punctuation, to_printable_key, shifted, apply_lshift,
}
use bolgenos_ng.Devices.Keyboard.Key.{kb_key_max}
use bolgenos_ng.Devices.Keyboard.Key.Code.{code, cast}

-- The character that a key prints, by its number, with the left shift or without.
abbrev pub glyph : (lshift : Bool) → ℕ → ℕ
glyph lshift k =
    if lshift then apply_lshift (to_printable_key (cast k)) else to_printable_key (cast k)

abbrev distinct : Bool → ℕ → ℕ → Bool
distinct lshift i j =
    i == j || to_printable_key (cast i) == 0 || not (glyph lshift i == glyph lshift j)

symbol_table :
    (lshift : Bool)
    → all_below kb_key_max (λ i. all_below kb_key_max (λ j. distinct lshift i j)) ≡ true
unfolding all_below to_printable_key cast is_letter is_digit punctuation code shifted apply_lshift
symbol_table true = refl
symbol_table false = refl

-- Two keys that print the same character, both with shift or both without, are one key.
pub glyph_injective :
    (lshift : Bool) (i j : ℕ)
    → i < kb_key_max
    → j < kb_key_max
    → to_printable_key (cast i) ≢ 0
    → glyph lshift i ≡ glyph lshift j
    → i ≡ j
glyph_injective lshift i j small small' shown same = ground (
  arith,
  all_below_sound kb_key_max (λ j. distinct lshift i j) j small'
      (all_below_sound kb_key_max (λ i. all_below kb_key_max (λ j. distinct lshift i j)) i small
        (symbol_table lshift)),
)
