-- ===== src/Utils/Ostream/Numbers.antt =====
-- The numbers that kernel/libkernelcxx/src/ostream.cpp prints.
use bolgenos_ng.Base.{
  ℕ, zero, suc, ◌+◌, ◌-◌, ◌*◌, ◌/◌, ◌%◌, ◌^◌, ◌≤◌, ◌<◌, bit_and, ◌≡◌, refl, sym, subst, ap, ◌∙◌,
  Bool, true, false, ◌&&◌, List, [], ◌∷◌, ◌++◌, arith, ltb, ◌==◌, if◌then◌else◌, length, replicate,
  Bool-cases, ℕ_discrete, inl, inr,
}
use mathlib.Core.List.{append_assoc, append-nil}
use native.Mathlib.Nat.{
  div-add-mod, div-lt_iff_lt-mul, mod-lt, pow-suc, pow-zero, one-le-pow, pow-le-pow_right,
}
use bolgenos_ng.Memory.Machine.{ok, Returns, Returns-bind}
use bolgenos_ng.Utils.Ostream.{
  Ostream, put, fill_field, to_printable, digit_loop, at_least_zero, add_sign, put_reversed,
  is_negative, unsigned_value, show_numerical_value, max_dec_length, basefield, hex_flag, dec_flag,
}

-- What a printed digit stands for, and what a buffer of digits does, the lowest first.
abbrev pub digit_value : ℕ → ℕ
digit_value c = if ltb c 58 then c - 48 else c - 87

abbrev pub number : (base : ℕ) → List ℕ → ℕ
number base [] = 0
number base (c ∷ digits) = digit_value c + base * number base digits

digit_value-to_printable : (d : ℕ) → d < 16 → digit_value (to_printable d) ≡ d
unfolding to_printable
digit_value-to_printable d small = ground arith

no_digits : (room base : ℕ) → digit_loop room base 0 ≡ ok []
unfolding digit_loop
no_digits zero base = refl
no_digits (suc room) base = refl

-- With room for `k` digits and more, the buffer holds the digits of a value below `base ^ k`, at
-- most `k` of them.
digit_loop_lem :
    (k room base value : ℕ)
    → 2 ≤ base
    → base ≤ 16
    → k ≤ room
    → value < base ^ k
    → Returns
        (λ digits. (number base digits ≡ value) × (length digits ≤ k))
        (digit_loop room base value)
unfolding digit_loop
digit_loop_lem zero room base value large small enough fits =
    let none : value ≡ 0 = omega (arith, pow-zero base) in
    rw (none, no_digits room base) (refl, omega arith)
digit_loop_lem (suc k) zero base value large small enough fits = absurd (omega arith)
digit_loop_lem (suc k) (suc room) base value large small enough fits = elim (ℕ_discrete value 0) [
  | yes e ↦ rw e (refl, omega arith)
  | no ne ↦
      let t : (value == 0) ≡ false = ground arith in
      let positive : 0 < base = omega arith in
      let next : value / base < base ^ k =
        (div-lt_iff_lt-mul positive).1 (grind (arith, pow-suc base k)) in
      rw t (
        Returns-bind (λ digits. (number base digits ≡ value / base) × (length digits ≤ k)) _
          (digit_loop room base (value / base)) _
          (digit_loop_lem k room base (value / base) large small (omega arith) next)
          λ digits post. (
            omega (
              arith,
              digit_value-to_printable (value % base) (omega (arith, mod-lt value positive)),
              div-add-mod value base,
              ap (λ (t : ℕ). base * t) post.0,
            ),
            omega (arith, post.1),
          ))
]

-- The text of a buffer that is put from its end.
abbrev pub reversed : List ℕ → List ℕ
reversed [] = []
reversed (c ∷ buffer) = reversed buffer ++ c ∷ []

-- Only the text of a stream has changed, by what is added.
pub record Added (s : Ostream) (more : List ℕ) (s' : Ostream) : Type 0 where
  pub text : s'.text ≡ s.text ++ more
  pub kept : (s'.format ≡ s.format) × (s'.width ≡ s.width) × (s'.fillch ≡ s.fillch)

put_reversed-Added :
    (s : Ostream) (buffer : List ℕ) → Added s (reversed buffer) (put_reversed s buffer)
unfolding put_reversed put
put_reversed-Added s [] = record { text = sym (append-nil s.text); kept = (refl, refl, refl) }
put_reversed-Added s (c ∷ buffer) =
    let ih = put_reversed-Added s buffer in
    record {
      text = ap (λ t. t ++ c ∷ []) ih.text ∙ append_assoc s.text (reversed buffer) (c ∷ []);
      kept = ih.kept;
    }

pub fill_field-Added :
    (width have : ℕ) (s : Ostream)
    → Added s (replicate (width - have) s.fillch) (fill_field width have s)
unfolding fill_field put
fill_field-Added zero have s =
    let none : 0 - have ≡ 0 = omega arith in
    rw none (record { text = sym (append-nil s.text); kept = (refl, refl, refl) })
fill_field-Added (suc width) have s = elim (Bool-cases (ltb have (suc width))) [
  | inl e ↦
      let ih = fill_field-Added width have (put s s.fillch) in
      let count : suc width - have ≡ suc (width - have) = ground (arith, e) in
      rw (e, count)
        (record {
          text = ih.text ∙ append_assoc s.text (s.fillch ∷ []) (replicate (width - have) s.fillch);
          kept = ih.kept;
        })
  | inr e ↦
      let none : suc width - have ≡ 0 = ground (arith, e) in
      rw (e, none) (record { text = sym (append-nil s.text); kept = (refl, refl, refl) })
]

-- How a number stands in the text: the field is filled up, a sign comes first where the number is
-- printed in decimal and is negative, and the digits, of which there are 1 to 20, have its value.
pub record Printed (s : Ostream) (bits : ℕ) (signed : Bool) (value : ℕ) (s' : Ostream)
    : Type 0 where
  pub digits : List ℕ
  pub sign : List ℕ
  pub signs : sign ≡ (
      if bit_and s.format basefield == dec_flag && is_negative bits signed value
      then 45 ∷ []
      else [])
  pub value_of :
      number (if bit_and s.format basefield == hex_flag then 16 else 10) digits
      ≡ unsigned_value (bit_and s.format basefield == hex_flag) bits signed value
  pub count : (1 ≤ length digits) × (length digits ≤ 20)
  pub added :
      Added s
        (replicate (s.width - length (digits ++ sign)) s.fillch ++ reversed (digits ++ sign))
        s'

finish-Printed :
    (s : Ostream) (bits : ℕ) (signed : Bool) (value : ℕ) (digits sign : List ℕ)
    → sign ≡ (
        if bit_and s.format basefield == dec_flag && is_negative bits signed value
        then 45 ∷ []
        else [])
    → number (if bit_and s.format basefield == hex_flag then 16 else 10) digits
      ≡ unsigned_value (bit_and s.format basefield == hex_flag) bits signed value
    → (1 ≤ length digits) × (length digits ≤ 20)
    → Printed s bits signed value
        (put_reversed (fill_field s.width (length (digits ++ sign)) s) (digits ++ sign))
finish-Printed s bits signed value digits sign signs value_of count =
    let filled = fill_field-Added s.width (length (digits ++ sign)) s in
    let put_all =
      put_reversed-Added (fill_field s.width (length (digits ++ sign)) s) (digits ++ sign) in
    record {
      digits = digits;
      sign = sign;
      signs = signs;
      value_of = value_of;
      count = count;
      added = record {
        text =
            put_all.text
            ∙ ap (λ t. t ++ reversed (digits ++ sign)) filled.text
            ∙ append_assoc s.text (replicate (s.width - length (digits ++ sign)) s.fillch)
                (reversed (digits ++ sign));
        kept = (
          put_all.kept.0 ∙ filled.kept.0,
          put_all.kept.1 ∙ filled.kept.1,
          put_all.kept.2 ∙ filled.kept.2,
        );
      };
    }

at_least_zero_lem :
    (base : ℕ) (digits : List ℕ)
    → length digits ≤ 20
    → (number base (at_least_zero digits) ≡ number base digits)
      × (1 ≤ length (at_least_zero digits))
      × (length (at_least_zero digits) ≤ 20)
unfolding at_least_zero
at_least_zero_lem base [] short = (omega arith, omega arith, omega arith)
at_least_zero_lem base (c ∷ digits) short = (refl, omega arith, short)

module _ (bits : ℕ) (signed : Bool) (value : ℕ) (some : 1 ≤ bits) (few : bits ≤ 64)
    (in_bits : value < 2 ^ bits) where
  magnitude-lt : (hexadecimal : Bool) → unsigned_value hexadecimal bits signed value < 2 ^ bits
  unfolding unsigned_value
  magnitude-lt true = in_bits
  magnitude-lt false = elim (Bool-cases (is_negative bits signed value)) [
    | inl e ↦ rw e (mod-lt (2 ^ bits - value) (one-le-pow bits 2 (omega arith)))
    | inr e ↦ rw e in_bits
  ]

  abbrev base_of : Bool → ℕ
  base_of hexadecimal = if hexadecimal then 16 else 10

  room :
      (hexadecimal : Bool) → unsigned_value hexadecimal bits signed value < base_of hexadecimal ^ 20
  room true = omega (arith, magnitude-lt true, pow-le-pow_right {n = 2} (omega arith) few)
  room false = omega (arith, magnitude-lt false, pow-le-pow_right {n = 2} (omega arith) few)

  loop :
      (hexadecimal : Bool)
      → Returns
          (λ digits.
            (number (base_of hexadecimal) digits ≡ unsigned_value hexadecimal bits signed value)
            × (length digits ≤ 20))
          (digit_loop max_dec_length
            (base_of hexadecimal)
            (unsigned_value hexadecimal bits signed value))
  loop true = digit_loop_lem 20 21 16 _ (omega arith) (omega arith) (omega arith) (room true)
  loop false = digit_loop_lem 20 21 10 _ (omega arith) (omega arith) (omega arith) (room false)

  pub show_numerical_value-Printed :
      (s : Ostream)
      → Returns (Printed s bits signed value) (show_numerical_value s bits signed value)
  unfolding show_numerical_value add_sign
  show_numerical_value-Printed s =
      let hexadecimal = bit_and s.format basefield == hex_flag in
      Returns-bind
        (λ digits.
          (number (base_of hexadecimal) digits ≡ unsigned_value hexadecimal bits signed value)
          × (length digits ≤ 20))
        _
        (digit_loop max_dec_length (base_of hexadecimal)
          (unsigned_value hexadecimal bits signed value))
        _ (loop hexadecimal)
        λ digits post.
          let (same, positive, short) = at_least_zero_lem (base_of hexadecimal) digits post.1 in
          elim (Bool-cases
            (bit_and s.format basefield == dec_flag && is_negative bits signed value)) [
              | inl e ↦
                  let space : ltb (length (at_least_zero digits)) max_dec_length ≡ true =
                    ground arith in
                  rw (e, space)
                    (finish-Printed s bits signed value (at_least_zero digits) (45 ∷ []) (rw e refl)
                      (same ∙ post.0) (positive, short))
              | inr e ↦ rw e (
                  subst
                    (λ buffer.
                      Printed s bits signed value
                        (put_reversed (fill_field s.width (length buffer) s) buffer))
                    (append-nil (at_least_zero digits))
                    (finish-Printed s bits signed value (at_least_zero digits) [] (rw e refl)
                      (same ∙ post.0) (positive, short)))
            ]
