-- ===== src/Utils/Ostream/Format.antt =====
-- The operators, setters and manipulators of kernel/libkernelcxx/src/ostream.cpp, and the guard of
-- ext/scoped_format_guard.hpp. A call that answers the stream itself answers the new stream, one
-- that answers an old value answers both.
use bolgenos_ng.Base.{
  ℕ, ◌^◌, ◌≤◌, ◌<◌, ◌≡◌, refl, ◌∙◌, ap, bit_or, Bool, true, false, List, [], ◌∷◌, ◌++◌, arith,
  if◌then◌else◌,
}
use mathlib.Core.List.{append_assoc}
use bolgenos_ng.Memory.Machine.{Run, ok, ◌>>=◌, Returns, Returns-bind, Returns-mono}
use bolgenos_ng.Utils.Ostream.{
  Ostream, put, put_string, fill_field, show_string, show_numerical_value,
}
use bolgenos_ng.Utils.Ostream.Numbers.{Printed, fill_field-Added, show_numerical_value-Printed}

-- The array of characters goes to the buffer as it is.
unfoldable pub write : Ostream → List ℕ → Ostream
write s str = record s { text = s.text ++ str }

unfoldable pub show_char : Ostream → ℕ → Ostream
show_char s val = put (fill_field s.width 1 s) val

unfoldable pub show_bool : Ostream → Bool → Ostream
show_bool s value =
    if value
    then show_string s (116 ∷ 114 ∷ 117 ∷ 101 ∷ [])
    else show_string s (102 ∷ 97 ∷ 108 ∷ 115 ∷ 101 ∷ [])

unfoldable pub show_unsigned_char : Ostream → ℕ → Run Ostream
show_unsigned_char s val = show_numerical_value s 8 false val

unfoldable pub show_short : Ostream → ℕ → Run Ostream
show_short s val = show_numerical_value s 16 true val

unfoldable pub show_unsigned_short : Ostream → ℕ → Run Ostream
show_unsigned_short s val = show_numerical_value s 16 false val

unfoldable pub show_int : Ostream → ℕ → Run Ostream
show_int s val = show_numerical_value s 32 true val

unfoldable pub show_unsigned_int : Ostream → ℕ → Run Ostream
show_unsigned_int s val = show_numerical_value s 32 false val

unfoldable pub show_long : Ostream → ℕ → Run Ostream
show_long s val = show_numerical_value s 32 true val

unfoldable pub show_unsigned_long : Ostream → ℕ → Run Ostream
show_unsigned_long s val = show_numerical_value s 32 false val

-- `size_t` is an unsigned word.
unfoldable pub show_pointer : Ostream → ℕ → Run Ostream
show_pointer s ptr = show_unsigned_int s ptr

unfoldable pub setf_or : Ostream → (fl : ℕ) → Ostream × ℕ
setf_or s fl = (record s { format = bit_or s.format fl }, s.format)

unfoldable pub set_width : Ostream → (wide : ℕ) → Ostream × ℕ
set_width s wide = (record s { width = wide }, s.width)

unfoldable pub set_fill : Ostream → (fillch : ℕ) → Ostream × ℕ
set_fill s fillch = (record s { fillch = fillch }, s.fillch)

unfoldable pub copyfmt : Ostream → (other : Ostream) → Ostream
copyfmt s other = record s { fillch = other.fillch; format = other.format; width = other.width }

unfoldable pub endl : Ostream → Ostream
endl s = put s 10

unfoldable pub setw : Ostream → ℕ → Ostream
setw s n = (set_width s n).0

unfoldable pub setfill : Ostream → ℕ → Ostream
setfill s fillch = (set_fill s fillch).0

-- What stands behind a ScopedFormatGuard up to the end of the block.
unfoldable pub with_format_guard : (Ostream → Run Ostream) → Ostream → Run Ostream
with_format_guard f s = do s' ← f s; ok (copyfmt s' s)

-- `s'` has the text of `s` and some more.
abbrev pub Grown : Ostream → Ostream → Type 0
Grown s s' = (more : List ℕ) × (s'.text ≡ s.text ++ more)

pub Grown-then :
    (s s1 s2 : Ostream) (more : List ℕ) → s2.text ≡ s1.text ++ more → Grown s s1 → Grown s s2
Grown-then s s1 s2 more e (before, e') =
    (before ++ more, e ∙ ap (λ t. t ++ more) e' ∙ append_assoc s.text before more)

put_string-Grown : (s s1 : Ostream) (string : List ℕ) → Grown s s1 → Grown s (put_string s1 string)
unfolding put_string put
put_string-Grown s s1 [] g = g
put_string-Grown s s1 (c ∷ string) g =
    put_string-Grown s (put s1 c) string (Grown-then s s1 (put s1 c) (c ∷ []) refl g)

fill_field-Grown :
    (s s1 : Ostream) (width have : ℕ) → Grown s s1 → Grown s (fill_field width have s1)
fill_field-Grown s s1 width have g =
    let added = fill_field-Added width have s1 in
    Grown-then s s1 (fill_field width have s1) _ added.text g

pub show_string-Grown :
    (s s1 : Ostream) (string : List ℕ) → Grown s s1 → Grown s (show_string s1 string)
unfolding show_string
show_string-Grown s s1 string g = put_string-Grown s _ string (fill_field-Grown s s1 s1.width _ g)

pub show_char-Grown : (s s1 : Ostream) (c : ℕ) → Grown s s1 → Grown s (show_char s1 c)
unfolding show_char put
show_char-Grown s s1 c g =
    Grown-then s (fill_field s1.width 1 s1) (put (fill_field s1.width 1 s1) c) (c ∷ []) refl
      (fill_field-Grown s s1 s1.width 1 g)

-- Printing a number below `bound` returns and adds to the text.
abbrev pub Appends : (bound : ℕ) → (Ostream → ℕ → Run Ostream) → Type 0
Appends bound show =
    (s s1 : Ostream) (val : ℕ) → val < bound → Grown s s1 → Returns (Grown s) (show s1 val)

show_bits-Grown :
    (bits : ℕ)
    → 1 ≤ bits
    → bits ≤ 64
    → Appends (2 ^ bits) (λ s val. show_numerical_value s bits false val)
show_bits-Grown bits some few s s1 val small g =
    Returns-mono (Printed s1 bits false val) (Grown s) _
      (show_numerical_value-Printed bits false val some few small s1)
      λ s2 p. Grown-then s s1 s2 _ p.added.text g

pub show_unsigned_int-Appends : Appends (2 ^ 32) show_unsigned_int
unfolding show_unsigned_int
show_unsigned_int-Appends = show_bits-Grown 32 (omega arith) (omega arith)

pub show_unsigned_short-Appends : Appends (2 ^ 16) show_unsigned_short
unfolding show_unsigned_short
show_unsigned_short-Appends = show_bits-Grown 16 (omega arith) (omega arith)

pub show_pointer-Appends : Appends (2 ^ 32) show_pointer
unfolding show_pointer
show_pointer-Appends = show_unsigned_int-Appends

-- Whatever is printed behind a guard, the format is in the end what it was.
pub with_format_guard-restores :
    (f : Ostream → Run Ostream) (s : Ostream)
    → Returns (Grown s) (f s)
    → Returns
        (λ s'. Grown s s' × (s'.format ≡ s.format) × (s'.width ≡ s.width) × (s'.fillch ≡ s.fillch))
        (with_format_guard f s)
unfolding with_format_guard copyfmt
with_format_guard-restores f s returns =
    Returns-bind (Grown s) _ (f s) _ returns λ s' g. (g, refl, refl, refl)
