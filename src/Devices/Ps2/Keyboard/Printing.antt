-- ===== src/Devices/Ps2/Keyboard/Printing.antt =====
-- The loop that prints in kernel/devices/ps2/src/ps2_keyboard_sm.cpp.
use bolgenos_ng.Base.{
  ℕ, zero, suc, ◌+◌, ◌≤◌, ◌<◌, ◌≡◌, ◌≢◌, refl, ap, sym, ◌∙◌, Bool, true, false, not, ◌&&◌, List, [],
  ◌∷◌, arith, ltb, ◌==◌, ltb→lt, length, set, get_or-set_self, get_or-set_ne, ℕ_discrete,
  Bool-cases, length-set, subst, inl, inr, get_or-set_default,
}
use bolgenos_ng.Base.Bits.{all_below, all_below_sound}
use bolgenos_ng.Devices.VgaConsole.{Console, putc}
use bolgenos_ng.Devices.Keyboard.{to_printable_key, is_letter, is_digit, punctuation}
use bolgenos_ng.Devices.Keyboard.Symbols.{glyph}
use bolgenos_ng.Devices.Keyboard.Key.{kb_key_max, kb_key_lshift}
use bolgenos_ng.Devices.Keyboard.Key.Code.{code, cast}
use bolgenos_ng.Devices.Ps2.Keyboard.{KeyStatus, pressed, released, is_pressed, key, print_keys}
use bolgenos_ng.Devices.Ps2.Keyboard.Table.{translate}

-- Whether a key has a character, by its number.
abbrev pub printable : ℕ → Bool
printable k = not (to_printable_key (cast k) == 0)

lshift_hidden : printable 16 ≡ false
unfolding to_printable_key cast is_letter is_digit punctuation code
lshift_hidden = refl

key-set_self :
    (st : List KeyStatus) (k : ℕ) (v : KeyStatus)
    → k < length st
    → key (set st k v) k ≡ is_pressed v
unfolding key
key-set_self st k v less = ap is_pressed (get_or-set_self st k v released less)

key-set_ne : (st : List KeyStatus) (k j : ℕ) (v : KeyStatus) → k ≢ j → key (set st k v) j ≡ key st j
unfolding key
key-set_ne st k j v ne = ap is_pressed (get_or-set_ne st k j v released ne)

-- Setting a key and releasing it leaves a released key as it was.
set-set_released :
    (st : List KeyStatus) (k : ℕ) → key st k ≡ false → set (set st k pressed) k released ≡ st
unfolding key is_pressed
set-set_released [] k e = refl
set-set_released (pressed ∷ st) zero e = cc
set-set_released (released ∷ st) zero e = refl
set-set_released (x ∷ st) (suc k) e = ap (λ t. x ∷ t) (set-set_released st k e)

-- No pressed key from a number on has a character.
abbrev QuietFrom : ℕ → List KeyStatus → Type 0
QuietFrom k st = (j : ℕ) → k ≤ j → key st j ≡ true → printable j ≡ false

print_keys-quiet :
    (left k : ℕ) (lshift : Bool) (st : List KeyStatus) (console : Console)
    → QuietFrom k st
    → print_keys left k lshift st console ≡ (st, console)
unfolding print_keys
print_keys-quiet zero k lshift st console quiet = refl
print_keys-quiet (suc left) k lshift st console quiet =
    let t : (key st k && printable k) ≡ false = elim (Bool-cases (key st k)) [
      | inl e ↦ rw e (quiet k (omega arith) e)
      | inr e ↦ rw e refl
    ] in
    rw t (print_keys-quiet left (k + 1) lshift st console (λ j low. quiet j (omega arith)))

-- Exactly one pressed key has a character: it is printed and released.
print_keys-one :
    (left k p : ℕ) (lshift : Bool) (st : List KeyStatus) (console : Console)
    → k ≤ p
    → p < k + left
    → p < length st
    → key st p ≡ true
    → printable p ≡ true
    → ((j : ℕ) → p ≢ j → key st j ≡ true → printable j ≡ false)
    → print_keys left k lshift st console ≡ (set st p released, putc console (glyph lshift p))
unfolding print_keys
print_keys-one zero k p lshift st console low high fits down shown others = absurd (omega arith)
print_keys-one (suc left) k p lshift st console low high fits down shown others =
    elim (ℕ_discrete p k) [
      | yes e ↦
          let t : (key st k && printable k) ≡ true = rw (sym e, down) shown in
          rw (t, sym e)
            (print_keys-quiet left (p + 1) lshift (set st p released) _ (λ j above on.
              others j (λ e. ground arith)
                (sym (key-set_ne st p j released (λ e. ground arith)) ∙ on)))
      | no ne ↦
          let t : (key st k && printable k) ≡ false = elim (Bool-cases (key st k)) [
            | inl e ↦ rw e (others k ne e)
            | inr e ↦ rw e refl
          ] in
          rw t (
            print_keys-one left (k + 1) p lshift st console (ground arith) (omega arith) fits down
              shown others)
    ]

-- The statuses between bytes: all keys have one, and no pressed key has a character.
pub record Quiet (st : List KeyStatus) : Type 0 where
  pub all : length st ≡ kb_key_max
  pub quiet : (j : ℕ) → key st j ≡ true → printable j ≡ false

-- A key with a character that is pressed on quiet statuses is printed and leaves them as they were.
pub print_pressed :
    (st : List KeyStatus) (p : ℕ) (lshift : Bool) (console : Console)
    → Quiet st
    → p < kb_key_max
    → printable p ≡ true
    → print_keys kb_key_max 0 lshift (set st p pressed) console
      ≡ (st, putc console (glyph lshift p))
unfolding is_pressed
print_pressed st p lshift console q less shown =
    let off : key st p ≡ false = elim (Bool-cases (key st p)) [
      | inl e ↦ absurd (ground (arith, q.quiet p e))
      | inr e ↦ e
    ] in
    print_keys-one kb_key_max 0 p lshift (set st p pressed) console (omega arith) (omega arith)
      (omega (arith, q.all, length-set st p pressed))
      (key-set_self st p pressed (omega (arith, q.all))) shown
      (λ j ne on. q.quiet j (sym (key-set_ne st p j pressed ne) ∙ on))
    ∙ ap (λ t. (t, putc console (glyph lshift p))) (set-set_released st p off)

-- A press of a key without a character leaves the statuses quiet and prints nothing.
pub Quiet-set :
    (st : List KeyStatus) (p : ℕ) → Quiet st → printable p ≡ false → Quiet (set st p pressed)
Quiet-set st p q hidden = record {
  all = length-set st p pressed ∙ q.all;
  quiet = λ j on. elim (ℕ_discrete p j) [
    | yes e ↦ subst (λ t. printable t ≡ false) e hidden
    | no ne ↦ q.quiet j (sym (key-set_ne st p j pressed ne) ∙ on)
  ];
}

-- The state of the left shift is not touched by a key with a character.
pub lshift-set :
    (st : List KeyStatus) (p : ℕ)
    → printable p ≡ true
    → key (set st p pressed) (code kb_key_lshift) ≡ key st (code kb_key_lshift)
unfolding code
lshift-set st p shown = key-set_ne st p 16 pressed (λ e. cc (e, shown, lshift_hidden))

pub Quiet-release : (st : List KeyStatus) (p : ℕ) → Quiet st → Quiet (set st p released)
unfolding key is_pressed
Quiet-release st p q = record {
  all = length-set st p released ∙ q.all;
  quiet = λ j on. elim (ℕ_discrete p j) [
    | yes e ↦ absurd (cc (e, get_or-set_default st p released, on))
    | no ne ↦ q.quiet j (sym (key-set_ne st p j released ne) ∙ on)
  ];
}

pub print_silent :
    (st : List KeyStatus) (lshift : Bool) (console : Console)
    → Quiet st
    → print_keys kb_key_max 0 lshift st console ≡ (st, console)
print_silent st lshift console q =
    print_keys-quiet kb_key_max 0 lshift st console (λ j low. q.quiet j)

-- What the table gives is a key of the enumeration, and the release byte is none.
translate_table : all_below 256 (λ byte. ltb (code (translate byte)) kb_key_max) ≡ true
unfolding all_below code translate
translate_table = refl

pub translate-lt : (byte : ℕ) → byte < 256 → code (translate byte) < kb_key_max
translate-lt byte small =
    ltb→lt _ _
      (all_below_sound 256 (λ b. ltb (code (translate b)) kb_key_max) byte small translate_table)
