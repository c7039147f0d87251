-- ===== src/Devices/Ps2/Keyboard/Machine.antt =====
-- The bytes that the state machine of kernel/devices/ps2/src/ps2_keyboard_sm.cpp takes.
use bolgenos_ng.Base.{
  ℕ, zero, suc, ◌<◌, ◌≡◌, refl, ap, Bool, true, false, not, ◌&&◌, List, arith, ◌==◌, if◌then◌else◌,
  set, ℕ_discrete, replicate, length-replicate, Bool-cases, inl, inr, ◌⊎◌,
}
use bolgenos_ng.Memory.Machine.{ok, out_of_fuel}
use bolgenos_ng.Devices.VgaConsole.{Console, putc}
use bolgenos_ng.Devices.Keyboard.Symbols.{glyph}
use bolgenos_ng.Devices.Keyboard.Key.{kb_key_max, kb_key_lshift}
use bolgenos_ng.Devices.Keyboard.Key.Code.{code}
use bolgenos_ng.Devices.Ps2.Keyboard.{
  KeyStatus, pressed, released, is_pressed, initial, key, Keyboard, State, wait_state,
  one_byte_key_pressed, one_byte_key_released, codeset2_1b_release_byte, handle_wait,
  handle_pressed, handle_released, handle_print, handle_error, handle_state, handle_byte,
}
use bolgenos_ng.Devices.Ps2.Keyboard.Table.{translate}
use bolgenos_ng.Devices.Ps2.Keyboard.Printing.{
  printable, Quiet, print_pressed, Quiet-set, Quiet-release, print_silent, lshift-set, translate-lt,
}

-- The key number of a byte, 0 for none.
abbrev pub key_of : ℕ → ℕ
key_of byte = code (translate byte)

-- A machine between two bytes: in one of the two states that a byte can leave it in.
pub record Resting (s : Keyboard) : Type 0 where
  pub between : (s.state ≡ wait_state) ⊎ (s.state ≡ one_byte_key_released)
  pub quiet : Quiet s.key_statuses

-- A byte of a key that is down already, taken while no release is awaited.
abbrev pub repeats : Keyboard → (byte : ℕ) → Bool
repeats s byte = not (key_of byte == 0) && key s.key_statuses (key_of byte)

-- What a byte does to a machine that waits: the machine without its inner states.
abbrev pub take_make : Keyboard → (byte : ℕ) → Keyboard
take_make s byte =
    if byte == codeset2_1b_release_byte
    then record s { state = one_byte_key_released }
    else if key_of byte == 0
    then s
    else if printable (key_of byte)
    then record s {
      console = putc s.console (glyph (key s.key_statuses (code kb_key_lshift)) (key_of byte));
    }
    else record s { key_statuses = set s.key_statuses (key_of byte) pressed }

-- What a byte does to a machine that has seen the release byte.
abbrev pub take_break : Keyboard → (byte : ℕ) → Keyboard
take_break s byte =
    if byte == codeset2_1b_release_byte
    then s
    else if key_of byte == 0
    then record s { state = wait_state }
    else record s { key_statuses = set s.key_statuses (key_of byte) released; state = wait_state }

-- A machine with the state written out.
abbrev at : State → List KeyStatus → Console → Keyboard
at state st console = record { state = state; key_statuses = st; console = console }

release_byte : key_of 240 ≡ 0
unfolding code translate
release_byte = refl

take_break_lem :
    (fuel : ℕ) (st : List KeyStatus) (console : Console) (byte : ℕ)
    → handle_byte (suc (suc fuel)) (at one_byte_key_released st console) byte
      ≡ ok (take_break (at one_byte_key_released st console) byte)
unfolding handle_byte handle_state handle_released handle_error code
take_break_lem fuel st console byte = elim (Bool-cases (byte == 240)) [
  | inl e ↦ rw e refl
  | inr e ↦ elim (Bool-cases (key_of byte == 0)) [ inl f ↦ rw (e, f) refl | inr f ↦ rw (e, f) refl ]
]

take_make_lem :
    (fuel : ℕ) (st : List KeyStatus) (console : Console) (byte : ℕ)
    → Quiet st
    → byte < 256
    → repeats (at wait_state st console) byte ≡ false
    → handle_byte (suc (suc (suc fuel))) (at wait_state st console) byte
      ≡ ok (take_make (at wait_state st console) byte)
unfolding handle_byte handle_state handle_wait handle_released handle_error handle_pressed
    handle_print code
take_make_lem fuel st console byte q small fresh = elim (ℕ_discrete byte 240) [
  | yes e ↦ rw e refl
  | no ne ↦
      let e' : (byte == 240) ≡ false = ground arith in
      elim (Bool-cases (key_of byte == 0)) [
        | inl f ↦ rw (e', f) refl
        | inr f ↦
            let up : key st (key_of byte) ≡ false = ground (arith, f, fresh) in
            elim (Bool-cases (printable (key_of byte))) [
              | inl g ↦
                  let printed =
                    print_pressed st (key_of byte) (key st (code kb_key_lshift)) console q
                      (translate-lt byte small) g in
                  rw (e', f) (rw (f, up, g) (rw (lshift-set st (key_of byte) g, printed) refl))
              | inr g ↦
                  let silent =
                    print_silent (set st (key_of byte) pressed)
                      (key (set st (key_of byte) pressed) (code kb_key_lshift)) console
                      (Quiet-set st (key_of byte) q g) in
                  rw (e', f) (rw (f, up, g) (rw silent refl))
            ]
      ]
]

-- What a byte does, in the two states that a byte finds the machine in.
abbrev take_in : State → Keyboard → (byte : ℕ) → Keyboard
take_in wait_state s byte = take_make s byte
take_in one_byte_key_released s byte = take_break s byte
take_in other s byte = s

abbrev pub take : Keyboard → (byte : ℕ) → Keyboard
take s byte = take_in s.state s byte

-- A machine between two bytes ends its loop on every byte, after three rounds at most, unless it
-- waits and the byte is that of a key that is down. It does what the machine without inner states
-- does: a key with a character prints it, in the form of the left shift if that is down, any other
-- key goes down, and after the release byte a key goes up.
pub handle_byte-take :
    (fuel : ℕ) (s : Keyboard) (byte : ℕ)
    → Resting s
    → byte < 256
    → (s.state ≡ wait_state → repeats s byte ≡ false)
    → handle_byte (suc (suc (suc fuel))) s byte ≡ ok (take s byte)
handle_byte-take fuel s byte rest small fresh = elim rest.between [
  | inl e ↦ rw e (take_make_lem fuel s.key_statuses s.console byte rest.quiet small (fresh e))
  | inr e ↦ rw e (take_break_lem (suc fuel) s.key_statuses s.console byte)
]

-- What a byte does to a machine between two bytes leaves it between two bytes again: every key that
-- stays down has no character.
pub take-Resting : (s : Keyboard) (byte : ℕ) → Resting s → Resting (take s byte)
take-Resting s byte rest = elim rest.between [
  | inl e ↦ rw e (elim (Bool-cases (byte == 240)) [
    | inl a ↦ rw a (record { between = inr refl; quiet = rest.quiet })
    | inr a ↦ elim (Bool-cases (key_of byte == 0)) [
      | inl b ↦ rw (a, b) (record { between = inl refl; quiet = rest.quiet })
      | inr b ↦ elim (Bool-cases (printable (key_of byte))) [
        | inl c ↦ rw (a, b, c) (record { between = inl refl; quiet = rest.quiet })
        | inr c ↦
            rw (a, b, c)
              (record {
                between = inl refl;
                quiet = Quiet-set s.key_statuses (key_of byte) rest.quiet c;
              })
      ]
    ]
  ])
  | inr e ↦ rw e (elim (Bool-cases (byte == 240)) [
    | inl a ↦ rw a (record { between = inr refl; quiet = rest.quiet })
    | inr a ↦ elim (Bool-cases (key_of byte == 0)) [
      | inl b ↦ rw (a, b) (record { between = inl refl; quiet = rest.quiet })
      | inr b ↦
          rw (a, b)
            (record {
              between = inl refl;
              quiet = Quiet-release s.key_statuses (key_of byte) rest.quiet;
            })
    ]
  ])
]

hang :
    (fuel : ℕ) (st : List KeyStatus) (console : Console) (byte : ℕ)
    → repeats (at wait_state st console) byte ≡ true
    → (handle_byte fuel (at wait_state st console) byte ≡ out_of_fuel)
      × (handle_byte fuel (at one_byte_key_pressed st console) byte ≡ out_of_fuel)
unfolding handle_byte handle_state handle_wait handle_pressed code
hang zero st console byte again = (refl, refl)
hang (suc fuel) st console byte again =
    let ih = hang fuel st console byte again in
    let known : (key_of byte == 0) ≡ false = ground (arith, again) in
    let down : key st (key_of byte) ≡ true = ground (arith, again) in
    let other : (byte == 240) ≡ false = elim (ℕ_discrete byte 240) [
      | yes e ↦ absurd (ground (arith, known, ap key_of e, release_byte))
      | no ne ↦ ground arith
    ] in
    (rw (other, known) ih.1, rw (known, down) ih.0)

-- A machine that waits never ends its loop on the byte of a key that is down already: no number of
-- rounds is enough.
pub handle_byte-repeats :
    (fuel : ℕ) (s : Keyboard) (byte : ℕ)
    → s.state ≡ wait_state
    → repeats s byte ≡ true
    → handle_byte fuel s byte ≡ out_of_fuel
handle_byte-repeats fuel s byte waits again =
    rw waits (hang fuel s.key_statuses s.console byte again).0

not_pressed : (n j : ℕ) → key (replicate n released) j ≡ false
unfolding key is_pressed
not_pressed zero j = refl
not_pressed (suc n) zero = refl
not_pressed (suc n) (suc j) = not_pressed n j

-- A keyboard that has taken no byte is between two bytes.
pub initial-Resting : (console : Console) → Resting (initial console)
unfolding initial
initial-Resting console = record {
  between = inl refl;
  quiet = record {
    all = length-replicate kb_key_max released;
    quiet = λ j on. absurd (ground (arith, not_pressed kb_key_max j, on));
  };
}
