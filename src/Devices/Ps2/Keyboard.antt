-- ===== src/Devices/Ps2/Keyboard.antt =====
-- kernel/devices/ps2/src/ps2_keyboard_sm.hpp, ps2_keyboard_sm.cpp and ps2_keyboard.hpp: the state
-- machine that takes the bytes of a keyboard in code set 2. The five state objects are the
-- constructors of a type; the device, which each of them reaches through the machine, is the record.
-- The log messages are left out. The controller's interrupt calls `handle_byte` for each byte.
pub mod Table
pub mod Printing
pub mod Machine
use bolgenos_ng.Base.{
  ℕ, zero, suc, ◌+◌, Bool, true, false, not, ◌&&◌, List, ◌==◌, if◌then◌else◌, get_or, set,
  replicate,
}
use bolgenos_ng.Memory.Machine.{Run, ok, out_of_fuel}
use bolgenos_ng.Devices.VgaConsole.{Console, putc}
use bolgenos_ng.Devices.Keyboard.{to_printable_key, apply_lshift}
use bolgenos_ng.Devices.Keyboard.Key.{KbKey, kb_key_none, kb_key_lshift, kb_key_max}
use bolgenos_ng.Devices.Keyboard.Key.Code.{code, cast}
use bolgenos_ng.Devices.Ps2.Keyboard.Table.{translate}

pub data KeyStatus : Type 0 where
  pressed : KeyStatus
  released : KeyStatus

pub data HandleStatus : Type 0 where
  done : HandleStatus
  cont : HandleStatus

pub data State : Type 0 where
  wait_state : State
  error_state : State
  one_byte_key_pressed : State
  one_byte_key_released : State
  print_state : State

-- The machine with its device, and the console that it prints on.
pub record Keyboard : Type 0 where
  pub state : State
  pub key_statuses : List KeyStatus
  pub console : Console

unfoldable pub initial : Console → Keyboard
initial console = record {
  state = wait_state;
  key_statuses = replicate kb_key_max released;
  console = console;
}

abbrev pub codeset2_1b_release_byte : ℕ
codeset2_1b_release_byte = 0xf0

unfoldable pub is_pressed : KeyStatus → Bool
is_pressed pressed = true
is_pressed released = false

-- `dev->key(key) == pressed`.
unfoldable pub key : List KeyStatus → ℕ → Bool
key statuses idx = is_pressed (get_or statuses idx released)

unfoldable pub handle_wait : Keyboard → (byte : ℕ) → Keyboard × HandleStatus
handle_wait s byte =
    if byte == codeset2_1b_release_byte
    then (record s { state = one_byte_key_released }, cont)
    else if not (code (translate byte) == code kb_key_none)
    then (record s { state = one_byte_key_pressed }, cont)
    else (record s { state = error_state }, cont)

unfoldable pub handle_pressed : Keyboard → (byte : ℕ) → Keyboard × HandleStatus
handle_pressed s byte =
    let k = code (translate byte) in
    if not (k == code kb_key_none)
    then if not (key s.key_statuses k)
      then (record s { key_statuses = set s.key_statuses k pressed; state = print_state }, cont)
      else (record s { state = wait_state }, cont)
    else (s, cont)

unfoldable pub handle_released : Keyboard → (byte : ℕ) → Keyboard × HandleStatus
handle_released s byte =
    let k = code (translate byte) in
    if byte == codeset2_1b_release_byte
    then (record s { state = one_byte_key_released }, done)
    else if not (k == code kb_key_none)
    then (record s { key_statuses = set s.key_statuses k released; state = wait_state }, done)
    else (record s { state = error_state }, cont)

-- The loop of `PrintState::handle_byte` from a key on, with the rounds that are left.
unfoldable pub print_keys :
    (left k : ℕ) (lshift : Bool) → List KeyStatus → Console → List KeyStatus × Console
print_keys zero k lshift statuses console = (statuses, console)
print_keys (suc left) k lshift statuses console =
    let symbol = to_printable_key (cast k) in
    let prints = key statuses k && not (symbol == 0) in
    print_keys left (k + 1) lshift (if prints then set statuses k released else statuses)
      (if prints then putc console (if lshift then apply_lshift symbol else symbol) else console)

unfoldable pub handle_print : Keyboard → (byte : ℕ) → Keyboard × HandleStatus
handle_print s byte =
    let printed =
      print_keys kb_key_max (code kb_key_none) (key s.key_statuses (code kb_key_lshift))
        s.key_statuses s.console in
    (record { state = wait_state; key_statuses = printed.0; console = printed.1 }, done)

unfoldable pub handle_error : Keyboard → (byte : ℕ) → Keyboard × HandleStatus
handle_error s byte = (record s { state = wait_state }, done)

-- The virtual call of the state's handler.
unfoldable pub handle_state : State → Keyboard → (byte : ℕ) → Keyboard × HandleStatus
handle_state wait_state = handle_wait
handle_state error_state = handle_error
handle_state one_byte_key_pressed = handle_pressed
handle_state one_byte_key_released = handle_released
handle_state print_state = handle_print

abbrev pub until_done : Keyboard × HandleStatus → (Keyboard → Run Keyboard) → Run Keyboard
until_done (s, done) again = ok s
until_done (s, cont) again = again s

-- `KbdStateMachine::handle_byte`, with the rounds of its loop bounded by the fuel.
unfoldable pub handle_byte : (fuel : ℕ) → Keyboard → (byte : ℕ) → Run Keyboard
handle_byte zero s byte = out_of_fuel
handle_byte (suc fuel) s byte =
    until_done (handle_state s.state s byte) (λ s'. handle_byte fuel s' byte)
