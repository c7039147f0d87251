-- ===== src/Devices/Ps2/Controller.antt =====
-- kernel/devices/ps2/src/controller.cpp and include/ps2/controller.hpp: the controller of the two
-- PS/2 lines. The log is left out. Bytes are numbers below 256.
pub mod Waiting
use bolgenos_ng.Base.{
  ℕ, zero, suc, ◌+◌, ◌-◌, bit_and, bit_or, Bool, true, false, not, Option, none, some, List, [],
  ◌∷◌, ltb, ◌==◌, if◌then◌else◌,
}
use bolgenos_ng.Devices.Ports.{Ports, Io, ◌>>=◌, ◌>>◌, pure, panic, inb, outb, sleep_ms, exhausted}
use bolgenos_ng.Devices.Ps2.Conf.{Conf, is_set, set, unset, Bits}

abbrev pub data_port : ℕ
data_port = 0x60

abbrev pub status_port : ℕ
status_port = 0x64

abbrev pub command_port : ℕ
command_port = 0x64

-- `status_reg_t`
abbrev pub out_buf_status : ℕ
out_buf_status = 1

abbrev pub in_buf_status : ℕ
in_buf_status = 2

abbrev pub selftest_timeout : ℕ
selftest_timeout = 5

-- PS2LineConfiguration, by the two lines of `get_line`.
pub record LineConfiguration : Type 0 where
  pub cmd_enable : ℕ
  pub cmd_disable : ℕ
  pub cmd_test : ℕ
  pub need_redirection : Bool
  pub cmd_redirect : ℕ
  pub enable_interrupts_mask : Bits
  pub id : ℕ

abbrev pub line_1 : LineConfiguration
line_1 = record {
  cmd_enable = 0xae;
  cmd_disable = 0xad;
  cmd_test = 0xab;
  need_redirection = false;
  cmd_redirect = 0;
  enable_interrupts_mask = Bits.int_first;
  id = 0;
}

abbrev pub line_2 : LineConfiguration
line_2 = record {
  cmd_enable = 0xa8;
  cmd_disable = 0xa7;
  cmd_test = 0xa9;
  need_redirection = true;
  cmd_redirect = 0xd4;
  enable_interrupts_mask = Bits.int_second;
  id = 1;
}

-- Two lines, so the loop of `for_each_line` ends at the third.
unfoldable pub get_line : (line : ℕ) → Option LineConfiguration
get_line zero = some line_1
get_line (suc zero) = some line_2
get_line (suc (suc line)) = none

unfoldable pub get_ps2_lines : Conf → ℕ
get_ps2_lines conf = if is_set conf Bits.clock_second then 2 else 1

-- `ErrorCode`
pub data ErrorCode : Type 0 where
  ok_code wrong_ack timeout unknown : ErrorCode

abbrev pub is_ok_code : ErrorCode → Bool
is_ok_code ok_code = true
is_ok_code _ = false

-- The loop of `wait_for_flag` ends by its test on the flag.
unfoldable pub reached : (val seen : Bool) → Bool
reached val seen = if val then seen else not seen

module _ {World : Type 0} (ports : Ports World) where
  unfoldable pub status : Io World ℕ
  status = inb ports status_port

  unfoldable pub receive_byte : Io World ℕ
  receive_byte = inb ports data_port

  unfoldable pub send_byte : (byte : ℕ) → Io World (Unit {0})
  send_byte byte = outb ports data_port byte

  unfoldable pub send_command : (cmd : ℕ) → Io World (Unit {0})
  send_command cmd = outb ports command_port cmd

  -- The loop, with the milliseconds that are left to wait.
  unfoldable pub wait_for_flag : (flag : ℕ) → (val : Bool) → (left : ℕ) → Io World Bool
  wait_for_flag flag val zero = do st ← status; pure (not (bit_and st flag == 0))
  wait_for_flag flag val (suc left) = do
    st ← status
    let seen = not (bit_and st flag == 0)
    elim (reached val seen) [
      | true ↦ pure seen
      | false ↦ do sleep_ms ports 1; wait_for_flag flag val left
    ]

  unfoldable pub wait_for_input : (ms : ℕ) → Io World Bool
  wait_for_input ms = wait_for_flag out_buf_status true ms

  unfoldable pub wait_for_output : (ms : ℕ) → Io World Bool
  wait_for_output ms = do full ← wait_for_flag in_buf_status false ms; pure (not full)

  unfoldable pub can_read : Io World Bool
  can_read = wait_for_input 0

  unfoldable pub receive : (ms_timeout : ℕ) → Io World (Option ℕ)
  receive ms_timeout = do
    ready ← wait_for_input ms_timeout
    if ready then (do byte ← receive_byte; pure (some byte)) else pure none

  -- The loop, from the status register on.
  unfoldable pub clean_buffer_from : (fuel status_register : ℕ) → Io World (Unit {0})
  clean_buffer_from zero status_register = exhausted
  clean_buffer_from (suc fuel) status_register =
      elim (bit_and status_register out_buf_status == 0) [
        | true ↦ pure tt
        | false ↦ do
          ignored ← receive_byte
          status_register' ← status
          clean_buffer_from fuel status_register'
      ]

  unfoldable pub clean_buffer : (fuel : ℕ) → Io World (Unit {0})
  clean_buffer fuel = do status_register ← status; clean_buffer_from fuel status_register

  unfoldable pub read_conf : Io World Conf
  read_conf = do send_command 0x20; receive_byte

  unfoldable pub write_conf : Conf → Io World (Unit {0})
  write_conf conf = do send_command 0x60; send_byte conf

  unfoldable pub do_selftest : Io World Bool
  do_selftest = do
    send_command 0xaa
    reply ← receive selftest_timeout
    elim reply [ none ↦ pure false | some test_result ↦ pure (test_result == 0x55) ]
