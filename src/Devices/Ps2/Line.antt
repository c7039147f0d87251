-- ===== src/Devices/Ps2/Line.antt =====
-- kernel/devices/ps2/src/line.cpp: what is done on one line, by its configuration.
use bolgenos_ng.Base.{ℕ, Bool, false, not, none, some, ◌==◌, if◌then◌else◌}
use bolgenos_ng.Devices.Ports.{Ports, Io, ◌>>=◌, ◌>>◌, pure}
use bolgenos_ng.Devices.Ps2.Controller.{
  LineConfiguration, ErrorCode, ok_code, wrong_ack, timeout, is_ok_code, selftest_timeout,
  send_byte, send_command, wait_for_output, receive,
}

abbrev pub output_timeout : ℕ
output_timeout = 1

module _ {World : Type 0} (ports : Ports World) (line : LineConfiguration) where
  unfoldable pub send : (byte : ℕ) → Io World ErrorCode
  send byte = do
    if line.need_redirection then send_command ports line.cmd_redirect else pure tt
    can_write ← wait_for_output ports output_timeout
    if not can_write then pure timeout else do send_byte ports byte; pure ok_code

  unfoldable pub disable : Io World (Unit {0})
  disable = send_command ports line.cmd_disable

  unfoldable pub enable : Io World (Unit {0})
  enable = send_command ports line.cmd_enable

  unfoldable pub test : Io World Bool
  test = do
    send_command ports line.cmd_test
    answer ← receive ports selftest_timeout
    elim answer [ none ↦ pure false | some reply ↦ pure (reply == 0x00) ]

  -- `send` with an expected acknowledgement.
  unfoldable pub send_ack : (byte expected_ack : ℕ) → Io World ErrorCode
  send_ack byte expected_ack = do
    ret ← send byte
    if not (is_ok_code ret) then pure ret else do
      answer ← receive ports output_timeout
      elim answer [
        | some ack ↦ if ack == expected_ack then pure ok_code else pure wrong_ack
        | none ↦ pure timeout
      ]
