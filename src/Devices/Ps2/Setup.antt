-- ===== src/Devices/Ps2/Setup.antt =====
-- kernel/devices/ps2/src/controller.cpp and ps2_keyboard.cpp: the registered drivers, how they are
-- probed, the start of the controller and the way of an interrupt to a driver. A driver is known by
-- its address. What the drivers do is a parameter.
pub mod Active
pub mod Default
use bolgenos_ng.Base.{
  ℕ, zero, suc, ◌+◌, bit_and, Bool, true, false, not, Option, none, some, List, [], ◌∷◌, ltb, ◌==◌,
  if◌then◌else◌, length, ◌++◌,
}
use bolgenos_ng.Memory.Machine.{Run, ok, out_of_fuel}
use bolgenos_ng.Devices.Ports.{Ports, Io, ◌>>=◌, ◌>>◌, pure, panic}
use bolgenos_ng.Devices.Ps2.Conf.{Conf, Bits, set, unset}
use bolgenos_ng.Devices.Ps2.Controller.{
  LineConfiguration, line_1, line_2, get_line, ErrorCode, is_ok_code, clean_buffer, read_conf,
  write_conf, do_selftest, receive, receive_byte,
}
use bolgenos_ng.Devices.Ps2.Line

abbrev pub max_registered_devices : ℕ
max_registered_devices = 10

-- `ps2_known_devices_`, and `ps2_active_devices_` with null for none.
pub record Controller : Type 0 where
  pub known_devices : List ℕ
  pub active_1 : ℕ
  pub active_2 : ℕ

unfoldable pub register_driver : Controller → (dev : ℕ) → Controller
register_driver c dev =
    if ltb (length c.known_devices) max_registered_devices
    then record c { known_devices = c.known_devices ++ dev ∷ [] }
    else c

-- The virtual functions of a driver; true stands for `probe_ok` and for `HANDLED`.
pub record Drivers (World : Type 0) : Type 0 where
  pub probe : (dev : ℕ) → LineConfiguration → Io World Bool
  pub handle_irq : (dev : ℕ) → Io World Bool

unfoldable pub set_active : Controller → (id dev : ℕ) → Controller
set_active c id dev = if id == 0 then record c { active_1 = dev } else record c { active_2 = dev }

module _ {World : Type 0} (ports : Ports World) (drivers : Drivers World) where
  -- The loop of `probe_line`: the last driver that has found its device, and how many have.
  unfoldable pub probe_from :
      (devices : List ℕ) → LineConfiguration → (active_dev count : ℕ) → Io World (ℕ × ℕ)
  probe_from [] line active_dev count = pure (active_dev, count)
  probe_from (dev ∷ devices) line active_dev count = do
    found ← drivers.probe dev line
    probe_from devices line (if found then dev else active_dev) (if found then count + 1 else count)

  -- More than one device on a line is a bug, which does not return.
  unfoldable pub probe_line : Controller → LineConfiguration → Io World Controller
  probe_line c line = do
    (active_dev, count) ← probe_from c.known_devices line 0 0
    if ltb 1 count then panic else pure (set_active c line.id active_dev)

  unfoldable pub probe_devices : Controller → Io World Controller
  probe_devices c = do c1 ← probe_line c line_1; probe_line c1 line_2

  -- `for_each_line`, for the lines that `get_line` knows.
  unfoldable pub for_each_line : (LineConfiguration → Io World (Unit {0})) → Io World (Unit {0})
  for_each_line f = do f line_1; f line_2

  -- A line with a device gets its interrupts, and one without is disabled.
  unfoldable pub finish_line : LineConfiguration → (active : ℕ) → Conf → Io World Conf
  finish_line line active conf =
      if active == 0
      then (do Line.disable ports line; pure conf)
      else pure (set conf line.enable_interrupts_mask)

  unfoldable pub finish_lines : (active_1 active_2 : ℕ) → Conf → Io World Conf
  finish_lines active_1 active_2 conf = do
    conf1 ← finish_line line_1 active_1 conf
    finish_line line_2 active_2 conf1

  -- The second configuration that is read is not used.
  -- `add_handler` is that of the interrupts' manager, and `keyboard` is the driver that
  -- `init_subsystems` registers.
  unfoldable pub initialize_controller :
      (fuel : ℕ)
      → (add_handler : (vector : ℕ) → Io World (Unit {0})) → (min_irq_vector keyboard : ℕ)
      → Controller
      → Io World Controller
  initialize_controller fuel add_handler min_irq_vector keyboard c0 = do
    let c = register_driver c0 keyboard
    for_each_line (λ line. Line.disable ports line)
    clean_buffer ports fuel
    conf ← read_conf ports
    let conf1 = unset (unset conf line_1.enable_interrupts_mask) line_2.enable_interrupts_mask
    write_conf ports (unset conf1 Bits.translation)
    passed ← do_selftest ports
    if not passed then panic else do
      Line.enable ports line_2
      unused ← read_conf ports
      Line.disable ports line_2
      for_each_line (λ line. do result ← Line.test ports line; pure tt)
      add_handler (min_irq_vector + 1)
      add_handler (min_irq_vector + 12)
      for_each_line (λ line. Line.enable ports line)
      c' ← probe_devices c
      last ← read_conf ports
      last' ← finish_lines c'.active_1 c'.active_2 last
      write_conf ports last'
      pure c'

  -- `ps2_irq_handler`, and the handler of both interrupts.
  unfoldable pub ps2_irq_handler : (active : ℕ) → Io World Bool
  ps2_irq_handler active = if active == 0 then pure false else drivers.handle_irq active

  unfoldable pub handle_irq : (min_irq_vector : ℕ) → Controller → (vector : ℕ) → Io World Bool
  handle_irq min_irq_vector c vector =
      if vector == min_irq_vector + 1
      then ps2_irq_handler c.active_1
      else if vector == min_irq_vector + 12
      then ps2_irq_handler c.active_2
      else pure false
