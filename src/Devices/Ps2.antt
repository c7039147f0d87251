-- ===== src/Devices/Ps2.antt =====
-- The PS/2 devices of kernel/devices/ps2.
pub mod Keyboard
pub mod Conf
pub mod Controller
pub mod Line
pub mod Setup
