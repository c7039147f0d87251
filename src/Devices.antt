-- ===== src/Devices.antt =====
-- The devices of kernel/devices.
pub mod VgaConsole
pub mod FrequencyDivider
pub mod Keyboard
pub mod Ports
pub mod Time
pub mod Pit
pub mod Ps2
