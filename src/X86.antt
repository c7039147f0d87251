-- ===== src/X86.antt =====
-- kernel/x86: the descriptors of the processor's tables.
pub mod Descriptors
pub mod Decode
pub mod Gdt
