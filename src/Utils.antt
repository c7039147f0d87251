-- ===== src/Utils.antt =====
-- The helpers of kernel/libkernelcxx that the kernel's parts stand on.
pub mod MemUtils
pub mod BitArray
pub mod Ostream
pub mod ForwardList
pub mod CircularList
pub mod FixedSizeVector
pub mod Cstring
pub mod UniquePtr
pub mod CxxOptional
