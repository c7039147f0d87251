-- ===== src/Memory.antt =====
-- kernel/memory: the allocators, from the free lists up.
pub mod Machine
pub mod FreeList
pub mod Buddy
pub mod PageAllocator
pub mod Slab
pub mod Mallocator
pub mod Setup
