-- ===== src/Memory/Mallocator/Serve.antt =====
-- `Mallocator::allocate` of kernel/memory/mallocator.cpp.
use bolgenos_ng.Base.{
  ℕ, ◌*◌, ◌/◌, ◌≤◌, ◌<◌, ◌≡◌, ◌≢◌, ◌⊎◌, true, false, List, ◌==◌, if◌then◌else◌, length,
}
use bolgenos_ng.Utils.MemUtils.{align_up}
use bolgenos_ng.Memory.FreeList.{page_size}
use bolgenos_ng.Memory.Buddy.{Pblk}
use bolgenos_ng.Memory.PageAllocator
use bolgenos_ng.Memory.PageAllocator.Blocks.{PageInv}
use bolgenos_ng.Memory.PageAllocator.Allocate.{Allocated}
use bolgenos_ng.Memory.Slab
use bolgenos_ng.Memory.Slab.{SlabAllocator, is_free}
use bolgenos_ng.Memory.Slab.Chunks.{SlabInv, address}
use bolgenos_ng.Memory.Mallocator.{Mallocator, chain_unit_size, slab_at, first_slab}

-- The slabs of the chain are in use.
abbrev pub ChainInv : List SlabAllocator → Type 0
ChainInv chain = (i : ℕ) → i < length chain → SlabInv (slab_at chain i)

-- An element of a slab of the chain has been handed out, and nothing else has changed.
pub record FromSlab (chain : List SlabAllocator) (from : ℕ) (r : List SlabAllocator × ℕ)
    : Type 0 where
  pub slab : ℕ
  pub chunk : ℕ
  pub late : from ≤ slab
  pub in_chain : slab < length chain
  pub in_slab : chunk < (slab_at chain slab).nelems
  pub at : r.1 ≡ address (slab_at chain slab) chunk
  pub not_null : r.1 ≢ 0
  pub was_free : is_free (slab_at chain slab) chunk ≡ true
  pub is_used :
      (j : ℕ)
      → is_free (slab_at r.0 slab) j
        ≡ (if chunk == j then false else is_free (slab_at chain slab) j)
  pub others : (i : ℕ) → i ≢ slab → slab_at r.0 i ≡ slab_at chain i
  pub chain_ok : (length r.0 ≡ length chain) × ChainInv r.0

-- No slab from one on has a free element.
abbrev pub Full : List SlabAllocator → (from : ℕ) → Type 0
Full chain from =
    (i : ℕ)
    → from ≤ i
    → i < length chain
    → (j : ℕ) → j < (slab_at chain i).nelems
    → is_free (slab_at chain i) j ≡ false

-- The mallocator is initialized, the elements of its slabs have the sizes of the chain, and the page
-- allocator below keeps its invariant.
pub record MallocInv (m : Mallocator) (items : ℕ → List ℕ) (blocks : List Pblk) : Type 0 where
  pub ready : m.initialized ≡ true
  pub measured : length m.chain ≡ m.chain_length
  pub chain_ok : ChainInv m.chain
  pub sizes : (i : ℕ) → i < m.chain_length → (slab_at m.chain i).elem_size ≡ chain_unit_size i
  pub pages : PageInv m.fallback items blocks

-- What `allocate` does: a free element of a slab that is large enough is handed out; or no slab from
-- the first suitable one on has a free element, and the page allocator is asked for pages enough.
pub record Served (m : Mallocator) (items : ℕ → List ℕ) (blocks : List Pblk) (bytes : ℕ)
    (r : Mallocator × ℕ) : Type 0 where
  pub outcome :
      ((found : FromSlab m.chain (first_slab m.chain_length bytes) (r.0.chain, r.1)) × (bytes
          ≤ (slab_at m.chain found.slab).elem_size)
        × (r.0.fallback ≡ m.fallback))
      ⊎ ((r.0.chain ≡ m.chain)
          × Full m.chain (first_slab m.chain_length bytes)
          × (bytes ≤ (align_up page_size bytes / page_size) * page_size)
          × Allocated m.fallback items blocks
              (align_up page_size bytes / page_size)
              (r.0.fallback, r.1))
