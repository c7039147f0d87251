-- ===== src/Tests/Bytes.antt =====
-- A slab of eight elements of 16 bytes, and a mallocator of two slabs.
use bolgenos_ng.Base.{
  ℕ, zero, suc, ◌+◌, ◌*◌, ◌≤◌, ◌<◌, ◌≡◌, ◌≢◌, refl, true, false, List, [], ◌∷◌, ◌++◌, arith,
}
use bolgenos_ng.Utils.BitArray.{IsBytes}
use bolgenos_ng.Utils.MemUtils.{word, align_up, align_down}
use bolgenos_ng.Memory.Machine.{Returns}
use bolgenos_ng.Memory.PageAllocator.{PageAllocator}
use bolgenos_ng.Memory.PageAllocator.Blocks.{PageInv}
use bolgenos_ng.Memory.PageAllocator.Deallocate.{Freed}
use bolgenos_ng.Memory.Buddy.{Pblk}
use bolgenos_ng.Memory.Slab
use bolgenos_ng.Memory.Slab.{SlabAllocator, is_free, owns}
use bolgenos_ng.Memory.Slab.Chunks.{SlabInv, Handed, address, slab_allocate-Handed}
use bolgenos_ng.Memory.Mallocator.{Mallocator, chain_unit_size, slab_at, first_slab, default_slab}
use bolgenos_ng.Memory.Mallocator
use bolgenos_ng.Memory.Mallocator.Sizes.{first_slab-wrap}
use bolgenos_ng.Memory.Mallocator.Serve.{ChainInv, MallocInv}
use bolgenos_ng.Memory.Mallocator.Free.{within, Released, malloc_free-Released, malloc_free-Freed}
use bolgenos_ng.Tests.World.{pool, start, nothing, block, full_pool, full_pool-PageInv}

-- The elements 2 to 7 are free.
abbrev map_byte : List ℕ
map_byte = 252 ∷ []

map_byte-IsBytes : IsBytes map_byte
map_byte-IsBytes zero = omega arith
map_byte-IsBytes (suc i) = omega arith

abbrev slab : (elem_size memory : ℕ) → SlabAllocator
slab elem_size memory = record {
  elem_size = elem_size;
  nelems = 8;
  memory = memory;
  area = 0x102000;
  allocation_map = record { size = 8; bytes = map_byte };
  initialized = true;
}

slab-SlabInv :
    (elem_size memory : ℕ)
    → memory ≢ 0
    → 1 ≤ elem_size
    → memory + 8 * elem_size < word
    → SlabInv (slab elem_size memory)
slab-SlabInv elem_size memory some some_size below = record {
  some_memory = some;
  some_size = some_size;
  below = below;
  bytes = map_byte-IsBytes;
  room = omega arith;
}

abbrev sixteen : SlabAllocator
sixteen = slab 16 0x103000

sixteen-SlabInv : SlabInv sixteen
sixteen-SlabInv = slab-SlabInv 16 0x103000 (omega arith) (omega arith) (omega arith)

slab_allocate-Handed_example : Handed sixteen (Slab.allocate sixteen)
slab_allocate-Handed_example = slab_allocate-Handed sixteen sixteen-SlabInv

abbrev chain : List SlabAllocator
chain = slab 8 0x104000 ∷ slab 16 0x105000 ∷ []

chain-ChainInv : ChainInv chain
chain-ChainInv zero less = slab-SlabInv 8 0x104000 (omega arith) (omega arith) (omega arith)
chain-ChainInv (suc zero) less = slab-SlabInv 16 0x105000 (omega arith) (omega arith) (omega arith)
chain-ChainInv (suc (suc i)) less = absurd (omega arith)

chain_sizes : (i : ℕ) → i < 2 → (slab_at chain i).elem_size ≡ chain_unit_size i
unfolding chain_unit_size
chain_sizes zero less = refl
chain_sizes (suc zero) less = refl
chain_sizes (suc (suc i)) less = absurd (omega arith)

abbrev mallocator : PageAllocator → Mallocator
mallocator fallback = record {
  chain_length = 2;
  chain = chain;
  fallback = fallback;
  internal_allocator = default_slab;
  initialized = true;
}

mallocator-MallocInv :
    (fallback : PageAllocator) (items : ℕ → List ℕ) (blocks : List Pblk)
    → PageInv fallback items blocks
    → MallocInv (mallocator fallback) items blocks
mallocator-MallocInv fallback items blocks inv = record {
  ready = refl;
  measured = refl;
  chain_ok = chain-ChainInv;
  sizes = chain_sizes;
  pages = inv;
}

malloc_free-Released_example :
    Returns
      (Released (mallocator pool) 1 0)
      (Mallocator.deallocate (mallocator pool) (address (slab_at chain 1) 0 + 4))
malloc_free-Released_example =
    malloc_free-Released (mallocator pool) start.2.items [] 1 0 4
      (mallocator-MallocInv pool start.2.items [] start.2.inv) (omega arith) (omega arith)
      (omega arith) not_in_first
  where
    not_in_first :
        (i : ℕ) → i < 1 → within (slab_at chain i) (address (slab_at chain 1) 0 + 4) ≡ false
    not_in_first zero less = refl
    not_in_first (suc i) less = absurd (omega arith)

abbrev full-MallocInv : MallocInv (mallocator full_pool) nothing ([] ++ block ∷ [])
full-MallocInv = mallocator-MallocInv full_pool nothing ([] ++ block ∷ []) full_pool-PageInv

malloc_free-Freed_example :
    Returns
      (λ m'.
        (m'.chain ≡ chain) × Freed full_pool nothing [] block [] full-MallocInv.pages m'.fallback)
      (Mallocator.deallocate (mallocator full_pool) block.ptr)
malloc_free-Freed_example =
    malloc_free-Freed (mallocator full_pool) nothing [] block [] full-MallocInv in_no_slab
  where
    in_no_slab : (i : ℕ) → i < 2 → within (slab_at chain i) block.ptr ≡ false
    in_no_slab zero less = refl
    in_no_slab (suc zero) less = refl
    in_no_slab (suc (suc i)) less = absurd (omega arith)

slab_seven : first_slab 33 100 ≡ 7
unfolding first_slab align_up align_down
slab_seven = refl

first_slab-wrap_example : first_slab 33 0xfffffff5 ≡ 0
first_slab-wrap_example = first_slab-wrap 33 0xfffffff5 (omega arith) (omega arith) (omega arith)
