-- ===== src/Memory/Slab.antt =====
-- kernel/memory/include/bolgenos-ng/slab.hpp and kernel/memory/slab.cpp: elements of one size in an
-- area of pages, whose first bytes are the bit map of the free elements. The pages come from the
-- page allocator, as `alloc_pages` of kernel/memory/memory.cpp gives them. `size_t` has 32 bits.
pub mod Chunks
pub mod Start
use bolgenos_ng.Base.{
  ℕ, zero, suc, ◌+◌, ◌-◌, ◌*◌, ◌/◌, ◌%◌, Bool, true, false, ◌&&◌, List, leb, ltb, ◌==◌,
  if◌then◌else◌,
}
use bolgenos_ng.Utils.MemUtils.{word, align_up}
use bolgenos_ng.Utils.BitArray
use bolgenos_ng.Utils.BitArray.{BitArray, expected_size, set_value}
use bolgenos_ng.Memory.Machine.{Run, ok, panicked, ◌>>=◌}
use bolgenos_ng.Memory.FreeList.{page_size}
use bolgenos_ng.Memory.PageAllocator
use bolgenos_ng.Memory.PageAllocator.{PageAllocator}

pub record SlabAllocator : Type 0 where
  pub elem_size : ℕ
  pub nelems : ℕ
  pub memory : ℕ
  pub area : ℕ
  pub allocation_map : BitArray
  pub initialized : Bool

unfoldable pub is_free : SlabAllocator → ℕ → Bool
is_free s index = BitArray.get s.allocation_map index

unfoldable pub set_free : SlabAllocator → ℕ → Bool → SlabAllocator
set_free s index status = record s { allocation_map = set_value s.allocation_map index status }

-- The loop of `initialize`, with the rounds that are left.
unfoldable pub free_from : (left elem : ℕ) → SlabAllocator → SlabAllocator
free_from zero elem s = s
free_from (suc left) elem s = free_from left (elem + 1) (set_free s elem true)

unfoldable pub required_pages : (elem_size nelems : ℕ) → ℕ
required_pages elem_size nelems =
    align_up page_size ((elem_size * nelems + expected_size nelems) % word) / page_size

-- `bytes` is what the memory of the bit map holds before.
unfoldable pub initialize :
    SlabAllocator
    → PageAllocator
    → (bytes : List ℕ) → (elem_size nelems : ℕ) → Run ((SlabAllocator × PageAllocator) × Bool)
initialize s pool bytes elem_size nelems = do
  (pool', area) ← PageAllocator.allocate pool (required_pages elem_size nelems)
  if area == 0
      then ok (
        (
          record s { elem_size = elem_size; nelems = nelems; area = area; initialized = false },
          pool',
        ),
        false,
      )
      else ok (
        (
          record (free_from nelems 0 (record {
            elem_size = elem_size;
            nelems = nelems;
            memory = (area + expected_size nelems) % word;
            area = area;
            allocation_map = BitArray.initialize bytes nelems;
            initialized = s.initialized;
          })) { initialized = true },
          pool',
        ),
        true,
      )

-- The loop of `allocate`, with the rounds that are left.
unfoldable pub allocate_from : (left chunk : ℕ) → SlabAllocator → SlabAllocator × ℕ
allocate_from zero chunk s = (s, 0)
allocate_from (suc left) chunk s =
    let rest = allocate_from left (chunk + 1) s in
    if is_free s chunk
    then (set_free s chunk false, (s.memory + chunk * s.elem_size) % word)
    else rest

unfoldable pub allocate : SlabAllocator → SlabAllocator × ℕ
allocate s = allocate_from s.nelems 0 s

unfoldable pub owns : SlabAllocator → (memory : ℕ) → Run Bool
owns s memory =
    if s.memory == 0
    then panicked
    else ok (leb s.memory memory && ltb memory ((s.memory + s.nelems * s.elem_size) % word))

unfoldable pub is_initialized : SlabAllocator → Bool
is_initialized s = s.initialized

unfoldable pub deallocate : SlabAllocator → (addr : ℕ) → Run SlabAllocator
deallocate s addr = if addr == 0 then ok s else (do
  owned ← owns s addr
  if owned then ok (set_free s ((addr - s.memory) / s.elem_size) true) else panicked)
