-- ===== src/Memory/PageAllocator.antt =====
-- kernel/memory/page_allocator.hpp and page_allocator.cpp: allocation by pages on top of the buddy
-- system, with one bit for each page that is set at the last page of a block in use. The memory of
-- the bit map is kept apart from the frames, since its pages are never given to the buddy system.
-- The interrupt guard of both operations makes each of them one step.
pub mod Blocks
pub mod Start
pub mod Allocate
pub mod Deallocate
use bolgenos_ng.Base.{
  ℕ, zero, suc, ◌+◌, ◌-◌, ◌*◌, ◌/◌, Bool, true, false, ◌||◌, List, ◌==◌, if◌then◌else◌,
}
use bolgenos_ng.Utils.MemUtils.{align_up}
use bolgenos_ng.Utils.BitArray
use bolgenos_ng.Utils.BitArray.{BitArray, expected_size, set_value}
use bolgenos_ng.Memory.Machine.{Run, ok, out_of_fuel, ◌>>=◌}
use bolgenos_ng.Memory.FreeList.{page_size}
use bolgenos_ng.Memory.Buddy
use bolgenos_ng.Memory.Buddy.{BuddyAllocator, Pblk, index_of, region_size}

pub record PageAllocator : Type 0 where
  pub primary : BuddyAllocator
  pub map : BitArray

-- The address that an allocation of no page returns.
abbrev pub zero_size_page : ℕ
zero_size_page = 0x10

-- The pages that the bit map takes.
unfoldable pub map_pages : BuddyAllocator → ℕ
map_pages primary = align_up page_size (expected_size (region_size primary.region)) / page_size

-- `memory` are the bytes at `first_free`.
unfoldable pub initialize :
    BuddyAllocator → (first_free : ℕ) → (memory : List ℕ) → Run PageAllocator
initialize primary first_free memory = do
  let ptr = first_free + map_pages primary * page_size
  primary' ← Buddy.put primary (record { ptr = ptr; size = (primary.region.end - ptr) / page_size })
  ok (record { primary = primary'; map = BitArray.initialize memory (region_size primary.region) })

unfoldable pub allocate : PageAllocator → (pages : ℕ) → Run (PageAllocator × ℕ)
allocate s pages = if pages == 0 then ok (s, zero_size_page) else (do
  (primary', blk) ← Buddy.get s.primary pages
  let page_index = index_of primary'.region blk.ptr
  let last = page_index + blk.size - 1
  if blk.ptr == 0
      then ok (record s { primary = primary' }, 0)
      else ok (record { primary = primary'; map = set_value s.map last true }, blk.ptr))

-- The loop of `deallocate`: the pages up to the first one whose bit is set, which is cleared.
unfoldable pub scan : ℕ → BitArray → (index limit size : ℕ) → Run (BitArray × ℕ)
scan zero map index limit size = if index == limit then ok (map, size) else out_of_fuel
scan (suc fuel) map index limit size =
    let rest = scan fuel map (index + 1) limit (size + 1) in
    if index == limit
    then ok (map, size)
    else if BitArray.get map index
    then ok (set_value map index false, size + 1)
    else rest

unfoldable pub deallocate : PageAllocator → (memory : ℕ) → Run PageAllocator
deallocate s memory =
    let limit = region_size s.primary.region in
    let page_index = index_of s.primary.region memory in
    if memory == 0 || memory == zero_size_page then ok s else (do
      (map', size) ← scan limit s.map page_index limit 0
      primary' ← Buddy.put s.primary (record { ptr = memory; size = size })
      ok (record { primary = primary'; map = map' }))
