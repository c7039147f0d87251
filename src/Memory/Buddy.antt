-- ===== src/Memory/Buddy.antt =====
-- kernel/memory/buddy_allocator.hpp and buddy_allocator.cpp: eleven free lists, one for each order.
-- The state holds the memory that the lists are threaded through. A pointer into the region is
-- not wrapped at the end of the address space.
pub mod Cover
pub mod Order
pub mod Invariant
pub mod Squash
pub mod Put
pub mod Search
pub mod Get
pub mod Start
use bolgenos_ng.Base.{
  ℕ, zero, suc, ◌+◌, ◌-◌, ◌*◌, ◌/◌, ◌%◌, ◌^◌, bit_and, Bool, true, false, ◌&&◌, Option, none, some,
  List, [], ◌∷◌, set, ltb, leb, ◌==◌, if◌then◌else◌,
}
use bolgenos_ng.Utils.MemUtils.{word}
use bolgenos_ng.Memory.Machine.{Heap, Run, ok, panicked, fault, out_of_fuel, ◌>>=◌, ◌>>◌}
use bolgenos_ng.Memory.FreeList
use bolgenos_ng.Memory.FreeList.{FreeList, page_size}

abbrev pub max_order : ℕ
max_order = 10

pub record Pblk : Type 0 where
  pub ptr : ℕ
  pub size : ℕ

pub record MemoryRegion : Type 0 where
  pub begin : ℕ
  pub end : ℕ

unfoldable pub owns : MemoryRegion → ℕ → Bool
owns region frame = leb region.begin frame && ltb frame region.end

-- Differences of pointers to page frames; one that C++ makes negative is 0 here.
unfoldable pub index_of : MemoryRegion → ℕ → ℕ
index_of region frame = (frame - region.begin) / page_size

unfoldable pub region_size : MemoryRegion → ℕ
region_size region = (region.end - region.begin) / page_size

pub record BuddyAllocator : Type 0 where
  pub heap : Heap
  pub free_list : List FreeList
  pub allocations : ℕ
  pub deallocations : ℕ
  pub region : MemoryRegion

-- `free_list_[order]`; an order beyond the array is a fault.
unfoldable pub list_at : List FreeList → ℕ → Run FreeList
list_at [] order = fault
list_at (fl ∷ fls) zero = ok fl
list_at (fl ∷ fls) (suc order) = list_at fls order

-- The loop of `initialize`, over the lists that are left.
unfoldable pub initialize_from : Heap → ℕ → List FreeList → Run (List FreeList)
initialize_from h order [] = ok []
initialize_from h order (fl ∷ fls) = do
  fl' ← FreeList.initialize fl order (order == max_order) h
  fls' ← initialize_from h (order + 1) fls
  ok (fl' ∷ fls')

unfoldable pub initialize : BuddyAllocator → MemoryRegion → Run BuddyAllocator
unfolding initialize_from
initialize s region = do
  fls ← initialize_from s.heap 0 s.free_list
  ok (record s { free_list = fls; region = region })

-- The first loop of `compute_order`, with the orders that are left below the highest one.
unfoldable pub align_order : ℕ → (order page_number : ℕ) → ℕ
align_order zero order page_number = order
align_order (suc left) order page_number =
    let rest = align_order left (order + 1) (page_number / 2) in
    if bit_and page_number 1 == 0 then rest else order

-- The second loop: it stops at order 0 at the latest, as a block has a page.
unfoldable pub shrink_order : (order size : ℕ) → ℕ
shrink_order zero size = 0
shrink_order (suc order) size =
    let rest = shrink_order order size in if ltb size (2 ^ suc order) then rest else suc order

unfoldable pub compute_order : Pblk → ℕ
unfolding align_order shrink_order
compute_order blk = shrink_order (align_order max_order 0 (blk.ptr / page_size)) blk.size

unfoldable pub list_put : BuddyAllocator → (order frame : ℕ) → Run (BuddyAllocator × ℕ)
list_put s order frame = do
  fl ← list_at s.free_list order
  (fl', h, squashed) ← FreeList.put fl frame s.heap
  ok (record s { heap = h; free_list = set s.free_list order fl' }, squashed)

unfoldable pub list_get : BuddyAllocator → (order : ℕ) → Run (BuddyAllocator × ℕ)
list_get s order = do
  fl ← list_at s.free_list order
  (fl', h, frame) ← FreeList.get fl s.heap
  ok (record s { heap = h; free_list = set s.free_list order fl' }, frame)

-- `while ((squashed_pages = free_list_[putting_list].put(squashed_pages))) ++putting_list;`
unfoldable pub squash_up : ℕ → BuddyAllocator → (putting_list frame : ℕ) → Run BuddyAllocator
squash_up zero s putting_list frame = out_of_fuel
squash_up (suc fuel) s putting_list frame = do
  (s', squashed) ← list_put s putting_list frame
  let rest = squash_up fuel s' (putting_list + 1) squashed
  if squashed == 0 then ok s' else rest

-- One round of the loop of `put`: a block of one order. Eleven orders bound the squashing.
unfoldable pub put_block : BuddyAllocator → (order frame : ℕ) → Run BuddyAllocator
unfolding list_put squash_up
put_block s order frame = do
  (s', squashed) ← list_put s order frame
  if squashed == 0 then ok s' else squash_up (max_order + 1) s' (order + 1) squashed

abbrev pub bad_address : ℕ → Bool
bad_address ptr = if bit_and ptr (page_size - 1) == 0 then false else true

-- `while (blk.size) …`; each round takes a page at least, so the size is fuel enough.
unfoldable pub put_loop : ℕ → BuddyAllocator → Pblk → Run BuddyAllocator
put_loop zero s blk = if blk.size == 0 then ok s else out_of_fuel
put_loop (suc fuel) s blk =
    let order = compute_order blk in
    let round = (do
      s' ← put_block s order blk.ptr
      put_loop fuel s'
          (record { ptr = blk.ptr + 2 ^ order * page_size; size = blk.size - 2 ^ order })) in
    if blk.size == 0 then ok s else if bad_address blk.ptr then panicked else round

unfoldable pub put : BuddyAllocator → Pblk → Run BuddyAllocator
put s blk =
    if blk.size == 0
    then ok s
    else if bad_address blk.ptr
    then panicked
    else put_loop blk.size (record s { deallocations = (s.deallocations + 1) % word }) blk

-- `while (pages > (size_t(1) << order)) ++order;` ends by order 32 for a number of pages in a word.
unfoldable pub order_for : ℕ → (order pages : ℕ) → ℕ
order_for zero order pages = order
order_for (suc left) order pages =
    let rest = order_for left (order + 1) pages in if ltb (2 ^ order) pages then rest else order

-- The second loop of `get`, with the lists that are left: the order and the frame found, or the
-- null pointer.
unfoldable pub search_lists : ℕ → BuddyAllocator → (order : ℕ) → Run (BuddyAllocator × ℕ × ℕ)
search_lists zero s order = ok (s, order, 0)
search_lists (suc left) s order = do
  (s', frame) ← list_get s order
  let rest = search_lists left s' (order + 1)
  if frame == 0 then rest else ok (s', order, frame)

-- The rest of `get`: the pages of the block that were not asked for go back.
unfoldable pub split_block : BuddyAllocator → (pages order frame : ℕ) → Run (BuddyAllocator × Pblk)
split_block s pages order frame =
    let blk : Pblk = record { ptr = frame; size = pages } in
    let extra : Pblk = record { ptr = frame + pages * page_size; size = 2 ^ order - pages } in
    if extra.size == 0 then ok (s, blk) else (do s' ← put s extra; ok (s', blk))

abbrev pub no_block : Pblk
no_block = record { ptr = 0; size = 0 }

unfoldable pub get : BuddyAllocator → ℕ → Run (BuddyAllocator × Pblk)
get s pages =
    let s' = record s { allocations = (s.allocations + 1) % word } in
    let order = order_for 32 0 pages in
    if ltb max_order order then ok (s', no_block) else (do
      (s'', found, frame) ← search_lists (max_order + 1 - order) s' order
      if frame == 0 then ok (s'', no_block) else split_block s'' pages found frame)
