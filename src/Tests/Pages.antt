-- ===== src/Tests/Pages.antt =====
-- The buddy system and the page allocator on the machines of World.
use bolgenos_ng.Base.{◌+◌, ◌*◌, ◌≡◌, refl, [], arith}
use bolgenos_ng.Memory.Machine.{Returns}
use bolgenos_ng.Memory.FreeList.{page_size}
use bolgenos_ng.Memory.Buddy.{Pblk, put, compute_order, order_for}
use bolgenos_ng.Memory.Buddy
use bolgenos_ng.Memory.Buddy.Cover.{page_of}
use bolgenos_ng.Memory.Buddy.Order.{IsOrder, compute_order-IsOrder}
use bolgenos_ng.Memory.Buddy.Put.{Placed, counted, put-Placed}
use bolgenos_ng.Memory.PageAllocator.{map_pages, deallocate}
use bolgenos_ng.Memory.PageAllocator
use bolgenos_ng.Memory.PageAllocator.Deallocate.{Freed, deallocate-Freed}
use bolgenos_ng.Memory.PageAllocator.Start.{Started, initialize-Started}
use bolgenos_ng.Tests.World.{
  primary, primary-Inv, nothing, free_block, free_block-Takes, map_bytes, map_bytes-IsBytes,
  at_pages, in_order, map_bytes_exact, sixteen_pages, block, full_pool, full_pool-PageInv,
}

put-Placed_example :
    Returns
      (Placed (counted primary free_block) nothing (page_of free_block.ptr) free_block.size)
      (put primary free_block)
put-Placed_example = put-Placed primary nothing free_block primary-Inv free_block-Takes

deallocate-Freed_example :
    Returns (Freed full_pool nothing [] block [] full_pool-PageInv) (deallocate full_pool block.ptr)
deallocate-Freed_example = deallocate-Freed full_pool nothing [] block [] full_pool-PageInv

initialize-Started_example :
    Returns
      (Started primary.region (page_of (0x101000 + map_pages primary * page_size)))
      (PageAllocator.initialize primary 0x101000 map_bytes)
initialize-Started_example =
    initialize-Started primary primary-Inv 0x101000 map_bytes map_bytes-IsBytes at_pages in_order
      map_bytes_exact (omega (arith, sixteen_pages))

compute_order-IsOrder_example : IsOrder free_block (compute_order free_block)
compute_order-IsOrder_example = compute_order-IsOrder free_block (omega arith) refl

-- A run: 14 pages from page 258 are one block of 2, one of 4 and one of 8.
order_of_two : compute_order free_block ≡ 1
unfolding compute_order Buddy.align_order Buddy.shrink_order
order_of_two = refl
