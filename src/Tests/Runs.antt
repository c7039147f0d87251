-- ===== src/Tests/Runs.antt =====
-- The allocators run from the start: 16 pages, a chain of two slabs, and an element from the second.
use bolgenos_ng.Base.{ℕ, zero, suc, arith, ◌≡◌, refl, false, []}
use bolgenos_ng.Utils.MemUtils.{align_up, align_down}
use bolgenos_ng.Utils.BitArray
use bolgenos_ng.Utils.BitArray.{BitArray, IsBytes, set_bit, set_value, clear_from, expected_size}
use bolgenos_ng.Memory.Machine.{Run, ok, ◌>>=◌, write}
use bolgenos_ng.Memory.FreeList
use bolgenos_ng.Memory.FreeList.{
  race, count_items, sanity_check, finish, are_consequent, is_the_first_in_buddy, find_last_lesser,
  link_front, link_after, put_front, take_lesser, take_next, put_after, choose, put_into,
}
use bolgenos_ng.Memory.Buddy
use bolgenos_ng.Memory.Buddy.{
  index_of, region_size, list_at, align_order, shrink_order, compute_order, list_put, list_get,
  squash_up, put_block, put_loop, order_for, search_lists, split_block,
}
use bolgenos_ng.Memory.PageAllocator
use bolgenos_ng.Memory.PageAllocator.{map_pages, scan}
use bolgenos_ng.Memory.Slab
use bolgenos_ng.Memory.Slab.{is_free, set_free, free_from, required_pages, allocate_from}
use bolgenos_ng.Memory.Mallocator
use bolgenos_ng.Memory.Mallocator.{
  Mallocator, default_slab, chain_unit_size, initialize_chain, first_slab, serve,
}
use bolgenos_ng.Tests.World.{primary, map_bytes, byte, pool}

abbrev pub no_mallocator : Mallocator
no_mallocator = record {
  chain_length = 0;
  chain = [];
  fallback = record { primary = primary; map = record { size = 0; bytes = [] } };
  internal_allocator = default_slab;
  initialized = false;
}

abbrev run : Run ℕ
run = do
  pool ← PageAllocator.initialize primary 0x101000 map_bytes
  m ← Mallocator.initialize no_mallocator pool 40 byte (λ i. map_bytes) 64 2
  (m', memory) ← Mallocator.allocate m 13
  ok memory

-- Page 258 has the chain, page 260 the second slab; its elements come behind one byte of bit map.
run_result : run ≡ ok 0x104001
unfolding PageAllocator.initialize PageAllocator.allocate map_pages region_size index_of align_up
    align_down expected_size BitArray.initialize BitArray.get set_bit set_value clear_from
    FreeList.put FreeList.get race count_items sanity_check finish are_consequent
    is_the_first_in_buddy find_last_lesser link_front link_after put_front take_lesser take_next
    put_after choose put_into write Buddy.put Buddy.get list_at align_order shrink_order
    compute_order list_put list_get squash_up put_block put_loop order_for search_lists split_block
    Slab.initialize Slab.allocate is_free set_free free_from required_pages allocate_from
    Mallocator.initialize Mallocator.allocate chain_unit_size initialize_chain first_slab serve
run_result = refl

pub byte-IsBytes : IsBytes byte
byte-IsBytes zero = omega arith
byte-IsBytes (suc i) = omega arith
