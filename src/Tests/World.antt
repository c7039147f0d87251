-- ===== src/Tests/World.antt =====
-- A machine of 16 pages at 0x100000, of which the kernel takes the first, and one of 8 pages that
-- has no free page left.
use bolgenos_ng.Base.{
  ℕ, zero, suc, ◌+◌, ◌*◌, ◌≤◌, ◌≡◌, refl, true, List, [], ◌∷◌, ◌++◌, ◌%◌, arith, length,
}
use bolgenos_ng.Utils.MemUtils.{align_up, align_down}
use bolgenos_ng.Utils.BitArray
use bolgenos_ng.Utils.BitArray.{
  BitArray, IsBytes, expected_size, set_value, set_value-IsBytes, get-set_value, initialize_zero,
  initialize-IsBytes, initialize-length, length-set_value,
}
use bolgenos_ng.Memory.Machine.{Heap, ok, Returns-ok}
use bolgenos_ng.Memory.FreeList.{page_size}
use bolgenos_ng.Memory.Buddy.{Pblk, MemoryRegion, BuddyAllocator, region_size}
use bolgenos_ng.Memory.Buddy.Cover.{page_of, in_pages}
use bolgenos_ng.Memory.Buddy.Invariant.{lists, Inv}
use bolgenos_ng.Memory.Buddy.Start.{ready, ready-Inv, total-empty}
use bolgenos_ng.Memory.Buddy.Put.{Takes}
use bolgenos_ng.Memory.PageAllocator
use bolgenos_ng.Memory.PageAllocator.{PageAllocator, map_pages}
use bolgenos_ng.Memory.PageAllocator.Blocks.{PageInv, held, ends}
use bolgenos_ng.Memory.PageAllocator.Start.{Started, initialize-Started}

abbrev pub zeroes : Heap
zeroes a = 0

abbrev pub region : MemoryRegion
region = record { begin = 0x100000; end = 0x110000 }

abbrev pub nothing : ℕ → List ℕ
nothing k = []

abbrev pub primary : BuddyAllocator
primary = ready zeroes region

pub primary-Inv : Inv primary nothing
primary-Inv = ready-Inv zeroes region

abbrev pub free_block : Pblk
free_block = record { ptr = 0x102000; size = 14 }

pub free_block-Takes : Takes nothing free_block
unfolding in_pages
free_block-Takes = record {
  at_page = omega arith;
  some_block = omega arith;
  free = λ p. ground (arith, total-empty lists p);
}

abbrev pub map_bytes : List ℕ
map_bytes = 255 ∷ 255 ∷ []

pub map_bytes-IsBytes : IsBytes map_bytes
map_bytes-IsBytes zero = omega arith
map_bytes-IsBytes (suc zero) = omega arith
map_bytes-IsBytes (suc (suc i)) = omega arith

pub one_map_page : map_pages primary ≡ 1
unfolding map_pages region_size expected_size align_up align_down
one_map_page = refl

pub map_bytes_exact : length map_bytes ≡ expected_size (region_size primary.region)
unfolding region_size expected_size
map_bytes_exact = refl

pub sixteen_pages : region_size primary.region ≡ 16
unfolding region_size
sixteen_pages = refl

pub at_pages :
    (primary.region.begin % page_size ≡ 0)
    × (primary.region.end % page_size ≡ 0)
    × (0x101000 % page_size ≡ 0)
at_pages = (refl, refl, refl)

pub in_order :
    (page_size ≤ primary.region.begin)
    × (primary.region.begin ≤ 0x101000)
    × (0x101000 + map_pages primary * page_size ≤ primary.region.end)
in_order = (omega arith, omega arith, omega (arith, one_map_page))

-- The page allocator after its initialization.
abbrev pub start :
    (s : PageAllocator) × (PageAllocator.initialize primary 0x101000 map_bytes ≡ ok s)
    × Started primary.region (page_of (0x101000 + map_pages primary * page_size)) s
start = Returns-ok _ _ (
    initialize-Started primary primary-Inv 0x101000 map_bytes map_bytes-IsBytes at_pages in_order
      map_bytes_exact (omega (arith, sixteen_pages)))

abbrev pub pool : PageAllocator
pool = start.0

abbrev pub byte : List ℕ
byte = 255 ∷ []

-- The machine with no free page, whose block of three pages is in use.
abbrev pub small_region : MemoryRegion
small_region = record { begin = 0x100000; end = 0x108000 }

abbrev pub block : Pblk
block = record { ptr = 0x100000; size = 3 }

abbrev pub full_pool : PageAllocator
full_pool = record {
  primary = ready zeroes small_region;
  map = set_value (BitArray.initialize byte 8) 2 true;
}

one_byte : IsBytes byte
one_byte zero = omega arith
one_byte (suc i) = omega arith

one_byte_exact : length byte ≡ expected_size 8
unfolding expected_size
one_byte_exact = refl

pub full_pool-PageInv : PageInv full_pool nothing ([] ++ block ∷ [])
unfolding held ends in_pages region_size
full_pool-PageInv = record {
  buddy = ready-Inv zeroes small_region;
  region_at_page = refl;
  region_some = omega arith;
  inside = λ p some. absurd (ground (arith, some, total-empty lists p));
  disjoint = λ p. ground (arith, total-empty lists p);
  blocks_ok = (
    record {
      at_page = refl;
      some_block = omega arith;
      some_page = omega arith;
      from_begin = omega arith;
      to_end = omega arith;
    },
    tt,
  );
  bits = λ i. ground (
    arith,
    get-set_value (BitArray.initialize byte 8) 2 i true (initialize-IsBytes byte 8 one_byte)
        (omega (arith, initialize-length byte 8)),
    initialize_zero byte 8 i (omega arith) one_byte_exact,
  );
  bytes =
      set_value-IsBytes (BitArray.initialize byte 8) 2 true (initialize-IsBytes byte 8 one_byte);
  room =
      omega (arith, length-set_value (BitArray.initialize byte 8) 2 true, initialize-length byte 8);
}
