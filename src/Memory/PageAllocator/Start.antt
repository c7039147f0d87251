-- ===== src/Memory/PageAllocator/Start.antt =====
-- `PageAllocator::initialize` of kernel/memory/page_allocator.cpp.
use bolgenos_ng.Base.{
  ℕ, ◌+◌, ◌-◌, ◌*◌, ◌/◌, ◌%◌, ◌≤◌, ◌≡◌, ◌∙◌, ◌&&◌, List, [], arith, leb, ltb, if◌then◌else◌, length,
}
use bolgenos_ng.Utils.MemUtils.{word}
use bolgenos_ng.Utils.BitArray
use bolgenos_ng.Utils.BitArray.{
  BitArray, IsBytes, expected_size, initialize_zero, initialize-length, initialize-IsBytes,
  expected_size-room,
}
use bolgenos_ng.Memory.Machine.{Returns, Returns-bind}
use bolgenos_ng.Memory.FreeList.{page_size}
use bolgenos_ng.Memory.Buddy.{Pblk, BuddyAllocator, MemoryRegion, region_size}
use bolgenos_ng.Memory.Buddy
use bolgenos_ng.Memory.Buddy.Cover.{page_of, in_pages, total}
use bolgenos_ng.Memory.Buddy.Invariant.{lists, Inv}
use bolgenos_ng.Memory.Buddy.Start.{total-empty}
use bolgenos_ng.Memory.Buddy.Put.{Placed, Takes, put-Placed, counted}
use bolgenos_ng.Memory.PageAllocator.{PageAllocator, map_pages, initialize}
use bolgenos_ng.Memory.PageAllocator.Blocks.{PageInv, held, ends}

-- The allocator is ready: no block is in use, and the free pages are those of the region after the
-- memory of the bit map.
pub record Started (region : MemoryRegion) (first : ℕ) (s : PageAllocator) : Type 0 where
  pub items : ℕ → List ℕ
  pub inv : PageInv s items []
  pub same_region : s.primary.region ≡ region
  pub free :
      (p : ℕ) → total lists items p ≡ (if leb first p && ltb p (page_of region.end) then 1 else 0)

module _ (primary : BuddyAllocator) (empty : Inv primary (λ _. [])) (first_free : ℕ)
    (memory : List ℕ) (are_bytes : IsBytes memory)
    (at_page : (primary.region.begin % page_size ≡ 0)
      × (primary.region.end % page_size ≡ 0)
      × (first_free % page_size ≡ 0))
    (ordered : (page_size ≤ primary.region.begin)
      × (primary.region.begin ≤ first_free)
      × (first_free + map_pages primary * page_size ≤ primary.region.end))
    (exact : length memory ≡ expected_size (region_size primary.region))
    (in_word : region_size primary.region + 8 ≤ word) where
  abbrev ptr : ℕ
  ptr = first_free + map_pages primary * page_size

  abbrev rest : Pblk
  rest = record { ptr = ptr; size = (primary.region.end - ptr) / page_size }

  takes : Takes (λ _. []) rest
  unfolding in_pages
  takes = record {
    at_page = omega (arith, at_page);
    some_block = omega (arith, ordered);
    free = λ p. ground (arith, total-empty lists p);
  }

  ends_page : page_of ptr + (primary.region.end - ptr) / page_size ≡ page_of primary.region.end
  ends_page = omega (arith, at_page, ordered)

  begins_page : page_of primary.region.begin ≤ page_of ptr
  begins_page = omega (arith, ordered)

  abbrev free_at : ℕ → ℕ
  free_at p = if leb (page_of ptr) p && ltb p (page_of primary.region.end) then 1 else 0

  free_pages :
      (items' : ℕ → List ℕ) (p : ℕ)
      → total lists items' p ≡ total lists (λ _. []) p + in_pages (page_of ptr) rest.size p
      → total lists items' p ≡ free_at p
  unfolding in_pages
  free_pages items' p e = ground (arith, e, total-empty lists p, ends_page)

  started :
      (primary' : BuddyAllocator)
      → Placed (counted primary rest) (λ _. []) (page_of ptr) rest.size primary'
      → Started primary.region (page_of ptr) (record {
        primary = primary';
        map = BitArray.initialize memory (region_size primary.region);
      })
  started primary' pl =
      let kept : primary'.region ≡ primary.region = pl.kept.region ∙ same in
      record {
        items = pl.items';
        inv = record {
          buddy = pl.inv;
          region_at_page = rw kept at_page.0;
          region_some = rw kept ordered.0;
          inside = λ p some.
              rw kept
                (ground (arith, some, free_pages pl.items' p (pl.pages p), ordered, begins_page));
          disjoint = λ p. unfold held in ground (arith, free_pages pl.items' p (pl.pages p));
          blocks_ok = tt;
          bits = λ i.
              unfold ends in initialize_zero memory (region_size primary.region) i in_word exact;
          bytes = initialize-IsBytes memory (region_size primary.region) are_bytes;
          room = rw kept (
              omega (
                arith,
                exact,
                initialize-length memory (region_size primary.region),
                expected_size-room (region_size primary.region),
              ));
        };
        same_region = kept;
        free = λ p. free_pages pl.items' p (pl.pages p);
      }
    where
      same : (counted primary rest).region ≡ primary.region
      same = ground arith

  -- On an empty buddy system of a region of whole pages, with room for the bit map from a first
  -- free page of the region on, `initialize` returns and the invariant holds with no block in use;
  -- the free pages are those from the end of the bit map to the end of the region. The bit map has
  -- the size that the region needs, and the number of pages is at most 2 ^ 32 - 8.
  pub initialize-Started :
      Returns
        (Started primary.region (page_of (first_free + map_pages primary * page_size)))
        (initialize primary first_free memory)
  unfolding initialize
  initialize-Started =
      Returns-bind (Placed (counted primary rest) (λ _. []) (page_of ptr) rest.size) _
        (Buddy.put primary rest) _ (put-Placed primary (λ _. []) rest empty takes) started
