-- ===== src/Memory/PageAllocator/Allocate.antt =====
-- `PageAllocator::allocate` of kernel/memory/page_allocator.cpp.
use bolgenos_ng.Base.{
  ℕ, ◌+◌, ◌-◌, ◌/◌, ◌%◌, ◌^◌, ◌≤◌, ◌<◌, ◌≡◌, ◌≢◌, refl, sym, subst, ◌∙◌, ◌⊎◌, inl, inr, true, false,
  List, [], ◌∷◌, arith, ◌==◌, if◌then◌else◌, length,
}
use bolgenos_ng.Utils.MemUtils.{word}
use bolgenos_ng.Utils.BitArray.{
  BitArray, IsBytes, set_value, set_value-IsBytes, get-set_value, length-set_value,
}
use bolgenos_ng.Utils.BitArray
use bolgenos_ng.Memory.Machine.{ok, Returns, Returns-bind}
use bolgenos_ng.Memory.FreeList.{page_size}
use bolgenos_ng.Memory.Buddy.{Pblk, BuddyAllocator, MemoryRegion, index_of, region_size}
use bolgenos_ng.Memory.Buddy
use bolgenos_ng.Memory.Buddy.Cover.{page_of, in_pages, total, total-ext}
use bolgenos_ng.Memory.Buddy.Invariant.{lists, Inv}
use bolgenos_ng.Memory.Buddy.Get.{Taken, get-Taken}
use bolgenos_ng.Memory.PageAllocator.{PageAllocator, zero_size_page, allocate}
use bolgenos_ng.Memory.PageAllocator.Blocks.{
  PageInv, IsBlock, Blocks, held, ends, last_page, in_pages-last,
}

abbrev pub block : ℕ → ℕ → Pblk
block ptr size = record { ptr = ptr; size = size }

-- What `allocate` of `count` pages does: it fails, and nothing changes, only where no list has a
-- block that is large enough; or the pages move from the lists to a new block in use.
pub record Allocated (s : PageAllocator) (items : ℕ → List ℕ) (blocks : List Pblk) (count : ℕ)
    (r : PageAllocator × ℕ) : Type 0 where
  pub region : r.0.primary.region ≡ s.primary.region
  pub items' : ℕ → List ℕ
  pub outcome :
      ((r.1 ≡ 0)
        × PageInv r.0 items' blocks
        × ((p : ℕ) → total lists items' p ≡ total lists items p)
        × ((j : ℕ) → j < lists → count ≤ 2 ^ j → items j ≡ []))
      ⊎ ((r.1 ≢ 0)
          × PageInv r.0 items' (block r.1 count ∷ blocks)
          × ((p : ℕ) → total lists items p ≡ total lists items' p + in_pages (page_of r.1) count p))

module _ (s : PageAllocator) (items : ℕ → List ℕ) (blocks : List Pblk)
    (inv : PageInv s items blocks) (count : ℕ) (some : 1 ≤ count) (word_size : count ≤ word) where
  module _ (items' : ℕ → List ℕ) (ptr : ℕ) (ne : ptr ≢ 0) (at_page : ptr % page_size ≡ 0)
      (pages : (p : ℕ)
        → total lists items p ≡ total lists items' p + in_pages (page_of ptr) count p) where
    first_inside : page_of s.primary.region.begin ≤ page_of ptr
    first_inside = (inv.inside (page_of ptr) (ground (arith, pages (page_of ptr), first))).0
      where
        first : in_pages (page_of ptr) count (page_of ptr) ≡ 1
        first = unfold in_pages in ground arith

    last_inside : page_of ptr + count - 1 < page_of s.primary.region.end
    last_inside =
        (inv.inside (page_of ptr + count - 1)
          (ground (arith, pages (page_of ptr + count - 1), in_pages-last (block ptr count) some))).1

    block_ok : IsBlock s.primary.region (block ptr count)
    block_ok = record {
      at_page = at_page;
      some_block = ne;
      some_page = some;
      from_begin = omega (arith, first_inside, inv.region_at_page);
      to_end = omega (arith, last_inside);
    }

    index : ℕ
    index = index_of s.primary.region ptr + count - 1

    index_last : page_of s.primary.region.begin + index ≡ last_page (block ptr count)
    unfolding index index_of
    index_last = omega (arith, first_inside, inv.region_at_page)

    index_room : index / 8 < length s.map.bytes
    unfolding index index_of region_size
    index_room = omega (arith, inv.room, last_inside, first_inside, inv.region_at_page)

    new_bits :
        (i : ℕ)
        → BitArray.get (set_value s.map index true) i
          ≡ ends (block ptr count ∷ blocks) (page_of s.primary.region.begin + i)
    unfolding ends
    new_bits i =
        ground
          (arith, get-set_value s.map index i true inv.bytes index_room, inv.bits i, index_last)

    grown :
        (primary' : BuddyAllocator)
        → Inv primary' items'
        → primary'.region ≡ s.primary.region
        → PageInv
            (record { primary = primary'; map = set_value s.map index true })
            items'
            (block ptr count ∷ blocks)
    grown primary' inv' same = record {
      buddy = inv';
      region_at_page = rw same inv.region_at_page;
      region_some = rw same inv.region_some;
      inside = λ p held_p. rw same (inv.inside p (λ z. held_p (omega (arith, pages p, z))));
      disjoint = λ p. unfold held in omega (arith, inv.disjoint p, pages p);
      blocks_ok =
          subst (λ r. IsBlock r (block ptr count) × Blocks r blocks) (sym same)
            (block_ok, inv.blocks_ok);
      bits = λ i. rw same (new_bits i);
      bytes = set_value-IsBytes s.map index true inv.bytes;
      room = rw same (omega (arith, inv.room, length-set_value s.map index true));
    }

  unchanged :
      (primary' : BuddyAllocator) (items' : ℕ → List ℕ)
      → Inv primary' items'
      → primary'.region ≡ s.primary.region
      → ((j : ℕ) → items' j ≡ items j)
      → PageInv (record s { primary = primary' }) items' blocks
  unchanged primary' items' inv' same items_same = record {
    buddy = inv';
    region_at_page = rw same inv.region_at_page;
    region_some = rw same inv.region_some;
    inside = λ p held_p. rw same (inv.inside p (λ z. held_p (as_before p ∙ z)));
    disjoint = λ p. omega (arith, inv.disjoint p, as_before p);
    blocks_ok = subst (λ r. Blocks r blocks) (sym same) inv.blocks_ok;
    bits = λ i. rw same (inv.bits i);
    bytes = inv.bytes;
    room = rw same inv.room;
  }
    where
      as_before : (p : ℕ) → total lists items' p ≡ total lists items p
      as_before p = total-ext lists items' items p (λ j _. items_same j)

  of_Taken :
      (primary' : BuddyAllocator) (blk : Pblk)
      → Taken s.primary items count (primary', blk)
      → Returns (Allocated s items blocks count) (
          if blk.ptr == 0
          then ok (record s { primary = primary' }, 0)
          else ok (
            record {
              primary = primary';
              map = set_value s.map (index_of primary'.region blk.ptr + blk.size - 1) true;
            },
            blk.ptr,
          ))
  of_Taken primary' blk taken = elim taken.outcome [
    | inl (z, same, none_fits) ↦
        let null : (blk.ptr == 0) ≡ true = ground arith in
        rw null (record {
          region = taken.region;
          items' = taken.items';
          outcome = inl (
            refl,
            unchanged primary' taken.items' taken.inv taken.region same,
            λ p. total-ext lists taken.items' items p (λ j _. same j),
            none_fits,
          );
        })
    | inr (ne, size, at_page, pages) ↦
        let here : (blk.ptr == 0) ≡ false = ground arith in
        simp (here, size, taken.region)
          (record {
            region = taken.region;
            items' = taken.items';
            outcome = inr (
              ne,
              unfold index in
                  grown taken.items' blk.ptr ne at_page pages primary' taken.inv taken.region,
              pages,
            );
          })
  ]

  pub allocate-Allocated : Returns (Allocated s items blocks count) (allocate s count)
  unfolding allocate
  allocate-Allocated =
      let some_pages : (count == 0) ≡ false = ground arith in
      rw some_pages (
        Returns-bind (Taken s.primary items count) _ (Buddy.get s.primary count) _
          (get-Taken s.primary items count inv.buddy some word_size)
          λ (primary', blk) taken. of_Taken primary' blk taken)

-- An allocation of no page returns an address and changes nothing.
pub allocate-zero : (s : PageAllocator) → allocate s 0 ≡ ok (s, zero_size_page)
unfolding allocate
allocate-zero s = refl
