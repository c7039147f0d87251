-- ===== src/Memory/Buddy/Get.antt =====
-- `BuddyAllocator::get` of kernel/memory/buddy_allocator.cpp.
use bolgenos_ng.Base.{
  ℕ, ◌+◌, ◌-◌, ◌*◌, ◌%◌, ◌^◌, ◌≤◌, ◌<◌, ◌≡◌, ◌≢◌, refl, ◌∙◌, ◌⊎◌, inl, inr, true, false, List, [],
  arith, ltb, ltb→lt, ◌==◌, if◌then◌else◌, Bool-cases, ℕ_discrete,
}
use native.Mathlib.Nat.{pow-le-pow_right}
use bolgenos_ng.Utils.MemUtils.{word}
use bolgenos_ng.Memory.Machine.{ok, Returns, Returns-bind, Returns-mono}
use bolgenos_ng.Memory.FreeList.{page_size}
use bolgenos_ng.Memory.Buddy.{
  Pblk, BuddyAllocator, max_order, search_lists, split_block, get, order_for, no_block, put,
}
use bolgenos_ng.Memory.Buddy.Cover.{page_of, in_pages, total}
use bolgenos_ng.Memory.Buddy.Order.{order_for_lem}
use bolgenos_ng.Memory.Buddy.Invariant.{lists, Inv}
use bolgenos_ng.Memory.Buddy.Put.{
  Placed, Takes, put-Placed, counted, in_pages_split, nothing_Placed,
}
use bolgenos_ng.Memory.Buddy.Search.{Searched, search_lists-Searched}

counted_keeps :
    (s : BuddyAllocator) (blk : Pblk)
    → ((counted s blk).region ≡ s.region) × ((counted s blk).allocations ≡ s.allocations)
counted_keeps s blk = ground arith

past_page : (frame pages : ℕ) → page_of (frame + pages * page_size) ≡ page_of frame + pages
past_page frame pages = omega arith

-- What `get` of `count` pages makes of the lists that hold `items`: no list has a block that is
-- large enough, and nothing changes; or the pages of the result leave the lists.
pub record Taken (s : BuddyAllocator) (items : ℕ → List ℕ) (count : ℕ) (r : BuddyAllocator × Pblk)
    : Type 0 where
  pub items' : ℕ → List ℕ
  pub inv : Inv r.0 items'
  pub region : r.0.region ≡ s.region
  pub allocations : r.0.allocations ≡ (s.allocations + 1) % word
  pub outcome :
      ((r.1.ptr ≡ 0)
        × ((j : ℕ) → items' j ≡ items j)
        × ((j : ℕ) → j < lists → count ≤ 2 ^ j → items j ≡ []))
      ⊎ ((r.1.ptr ≢ 0)
          × (r.1.size ≡ count)
          × (r.1.ptr % page_size ≡ 0)
          × ((p : ℕ)
              → total lists items p ≡ total lists items' p + in_pages (page_of r.1.ptr) count p))

abbrev leftover : (pages order frame : ℕ) → Pblk
leftover pages order frame = record { ptr = frame + pages * page_size; size = 2 ^ order - pages }

module _ (s : BuddyAllocator) (items : ℕ → List ℕ) (pages order frame : ℕ) where
  -- The block of the order splits into the pages asked for and the leftover.
  abbrev Split : BuddyAllocator × Pblk → Type 0
  Split r =
      Placed (counted s (leftover pages order frame)) items (page_of frame + pages)
        (2 ^ order - pages) r.0
      × (r.1 ≡ record { ptr = frame; size = pages })

  split_block-Split :
      Inv s items
      → Takes items (leftover pages order frame)
      → Returns Split (split_block s pages order frame)
  unfolding split_block
  split_block-Split inv takes =
      let page : page_of (frame + pages * page_size) ≡ page_of frame + pages = omega arith in
      elim (ℕ_discrete (2 ^ order - pages) 0) [
        | yes e ↦
            let done : (2 ^ order - pages == 0) ≡ true = ground arith in
            rw done (rw e (nothing_Placed s items (page_of frame + pages) inv), refl)
        | no ne ↦
            let more : (2 ^ order - pages == 0) ≡ false = ground arith in
            rw more (
              Returns-bind
                (Placed (counted s (leftover pages order frame)) items
                  (page_of (frame + pages * page_size)) (2 ^ order - pages))
                _ (put s (leftover pages order frame)) _
                (put-Placed s items (leftover pages order frame) inv takes)
                λ s' pl. (rw page at pl, refl))
      ]

module _ (s : BuddyAllocator) (items : ℕ → List ℕ) (count : ℕ) (inv : Inv s items)
    (some : 1 ≤ count) (word_size : count ≤ word) where
  abbrev start : BuddyAllocator
  start = record s { allocations = (s.allocations + 1) % word }

  start-Inv : Inv start items
  start-Inv = record { each = inv.each; disjoint = inv.disjoint }

  lowest : (count ≤ 2 ^ order_for 32 0 count) × ((j : ℕ) → count ≤ 2 ^ j → order_for 32 0 count ≤ j)
  lowest = let (_, a, b) = order_for_lem 32 0 count word_size in (a, λ j h. b j (omega arith) h)

  found-Taken :
      (s' : BuddyAllocator) (order frame : ℕ)
      → Searched start items (order_for 32 0 count) (s', order, frame)
      → Returns
          (Taken s items count)
          (if frame == 0 then ok (s', no_block) else split_block s' count order frame)
  found-Taken s' order frame found = elim found.outcome [
    | inl (z, same, empty) ↦
        let null : (frame == 0) ≡ true = ground arith in
        rw null (record {
          items' = found.items';
          inv = found.inv;
          region = found.kept.region;
          allocations = found.kept.allocations;
          outcome = inl (refl, same, λ j l fits. empty j (lowest.1 j fits) l);
        })
    | inr (ne, lo, al, pages) ↦
        let here : (frame == 0) ≡ false = ground arith in
        let fits : count ≤ 2 ^ order = omega (
          arith,
          lowest.0,
          pow-le-pow_right {n = 2} (omega arith) {i = order_for 32 0 count} {j = order} lo,
        ) in
        let takes : Takes found.items' (leftover count order frame) = record {
          at_page = omega (arith, al.1);
          some_block = omega arith;
          free = λ p. rw (past_page frame count) (
              omega (
                arith,
                inv.disjoint p,
                pages p,
                in_pages_split (page_of frame) count (2 ^ order) p fits,
              ));
        } in
        rw here (
          Returns-mono (Split s' found.items' count order frame) _ _
            (split_block-Split s' found.items' count order frame found.inv takes)
            λ (s'', blk) (pl, e). record {
              items' = pl.items';
              inv = pl.inv;
              region =
                  pl.kept.region
                  ∙ (counted_keeps s' (leftover count order frame)).0
                  ∙ found.kept.region;
              allocations =
                  pl.kept.allocations
                  ∙ (counted_keeps s' (leftover count order frame)).1
                  ∙ found.kept.allocations;
              outcome = inr (
                rw e ne,
                rw e refl,
                rw e (omega (arith, al.1)),
                λ p. rw e (
                    omega (
                      arith,
                      pages p,
                      pl.pages p,
                      in_pages_split (page_of frame) count (2 ^ order) p fits,
                    )),
              );
            })
  ]

  pub get-Taken : Returns (Taken s items count) (get s count)
  unfolding get
  get-Taken = elim (Bool-cases (ltb max_order (order_for 32 0 count))) [
    | inl high ↦ rw high (record {
      items' = items;
      inv = start-Inv;
      region = refl;
      allocations = refl;
      outcome = inl (
        refl,
        λ j. refl,
        λ j l fits.
            absurd (omega (arith, ltb→lt max_order (order_for 32 0 count) high, lowest.1 j fits)),
      );
    })
    | inr low ↦ rw low (
        Returns-bind (Searched start items (order_for 32 0 count)) (Taken s items count)
          (search_lists (11 - order_for 32 0 count) start (order_for 32 0 count)) _
          (search_lists-Searched (11 - order_for 32 0 count) start items (order_for 32 0 count)
            start-Inv (ground arith))
          λ (s', order, frame) found. found-Taken s' order frame found)
  ]
