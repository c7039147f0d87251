-- ===== src/Memory/PageAllocator/Deallocate.antt =====
-- `PageAllocator::deallocate` of kernel/memory/page_allocator.cpp.
use bolgenos_ng.Base.{
  ℕ, zero, suc, ◌+◌, ◌-◌, ◌/◌, ◌≤◌, ◌<◌, ◌≡◌, ◌≢◌, refl, sym, subst, ap, ap₂, ◌∙◌, true, false,
  ◌||◌, List, [], ◌∷◌, ◌++◌, arith, ◌==◌, length, ℕ_discrete,
}
use bolgenos_ng.Utils.BitArray.{
  BitArray, IsBytes, set_value, set_value-IsBytes, get-set_value, length-set_value,
}
use bolgenos_ng.Utils.BitArray
use bolgenos_ng.Memory.Machine.{ok, Returns, Returns-bind}
use bolgenos_ng.Memory.Buddy.{Pblk, BuddyAllocator, MemoryRegion, index_of, region_size}
use bolgenos_ng.Memory.Buddy
use bolgenos_ng.Memory.Buddy.Cover.{page_of, in_pages, total}
use bolgenos_ng.Memory.Buddy.Invariant.{lists}
use bolgenos_ng.Memory.Buddy.Put.{Placed, Takes, put-Placed, counted}
use bolgenos_ng.Memory.PageAllocator.{PageAllocator, zero_size_page, scan, deallocate}
use bolgenos_ng.Memory.PageAllocator.Blocks.{
  PageInv, IsBlock, Blocks, held, held-append, ends, ends-append, ends-held, last_page,
}

-- The loop stops at the first page whose bit is set.
scan-end :
    (fuel : ℕ) (map : BitArray) (index limit size gap : ℕ)
    → index + gap < limit
    → gap < fuel
    → ((i : ℕ) → index ≤ i → i < index + gap → BitArray.get map i ≡ false)
    → BitArray.get map (index + gap) ≡ true
    → scan fuel map index limit size ≡ ok (set_value map (index + gap) false, size + gap + 1)
unfolding scan
scan-end zero map index limit size gap inside enough clear here = absurd (omega arith)
scan-end (suc fuel) map index limit size zero inside enough clear here =
    let more : (index == limit) ≡ false = ground arith in
    let at : BitArray.get map index ≡ true =
      subst (λ i. BitArray.get map i ≡ true) (omega arith) here in
    rw (more, at) (ap₂ (λ i n. ok (set_value map i false, n)) (omega arith) (omega arith))
scan-end (suc fuel) map index limit size (suc gap) inside enough clear here =
    let more : (index == limit) ≡ false = ground arith in
    let not_yet : BitArray.get map index ≡ false = clear index (omega arith) (omega arith) in
    let shift : index + suc gap ≡ index + 1 + gap = omega arith in
    rw (more, not_yet)
      (scan-end fuel map (index + 1) limit (size + 1) gap (omega arith) (omega arith)
          (λ i lo hi. clear i (omega arith) (omega arith))
          (subst (λ i. BitArray.get map i ≡ true) shift here)
        ∙ ap₂ (λ i n. ok (set_value map i false, n)) (omega arith) (omega arith))

Blocks-mid :
    (region : MemoryRegion) (pre : List Pblk) (b : Pblk) (suf : List Pblk)
    → Blocks region (pre ++ b ∷ suf)
    → IsBlock region b × Blocks region pre × Blocks region suf × Blocks region (pre ++ suf)
Blocks-mid region [] b suf h = (h.0, tt, h.1, h.1)
Blocks-mid region (x ∷ pre) b suf h =
    let (is, front, back, all) = Blocks-mid region pre b suf h.1 in
    (is, (h.0, front), back, (h.0, all))

module _ (s : PageAllocator) (items : ℕ → List ℕ) (pre : List Pblk) (b : Pblk) (suf : List Pblk)
    (inv : PageInv s items (pre ++ b ∷ suf)) where
  abbrev base : ℕ
  base = page_of s.primary.region.begin

  parts :
      IsBlock s.primary.region b
      × Blocks s.primary.region pre
      × Blocks s.primary.region suf
      × Blocks s.primary.region (pre ++ suf)
  parts = Blocks-mid s.primary.region pre b suf inv.blocks_ok

  is : IsBlock s.primary.region b
  is = parts.0

  held-split :
      (p : ℕ)
      → held (pre ++ b ∷ suf) p ≡ held pre p + (in_pages (page_of b.ptr) b.size p + held suf p)
  held-split p = held-append pre (b ∷ suf) p ∙ unfold held in refl

  -- No other block ends within this one.
  others_end :
      (p : ℕ) → in_pages (page_of b.ptr) b.size p ≡ 1 → (ends pre p ≡ false) × (ends suf p ≡ false)
  others_end p within = (
    ground (arith, ends-held s.primary.region pre p parts.1, inv.disjoint p, held-split p),
    ground (arith, ends-held s.primary.region suf p parts.2, inv.disjoint p, held-split p),
  )

  within :
      (i : ℕ)
      → page_of b.ptr ≤ i
      → i < page_of b.ptr + b.size
      → in_pages (page_of b.ptr) b.size i ≡ 1
  within i lo hi = unfold in_pages in ground arith

  all_ends : (p : ℕ) → ends (pre ++ b ∷ suf) p ≡ (ends pre p || (last_page b == p || ends suf p))
  all_ends p = ends-append pre (b ∷ suf) p ∙ unfold ends in refl

  abbrev index : ℕ
  index = index_of s.primary.region b.ptr

  index_page : base + index ≡ page_of b.ptr
  unfolding index_of
  index_page = omega (arith, is.from_begin, inv.region_at_page)

  last_index : base + (index + (b.size - 1)) ≡ last_page b
  last_index = omega (arith, index_page, is.some_page)

  below_limit : index + (b.size - 1) < region_size s.primary.region
  unfolding region_size index_of
  below_limit = omega (arith, is.some_page, is.to_end, is.from_begin, inv.region_at_page)

  -- What the map shows at a page of the block, the one with the index `i`.
  bit_within :
      (i : ℕ)
      → index ≤ i
      → i ≤ index + (b.size - 1)
      → BitArray.get s.map i ≡ (index + (b.size - 1) == i)
  bit_within i lo hi =
      let here =
        within (base + i) (omega (arith, index_page)) (omega (arith, index_page, is.some_page)) in
      let out = others_end (base + i) here in
      ground (arith, inv.bits i, all_ends (base + i), out, last_index)

  scanned :
      scan (region_size s.primary.region) s.map index (region_size s.primary.region) 0
      ≡ ok (set_value s.map (index + (b.size - 1)) false, b.size)
  scanned =
      scan-end (region_size s.primary.region) s.map index (region_size s.primary.region) 0
        (b.size - 1) below_limit (omega (arith, below_limit))
        (λ i lo hi. ground (arith, bit_within i))
        (ground (arith, bit_within (index + (b.size - 1))))
      ∙ ap (λ n. ok (set_value s.map (index + (b.size - 1)) false, n)) (omega (arith, is.some_page))

  takes : Takes items b
  takes = record {
    at_page = is.at_page;
    some_block = is.some_block;
    free = λ p. omega (arith, inv.disjoint p, held-split p);
  }

  kept_ends : (p : ℕ) → ends (pre ++ suf) p ≡ (ends pre p || ends suf p)
  kept_ends p = ends-append pre suf p

  new_bits :
      (i : ℕ)
      → BitArray.get (set_value s.map (index + (b.size - 1)) false) i ≡ ends (pre ++ suf) (base + i)
  new_bits i =
      get-set_value s.map (index + (b.size - 1)) i false inv.bytes room
      ∙ elim (ℕ_discrete (index + (b.size - 1)) i) [
        | yes e ↦
            let here =
              within (base + i) (omega (arith, index_page))
                (omega (arith, index_page, is.some_page)) in
            ground (arith, others_end (base + i) here, kept_ends (base + i))
        | no ne ↦ ground (arith, inv.bits i, all_ends (base + i), kept_ends (base + i), last_index)
      ]
    where
      room : (index + (b.size - 1)) / 8 < length s.map.bytes
      room = omega (arith, inv.room, below_limit)

  inside_after :
      (p : ℕ)
      → total lists items p + in_pages (page_of b.ptr) b.size p ≢ 0
      → (base ≤ p) × (p < page_of s.primary.region.end)
  inside_after p some = elim (ℕ_discrete (total lists items p) 0) [
    | no ne ↦ inv.inside p ne
    | yes e ↦
        let held_p : in_pages (page_of b.ptr) b.size p ≢ 0 = λ z. some (omega arith) in
        unfold in_pages in ground (arith, is.from_begin, is.to_end)
  ]

  shrunk :
      (primary' : BuddyAllocator)
      → (pl : Placed (counted s.primary b) items (page_of b.ptr) b.size primary')
      → primary'.region ≡ s.primary.region
      → PageInv
          (record { primary = primary'; map = set_value s.map (index + (b.size - 1)) false })
          pl.items'
          (pre ++ suf)
  shrunk primary' pl same = record {
    buddy = pl.inv;
    region_at_page = rw same inv.region_at_page;
    region_some = rw same inv.region_some;
    inside = λ p some. rw same (inside_after p (λ z. some (pl.pages p ∙ z)));
    disjoint = λ p. omega (arith, inv.disjoint p, pl.pages p, held-split p, held-append pre suf p);
    blocks_ok = subst (λ r. Blocks r (pre ++ suf)) (sym same) parts.3;
    bits = λ i. rw same (new_bits i);
    bytes = set_value-IsBytes s.map (index + (b.size - 1)) false inv.bytes;
    room = rw same (omega (arith, inv.room, length-set_value s.map (index + (b.size - 1)) false));
  }

  -- What `deallocate` of the block does.
  abbrev pub Freed : PageAllocator → Type 0
  Freed s' =
      (items' : ℕ → List ℕ) × PageInv s' items' (pre ++ suf)
      × ((p : ℕ) → total lists items' p ≡ total lists items p + in_pages (page_of b.ptr) b.size p)

  -- On a page allocator that keeps its invariant, `deallocate` of the address of a block in use
  -- returns: exactly the pages of that block, as many as were allocated, go back to the lists,
  -- every other block stays in use, and the invariant holds again.
  pub deallocate-Freed : Returns Freed (deallocate s b.ptr)
  unfolding deallocate
  deallocate-Freed =
      let plain : (b.ptr == 0 || b.ptr == zero_size_page) ≡ false =
        ground (arith, is.some_block, is.at_page) in
      rw (plain, scanned)
        (Returns-bind (Placed (counted s.primary b) items (page_of b.ptr) b.size) _
          (Buddy.put s.primary b) _ (put-Placed s.primary items b inv.buddy takes)
          λ primary' pl.
            (pl.items', shrunk primary' pl (pl.kept.region ∙ counted_region), pl.pages))
    where
      counted_region : (counted s.primary b).region ≡ s.primary.region
      counted_region = ground arith

-- A null pointer and the address of no page are left alone.
pub deallocate_nothing :
    (s : PageAllocator) → (deallocate s 0 ≡ ok s) × (deallocate s zero_size_page ≡ ok s)
unfolding deallocate
deallocate_nothing s = (refl, refl)
