-- ===== src/Memory/Slab/Start.antt =====
-- `SlabAllocator::initialize` of kernel/memory/slab.cpp, on the page allocator.
use bolgenos_ng.Base.{
  ℕ, zero, suc, ◌+◌, ◌-◌, ◌*◌, ◌%◌, ◌≤◌, ◌<◌, ◌≡◌, ◌≢◌, refl, sym, subst, ◌⊎◌, inl, inr, Bool, true,
  false, List, ◌∷◌, ◌==◌, if◌then◌else◌, length, arith, ℕ_discrete,
}
use native.Mathlib.Nat.{mod-eq_of_lt, mul-le-mul_right}
use bolgenos_ng.Utils.MemUtils.{word, align_up, IsCeiling, align_up-IsCeiling}
use bolgenos_ng.Utils.BitArray
use bolgenos_ng.Utils.BitArray.{
  BitArray, IsBytes, expected_size, initialize_clear, initialize-IsBytes,
}
use bolgenos_ng.Memory.Machine.{Returns, Returns-bind}
use bolgenos_ng.Memory.FreeList.{page_size}
use bolgenos_ng.Memory.Buddy.{Pblk}
use bolgenos_ng.Memory.Buddy.Cover.{page_of, in_pages, total}
use bolgenos_ng.Memory.Buddy.Invariant.{lists}
use bolgenos_ng.Memory.PageAllocator
use bolgenos_ng.Memory.PageAllocator.{PageAllocator}
use bolgenos_ng.Memory.PageAllocator.Blocks.{PageInv, in_pages-last}
use bolgenos_ng.Memory.PageAllocator.Allocate.{Allocated, allocate-Allocated, block}
use bolgenos_ng.Memory.Slab.{
  SlabAllocator, is_free, set_free, free_from, required_pages, initialize, is_initialized,
}
use bolgenos_ng.Memory.Slab.Chunks.{SlabInv, set_free-SlabInv, is_free-set_free}

-- Freeing elements one after the other, up to the last.
record Freed (s : SlabAllocator) (from : ℕ) (s' : SlabAllocator) : Type 0 where
  slab : SlabInv s'
  same :
      (s'.memory ≡ s.memory)
      × (s'.nelems ≡ s.nelems)
      × (s'.elem_size ≡ s.elem_size)
      × (s'.area ≡ s.area)
  free : (j : ℕ) → from ≤ j → j < s.nelems → is_free s' j ≡ true
  kept : (j : ℕ) → j < from → is_free s' j ≡ is_free s j

free_from-Freed :
    (s : SlabAllocator) (left elem : ℕ)
    → SlabInv s
    → elem + left ≡ s.nelems
    → Freed s elem (free_from left elem s)
unfolding free_from set_free
free_from-Freed s zero elem inv end = record {
  slab = inv;
  same = (refl, refl, refl, refl);
  free = λ j low high. absurd (omega arith);
  kept = λ j low. refl;
}
free_from-Freed s (suc left) elem inv end =
    let next =
      free_from-Freed (set_free s elem true) left (elem + 1) (set_free-SlabInv s elem true inv)
        (omega arith) in
    let here : (j : ℕ)
        → is_free (set_free s elem true) j ≡ (if elem == j then true else is_free s j) =
      λ j. is_free-set_free s elem j true inv (omega arith) in
    record {
      slab = next.slab;
      same = next.same;
      free = λ j low high. elim (ℕ_discrete elem j) [
        | yes e ↦ ground (arith, next.kept j, here j)
        | no ne ↦ next.free j (omega arith) high
      ];
      kept = λ j low. ground (arith, next.kept j, here j);
    }

-- What `initialize` does: no pages are left for it, or the slab is ready, with all its elements
-- free and within the pages of a new block in use.
pub record Ready (pool : PageAllocator) (items : ℕ → List ℕ) (blocks : List Pblk)
    (elem_size nelems : ℕ) (r : (SlabAllocator × PageAllocator) × Bool) : Type 0 where
  pub region : r.0.1.primary.region ≡ pool.primary.region
  pub items' : ℕ → List ℕ
  pub outcome :
      ((r.1 ≡ false) × (is_initialized r.0.0 ≡ false) × PageInv r.0.1 items' blocks)
      ⊎ ((r.1 ≡ true)
          × (is_initialized r.0.0 ≡ true)
          × PageInv r.0.1 items' (block r.0.0.area (required_pages elem_size nelems) ∷ blocks)
          × SlabInv r.0.0
          × ((j : ℕ) → j < nelems → is_free r.0.0 j ≡ true)
          × (r.0.0.area + expected_size nelems ≤ r.0.0.memory)
          × (r.0.0.memory + nelems * elem_size
              ≤ r.0.0.area + required_pages elem_size nelems * page_size)
          × (r.0.0.elem_size ≡ elem_size)
          × (r.0.0.nelems ≡ nelems))

module _ (s : SlabAllocator) (pool : PageAllocator) (items : ℕ → List ℕ) (blocks : List Pblk)
    (inv : PageInv pool items blocks) (in_word : pool.primary.region.end < word) (bytes : List ℕ)
    (are_bytes : IsBytes bytes) (elem_size nelems : ℕ) (some_size : 1 ≤ elem_size)
    (some : 1 ≤ nelems) (fits : elem_size * nelems + expected_size nelems + page_size ≤ word)
    (room : nelems ≤ 8 * length bytes) where
  abbrev need : ℕ
  need = elem_size * nelems + expected_size nelems

  enough : need ≤ required_pages elem_size nelems * page_size
  unfolding required_pages
  enough =
      let exact : need % word ≡ need = mod-eq_of_lt (omega (arith, fits)) in
      let c : IsCeiling 4096 need (align_up 4096 need) =
        align_up-IsCeiling 12 20 need refl (omega (arith, fits)) (omega (arith, fits)) in
      rw exact (ground (arith, c.above, c.multiple))

  need_some : 1 ≤ need
  unfolding expected_size
  need_some = ground arith

  pages_some : 1 ≤ required_pages elem_size nelems
  pages_some = omega (arith, enough, need_some)

  pages_word : required_pages elem_size nelems ≤ word
  unfolding required_pages
  pages_word =
      let exact : need % word ≡ need = mod-eq_of_lt (omega (arith, fits)) in
      let c : IsCeiling 4096 need (align_up 4096 need) =
        align_up-IsCeiling 12 20 need refl (omega (arith, fits)) (omega (arith, fits)) in
      rw exact (omega (arith, c.near, fits))

  elems_word : nelems + 8 ≤ word
  elems_word = grind (arith, fits, mul-le-mul_right nelems some_size)

  -- The slab before its elements are freed.
  abbrev raw : (area : ℕ) → SlabAllocator
  raw area = record {
    elem_size = elem_size;
    nelems = nelems;
    memory = (area + expected_size nelems) % word;
    area = area;
    allocation_map = BitArray.initialize bytes nelems;
    initialized = s.initialized;
  }

  -- The address of the elements does not wrap.
  memory_word :
      (area : ℕ)
      → area + required_pages elem_size nelems * page_size < word
      → (raw area).memory ≡ area + expected_size nelems
  memory_word area below = mod-eq_of_lt (omega (arith, enough, below))

  raw-SlabInv :
      (area : ℕ)
      → area ≢ 0
      → area + required_pages elem_size nelems * page_size < word
      → SlabInv (raw area)
  raw-SlabInv area some_area below = record {
    some_memory = λ e. ground (arith, memory_word area below, some_area, e);
    some_size = some_size;
    below = grind (arith, memory_word area below, enough);
    bytes = initialize-IsBytes bytes nelems are_bytes;
    room = omega (arith, room, (initialize_clear bytes nelems 0 elems_word some).1);
  }

  module _ (area : ℕ) (pool' : PageAllocator) (items' : ℕ → List ℕ) (some_area : area ≢ 0)
      (inv' : PageInv pool' items' (block area (required_pages elem_size nelems) ∷ blocks))
      (pages : (p : ℕ)
        → total lists items p
          ≡ total lists items' p
            + in_pages (page_of area) (required_pages elem_size nelems) p) where
    -- The new block ends below the end of the region.
    area-word : area + required_pages elem_size nelems * page_size < word
    area-word =
        let last = page_of area + required_pages elem_size nelems - 1 in
        let taken : total lists items last ≢ 0 = λ e. ground (
          arith,
          pages last,
          in_pages-last (block area (required_pages elem_size nelems)) pages_some,
          e,
        ) in
        omega (arith, (inv.inside last taken).1, inv'.blocks_ok.0.at_page, pages_some, in_word)

    pages-Ready :
        pool'.primary.region ≡ pool.primary.region
        → Ready pool items blocks elem_size nelems
            ((record (free_from nelems 0 (raw area)) { initialized = true }, pool'), true)
    unfolding is_initialized
    pages-Ready same =
        let below = area-word in
        let freed =
          free_from-Freed (raw area) nelems 0 (raw-SlabInv area some_area below) (omega arith) in
        record {
          region = same;
          items' = items';
          outcome = inr (
            refl,
            refl,
            subst (λ a. PageInv pool' items' (block a (required_pages elem_size nelems) ∷ blocks))
                (sym freed.same.3) inv',
            record {
              some_memory = freed.slab.some_memory;
              some_size = freed.slab.some_size;
              below = freed.slab.below;
              bytes = freed.slab.bytes;
              room = freed.slab.room;
            },
            λ j less. unfold is_free in freed.free j (omega arith) less,
            omega (arith, freed.same, memory_word area below),
            grind (arith, freed.same, memory_word area below, enough),
            freed.same.2,
            freed.same.1,
          );
        }

  pub slab_initialize-Ready :
      Returns (Ready pool items blocks elem_size nelems) (initialize s pool bytes elem_size nelems)
  unfolding initialize is_initialized
  slab_initialize-Ready =
      Returns-bind (Allocated pool items blocks (required_pages elem_size nelems)) _
        (PageAllocator.allocate pool (required_pages elem_size nelems)) _
        (allocate-Allocated pool items blocks inv (required_pages elem_size nelems) pages_some
          pages_word)
        λ (pool', area) post. elim post.outcome [
          | inl none ↦ rw none.0 (record {
            region = post.region;
            items' = post.items';
            outcome = inl (refl, refl, none.1);
          })
          | inr got ↦
              let t : (area == 0) ≡ false = ground (arith, got.0) in
              rw t (pages-Ready area pool' post.items' got.0 got.1 got.2 post.region)
        ]
