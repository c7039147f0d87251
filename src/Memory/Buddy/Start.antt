-- ===== src/Memory/Buddy/Start.antt =====
-- The buddy allocator of kernel/memory/buddy_allocator.cpp before its first call.
use bolgenos_ng.Base.{
  ℕ, zero, suc, ◌+◌, ◌<◌, ◌≡◌, refl, ap, ◌∙◌, false, List, [], ◌∷◌, replicate, arith, ◌==◌,
}
use bolgenos_ng.Memory.Machine.{Heap, ok, Returns}
use bolgenos_ng.Memory.FreeList.{FreeList}
use bolgenos_ng.Memory.FreeList.Get.{initialize_lem}
use bolgenos_ng.Memory.Buddy.{
  BuddyAllocator, MemoryRegion, max_order, list_at, initialize, initialize_from,
}
use bolgenos_ng.Memory.Buddy.Cover.{cover, total}
use bolgenos_ng.Memory.Buddy.Invariant.{lists, Inv}

-- The member initializers of `FreeList` and of `BuddyAllocator`.
abbrev pub default_list : FreeList
default_list = record { items = 0; list = 0; order = 0; disable_squashing = false }

unfoldable pub default_allocator : Heap → BuddyAllocator
default_allocator h = record {
  heap = h;
  free_list = replicate 11 default_list;
  allocations = 0;
  deallocations = 0;
  region = record { begin = 0; end = 0 };
}

abbrev pub empty_list : ℕ → FreeList
empty_list order = record {
  items = 0;
  list = 0;
  order = order;
  disable_squashing = order == max_order;
}

abbrev pub empty_lists : ℕ → ℕ → List FreeList
empty_lists zero order = []
empty_lists (suc n) order = empty_list order ∷ empty_lists n (order + 1)

initialize_from-empty :
    (h : Heap) (n order : ℕ)
    → initialize_from h order (replicate n default_list) ≡ ok (empty_lists n order)
unfolding initialize_from
initialize_from-empty h zero order = refl
initialize_from-empty h (suc n) order = rw (
  initialize_lem default_list order (order == max_order) h,
  initialize_from-empty h n (order + 1),
)

list_at-empty :
    (n k order : ℕ) → k < n → list_at (empty_lists n order) k ≡ ok (empty_list (order + k))
unfolding list_at
list_at-empty zero k order less = elim less [ ]
list_at-empty (suc n) zero order less = ap (λ o. ok (empty_list o)) (omega arith)
list_at-empty (suc n) (suc k) order less =
    list_at-empty n k (order + 1) (omega arith) ∙ ap (λ o. ok (empty_list o)) (omega arith)

-- Empty lists hold no page.
pub total-empty : (n p : ℕ) → total n (λ _. []) p ≡ 0
unfolding total cover
total-empty zero p = refl
total-empty (suc n) p = omega (arith, total-empty n p)

-- The allocator with its eleven empty lists.
abbrev pub ready : Heap → MemoryRegion → BuddyAllocator
ready h region = record {
  heap = h;
  free_list = empty_lists 11 0;
  allocations = 0;
  deallocations = 0;
  region = region;
}

pub ready-Inv : (h : Heap) (region : MemoryRegion) → Inv (ready h region) (λ _. [])
ready-Inv h region = record {
  each = λ k l. record {
    fl = empty_list (0 + k);
    at = list_at-empty 11 k 0 l;
    rep = record { chain = refl; ascending = tt; counted = refl };
    order = omega arith;
    squashing = ap (λ o. o == max_order) (omega arith);
    aligned = tt;
  };
  disjoint = λ p. omega (arith, total-empty lists p);
}

-- A new buddy allocator is initialized without a panic and keeps its invariant, with empty lists of
-- the orders 0 to 10, of which the last one does not squash; the memory is not touched and no
-- deallocation is counted.
pub initialize-Inv :
    (h : Heap) (region : MemoryRegion)
    → Returns
        (λ s. Inv s (λ _. []) × (s.region ≡ region) × (s.heap ≡ h) × (s.deallocations ≡ 0))
        (initialize (default_allocator h) region)
unfolding initialize default_allocator
initialize-Inv h region = rw (initialize_from-empty h 11 0) (ready-Inv h region, refl, refl, refl)
