-- ===== src/Memory/PageAllocator/Blocks.antt =====
-- The blocks in use, as the page allocator of kernel/memory/page_allocator.cpp stands for them.
use bolgenos_ng.Base.{
  ℕ, ◌+◌, ◌-◌, ◌*◌, ◌%◌, ◌≤◌, ◌<◌, ◌≡◌, ◌≢◌, refl, Bool, true, false, ◌||◌, List, [], ◌∷◌, ◌++◌,
  arith, ◌==◌, length,
}
use bolgenos_ng.Utils.BitArray.{get, IsBytes}
use bolgenos_ng.Memory.FreeList.{page_size}
use bolgenos_ng.Memory.Buddy.{Pblk, MemoryRegion, region_size}
use bolgenos_ng.Memory.Buddy.Cover.{page_of, in_pages, total}
use bolgenos_ng.Memory.Buddy.Invariant.{lists, Inv}
use bolgenos_ng.Memory.PageAllocator.{PageAllocator}

-- How many blocks in use hold the page.
unfoldable pub held : List Pblk → (page : ℕ) → ℕ
held [] p = 0
held (b ∷ bs) p = in_pages (page_of b.ptr) b.size p + held bs p

abbrev pub last_page : Pblk → ℕ
last_page b = page_of b.ptr + b.size - 1

-- Whether some block in use ends with the page.
unfoldable pub ends : List Pblk → (page : ℕ) → Bool
ends [] p = false
ends (b ∷ bs) p = last_page b == p || ends bs p

-- A block in use is made of whole pages of the region.
pub record IsBlock (region : MemoryRegion) (b : Pblk) : Type 0 where
  pub at_page : b.ptr % page_size ≡ 0
  pub some_block : b.ptr ≢ 0
  pub some_page : 1 ≤ b.size
  pub from_begin : region.begin ≤ b.ptr
  pub to_end : page_of b.ptr + b.size ≤ page_of region.end

abbrev pub Blocks : MemoryRegion → List Pblk → Type 0
Blocks region [] = Unit {0}
Blocks region (b ∷ bs) = IsBlock region b × Blocks region bs

pub record PageInv (s : PageAllocator) (items : ℕ → List ℕ) (blocks : List Pblk) : Type 0 where
  pub buddy : Inv s.primary items
  pub region_at_page : s.primary.region.begin % page_size ≡ 0
  pub region_some : page_size ≤ s.primary.region.begin
  pub inside :
      (p : ℕ)
      → total lists items p ≢ 0
      → (page_of s.primary.region.begin ≤ p) × (p < page_of s.primary.region.end)
  pub disjoint : (p : ℕ) → total lists items p + held blocks p ≤ 1
  pub blocks_ok : Blocks s.primary.region blocks
  pub bits : (i : ℕ) → get s.map i ≡ ends blocks (page_of s.primary.region.begin + i)
  pub bytes : IsBytes s.map.bytes
  pub room : region_size s.primary.region ≤ 8 * length s.map.bytes

pub held-append : (bs cs : List Pblk) (p : ℕ) → held (bs ++ cs) p ≡ held bs p + held cs p
unfolding held
held-append [] cs p = omega arith
held-append (b ∷ bs) cs p = omega (arith, held-append bs cs p)

pub ends-append : (bs cs : List Pblk) (p : ℕ) → ends (bs ++ cs) p ≡ (ends bs p || ends cs p)
unfolding ends
ends-append [] cs p = refl
ends-append (b ∷ bs) cs p = ground (arith, ends-append bs cs p)

-- A block holds its last page.
pub in_pages-last : (b : Pblk) → 1 ≤ b.size → in_pages (page_of b.ptr) b.size (last_page b) ≡ 1
unfolding in_pages
in_pages-last b some = ground arith

-- A page that a block in use ends with is held.
pub ends-held :
    (region : MemoryRegion) (bs : List Pblk) (p : ℕ)
    → Blocks region bs
    → ends bs p ≡ true
    → 1 ≤ held bs p
unfolding ends held in_pages
ends-held region [] p ok e = cc
ends-held region (b ∷ bs) p ok e = ground (arith, ok.0.some_page, ends-held region bs p ok.1)
