-- ===== src/Memory/Mallocator.antt =====
-- kernel/memory/mallocator.hpp and mallocator.cpp: allocation by bytes, from a chain of slabs whose
-- elements grow by 16 bytes, and from whole pages for what is larger. The fallback and the pages of
-- the slabs come from one page allocator, as kernel/memory/memory.cpp sets them up. The slab that
-- holds the chain itself is kept apart from the list that stands for the chain.
pub mod Sizes
pub mod Serve
pub mod Free
pub mod Start
use bolgenos_ng.Base.{
  ℕ, zero, suc, ◌+◌, ◌-◌, ◌*◌, ◌/◌, Bool, true, false, not, List, [], ◌∷◌, leb, ◌==◌, if◌then◌else◌,
  length, get_or, set, replicate,
}
use bolgenos_ng.Utils.MemUtils.{align_up}
use bolgenos_ng.Utils.BitArray.{BitArray}
use bolgenos_ng.Memory.Machine.{Run, ok, panicked, ◌>>=◌}
use bolgenos_ng.Memory.FreeList.{page_size}
use bolgenos_ng.Memory.PageAllocator
use bolgenos_ng.Memory.PageAllocator.{PageAllocator}
use bolgenos_ng.Memory.Slab
use bolgenos_ng.Memory.Slab.{SlabAllocator, owns}

pub record Mallocator : Type 0 where
  pub chain_length : ℕ
  pub chain : List SlabAllocator
  pub fallback : PageAllocator
  pub internal_allocator : SlabAllocator
  pub initialized : Bool

unfoldable pub chain_unit_size : ℕ → ℕ
chain_unit_size index = if index == 0 then 8 else index * 16

-- The member initializers of `SlabAllocator`.
abbrev pub default_slab : SlabAllocator
default_slab = record {
  elem_size = 0;
  nelems = 0;
  memory = 0;
  area = 0;
  allocation_map = record { size = 0; bytes = [] };
  initialized = false;
}

-- `chain_[idx]`; no read of this file is outside the chain.
abbrev pub slab_at : List SlabAllocator → ℕ → SlabAllocator
slab_at chain idx = get_or chain idx default_slab

-- The loop of `initialize`, with the rounds that are left; `contents` is what the memory of the bit
-- map of each slab holds before.
unfoldable pub initialize_chain :
    (left slab_idx : ℕ)
    → (contents : ℕ → List ℕ) → (chain_memory : ℕ) → PageAllocator
    → List SlabAllocator
    → Run (List SlabAllocator × PageAllocator)
initialize_chain zero slab_idx contents chain_memory pool chain = ok (chain, pool)
initialize_chain (suc left) slab_idx contents chain_memory pool chain = do
  let elem_size = chain_unit_size slab_idx
  ((slab, pool'), done) ←
      Slab.initialize default_slab pool (contents slab_idx) elem_size (chain_memory / elem_size)
  if done
      then initialize_chain left (slab_idx + 1) contents chain_memory pool'
          (set chain slab_idx slab)
      else panicked

-- `slab_bytes` is the size of a `SlabAllocator` object, which the compiler lays out, and `internal`
-- what the memory of the internal slab's bit map holds before.
unfoldable pub initialize :
    Mallocator
    → PageAllocator
    → (slab_bytes : ℕ) → (internal : List ℕ) → (contents : ℕ → List ℕ)
    → (chain_memory chain_length : ℕ) → Run Mallocator
initialize m pool slab_bytes internal contents chain_memory chain_length = do
  ((slab, pool'), done) ←
      Slab.initialize m.internal_allocator pool internal (slab_bytes * chain_length) 1
  let inner = Slab.allocate slab
  if not done then panicked else (do
    (chain, pool'') ←
        initialize_chain chain_length 0 contents chain_memory pool'
          (replicate chain_length default_slab)
    ok (record {
      chain_length = chain_length;
      chain = chain;
      fallback = pool'';
      internal_allocator = inner.0;
      initialized = true;
    }))

-- The slab that `allocate` tries first.
unfoldable pub first_slab : (chain_length bytes : ℕ) → ℕ
first_slab chain_length bytes =
    if leb bytes 8
    then 0
    else if leb chain_length (align_up 16 bytes / 16)
    then chain_length
    else align_up 16 bytes / 16

-- The loop of `allocate`, with the slabs that are left; address 0 if none of them has an element.
unfoldable pub serve : (left slab_idx : ℕ) → List SlabAllocator → List SlabAllocator × ℕ
serve zero slab_idx chain = (chain, 0)
serve (suc left) slab_idx chain =
    let got = Slab.allocate (slab_at chain slab_idx) in
    let rest = serve left (slab_idx + 1) (set chain slab_idx got.0) in
    if got.1 == 0 then rest else (set chain slab_idx got.0, got.1)

unfoldable pub allocate : Mallocator → (bytes : ℕ) → Run (Mallocator × ℕ)
allocate m bytes =
    let slab_idx = first_slab m.chain_length bytes in
    let served = serve (m.chain_length - slab_idx) slab_idx m.chain in
    if not m.initialized
    then panicked
    else if not (served.1 == 0)
    then ok (record m { chain = served.0 }, served.1)
    else (do
      (fallback, memory) ← PageAllocator.allocate m.fallback (align_up page_size bytes / page_size)
      ok (record m { chain = served.0; fallback = fallback }, memory))

-- The loop of `deallocate`, with the slabs that are left: none where no slab owns the memory.
unfoldable pub release : (left chain_idx : ℕ) → Mallocator → (memory : ℕ) → Run Mallocator
release zero chain_idx m memory = do
  fallback ← PageAllocator.deallocate m.fallback memory
  ok (record m { fallback = fallback })
release (suc left) chain_idx m memory = do
  owned ← owns (slab_at m.chain chain_idx) memory
  if owned
      then (do
        slab ← Slab.deallocate (slab_at m.chain chain_idx) memory
        ok (record m { chain = set m.chain chain_idx slab }))
      else release left (chain_idx + 1) m memory

unfoldable pub deallocate : Mallocator → (memory : ℕ) → Run Mallocator
deallocate m memory = if not m.initialized then panicked else release m.chain_length 0 m memory
