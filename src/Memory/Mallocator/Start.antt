-- ===== src/Memory/Mallocator/Start.antt =====
-- `Mallocator::initialize` of kernel/memory/mallocator.cpp.
use bolgenos_ng.Base.{
  ℕ, zero, suc, ◌+◌, ◌*◌, ◌/◌, ◌^◌, ◌≤◌, ◌<◌, ◌≡◌, refl, sym, subst, ◌∙◌, List, arith, length, set,
  replicate, length-set, length-replicate, get_or-set_self, get_or-set_ne, ℕ_discrete, inl, inr,
}
use native.Mathlib.Nat.{div-mul-le_self, le-div_iff_mul-le, div-le_self}
use bolgenos_ng.Utils.MemUtils.{word}
use bolgenos_ng.Utils.BitArray.{IsBytes, expected_size}
use bolgenos_ng.Memory.Machine.{Run, ok, panicked, fault, out_of_fuel, ◌>>=◌, Returns}
use bolgenos_ng.Memory.Buddy.{Pblk}
use bolgenos_ng.Memory.PageAllocator.{PageAllocator}
use bolgenos_ng.Memory.PageAllocator.Blocks.{PageInv}
use bolgenos_ng.Memory.Slab
use bolgenos_ng.Memory.Slab.{SlabAllocator, required_pages}
use bolgenos_ng.Memory.Slab.Chunks.{SlabInv}
use bolgenos_ng.Memory.Slab.Start.{Ready, slab_initialize-Ready}
use bolgenos_ng.Memory.Mallocator.{
  Mallocator, chain_unit_size, default_slab, slab_at, initialize_chain, initialize,
}
use bolgenos_ng.Memory.Mallocator.Serve.{MallocInv}

-- A run that ends with a result that has the property, or with a panic.
abbrev pub ReturnsOrPanics : {A : Type 0} → (A → Type 0) → Run A → Type 0
ReturnsOrPanics P (ok a) = P a
ReturnsOrPanics P panicked = Unit {0}
ReturnsOrPanics P fault = ⊥
ReturnsOrPanics P out_of_fuel = ⊥

ReturnsOrPanics-bind :
    {A B : Type 0} (P : A → Type 0) (Q : B → Type 0) (m : Run A) (k : A → Run B)
    → ReturnsOrPanics P m
    → ((a : A) → P a → ReturnsOrPanics Q (k a))
    → ReturnsOrPanics Q (m >>= k)
ReturnsOrPanics-bind P Q (ok a) k p next = next a p
ReturnsOrPanics-bind P Q panicked k p next = tt
ReturnsOrPanics-bind P Q fault k p next = absurd p
ReturnsOrPanics-bind P Q out_of_fuel k p next = absurd p

pub Returns-then :
    {A B : Type 0} (P : A → Type 0) (Q : B → Type 0) (m : Run A) (k : A → Run B)
    → Returns P m
    → ((a : A) → P a → ReturnsOrPanics Q (k a))
    → ReturnsOrPanics Q (m >>= k)
Returns-then P Q (ok a) k p next = next a p
Returns-then P Q panicked k p next = absurd p
Returns-then P Q fault k p next = absurd p
Returns-then P Q out_of_fuel k p next = absurd p

-- The slabs before an index are ready, on a page allocator that keeps its invariant.
pub record Chained (chain_length idx : ℕ) (r : List SlabAllocator × PageAllocator) : Type 0 where
  pub items : ℕ → List ℕ
  pub blocks : List Pblk
  pub inv : PageInv r.1 items blocks
  pub in_word : r.1.primary.region.end < word
  pub measured : length r.0 ≡ chain_length
  pub slabs :
      (i : ℕ) → i < idx → SlabInv (slab_at r.0 i) × ((slab_at r.0 i).elem_size ≡ chain_unit_size i)

unit_some : (i : ℕ) → 8 ≤ chain_unit_size i
unfolding chain_unit_size
unit_some i = ground arith

expected_size-le : (n : ℕ) → expected_size n ≤ n
unfolding expected_size
expected_size-le n = ground arith

-- The mallocator keeps its invariant, with slabs in the chain as many as were asked for.
abbrev pub Initialized : (chain_length : ℕ) → Mallocator → Type 0
Initialized chain_length m =
    (items : ℕ → List ℕ) × (blocks : List Pblk) × MallocInv m items blocks
    × (m.chain_length ≡ chain_length)

module _ (chain_length chain_memory : ℕ) (contents : ℕ → List ℕ) (small : chain_memory ≤ 2 ^ 30)
    (large : (i : ℕ) → i < chain_length → chain_unit_size i ≤ chain_memory)
    (are_bytes : (i : ℕ) → IsBytes (contents i))
    (room : (i : ℕ)
      → i < chain_length
      → chain_memory / chain_unit_size i ≤ 8 * length (contents i)) where
  -- One slab of the chain.
  slab-Ready :
      (idx : ℕ) (chain : List SlabAllocator) (pool : PageAllocator)
      → idx < chain_length
      → (c : Chained chain_length idx (chain, pool))
      → Returns
          (Ready pool c.items c.blocks (chain_unit_size idx) (chain_memory / chain_unit_size idx))
          (Slab.initialize default_slab pool
            (contents idx)
            (chain_unit_size idx)
            (chain_memory / chain_unit_size idx))
  slab-Ready idx chain pool less c =
      let unit = chain_unit_size idx in
      let elems = chain_memory / unit in
      let positive : 0 < unit = omega (arith, unit_some idx) in
      let whole : elems * unit ≤ chain_memory = div-mul-le_self chain_memory unit in
      slab_initialize-Ready default_slab pool c.items c.blocks c.inv c.in_word (contents idx)
        (are_bytes idx) unit elems (omega (arith, unit_some idx))
        ((le-div_iff_mul-le positive).1 (omega (arith, large idx less)))
        (grind (arith, whole, small, expected_size-le elems, div-le_self chain_memory unit))
        (room idx less)

  -- The chain with one slab more.
  next-Chained :
      (idx : ℕ) (chain : List SlabAllocator) (pool : PageAllocator) (slab : SlabAllocator)
      (pool' : PageAllocator) (c : Chained chain_length idx (chain, pool)) (items : ℕ → List ℕ)
      (blocks : List Pblk)
      → idx < chain_length
      → PageInv pool' items blocks
      → pool'.primary.region ≡ pool.primary.region
      → SlabInv slab
      → slab.elem_size ≡ chain_unit_size idx
      → Chained chain_length (idx + 1) (set chain idx slab, pool')
  next-Chained idx chain pool slab pool' c items blocks less inv same is size = record {
    items = items;
    blocks = blocks;
    inv = inv;
    in_word = rw same c.in_word;
    measured = length-set chain idx slab ∙ c.measured;
    slabs = λ i below. elim (ℕ_discrete idx i) [
      | yes e ↦
          let at : slab_at (set chain idx slab) idx ≡ slab =
            get_or-set_self chain idx slab default_slab (omega (arith, c.measured)) in
          rw (sym e, at) (is, size)
      | no ne ↦ rw (get_or-set_ne chain idx i slab default_slab ne) (c.slabs i (omega arith))
    ];
  }

  initialize_chain-Chained :
      (left idx : ℕ) (chain : List SlabAllocator) (pool : PageAllocator)
      → idx + left ≡ chain_length
      → Chained chain_length idx (chain, pool)
      → ReturnsOrPanics
          (Chained chain_length chain_length)
          (initialize_chain left idx contents chain_memory pool chain)
  unfolding initialize_chain
  initialize_chain-Chained zero idx chain pool end c =
      subst (λ k. Chained chain_length k (chain, pool)) (omega arith) c
  initialize_chain-Chained (suc left) idx chain pool end c =
      Returns-then
        (Ready pool c.items c.blocks (chain_unit_size idx) (chain_memory / chain_unit_size idx)) _
        (Slab.initialize default_slab pool (contents idx) (chain_unit_size idx)
          (chain_memory / chain_unit_size idx))
        _ (slab-Ready idx chain pool (omega arith) c)
        λ ((slab, pool'), done) ready. elim ready.outcome [
          | inl none ↦ rw none.0 tt
          | inr got ↦ rw got.0 (
              initialize_chain-Chained left (idx + 1) (set chain idx slab) pool' (omega arith) (
                next-Chained idx chain pool slab pool' c ready.items' _ (omega arith) got.2
                  ready.region got.3 got.7))
        ]

  module _ (m : Mallocator) (pool : PageAllocator) (items : ℕ → List ℕ) (blocks : List Pblk)
      (inv : PageInv pool items blocks) (in_word : pool.primary.region.end < word) (slab_bytes : ℕ)
      (internal : List ℕ) (internal_bytes : IsBytes internal) (internal_room : 1 ≤ length internal)
      (chain_bytes : (1 ≤ slab_bytes * chain_length) × (slab_bytes * chain_length ≤ 2 ^ 30)) where
    -- On a page allocator that keeps its invariant and whose region ends below 2 ^ 32, the
    -- initialization of a mallocator returns one that keeps its invariant, with as many slabs as
    -- were asked for, or panics; it never faults and never runs out of fuel. The memory for each
    -- slab is at most 2 ^ 30 and holds an element at least, the chain itself has from 1 to 2 ^ 30
    -- bytes, and each bit map has a bit for each element.
    pub malloc_initialize-Initialized :
        ReturnsOrPanics
          (Initialized chain_length)
          (initialize m pool slab_bytes internal contents chain_memory chain_length)
    unfolding initialize
    malloc_initialize-Initialized =
        Returns-then (Ready pool items blocks (slab_bytes * chain_length) 1) _
          (Slab.initialize m.internal_allocator pool internal (slab_bytes * chain_length) 1) _
          (slab_initialize-Ready m.internal_allocator pool items blocks inv in_word internal
            internal_bytes (slab_bytes * chain_length) 1 chain_bytes.0 (omega arith)
            (omega (arith, chain_bytes.1, expected_size-le 1)) (omega (arith, internal_room)))
          λ ((slab, pool'), done) ready. elim ready.outcome [
            | inl none ↦ rw none.0 tt
            | inr got ↦ rw got.0 (
                ReturnsOrPanics-bind (Chained chain_length chain_length) _
                  (initialize_chain chain_length 0 contents chain_memory pool'
                    (replicate chain_length default_slab))
                  _
                  (initialize_chain-Chained chain_length 0 (replicate chain_length default_slab)
                    pool' (omega arith)
                    (record {
                      items = ready.items';
                      blocks = _;
                      inv = got.2;
                      in_word = rw ready.region in_word;
                      measured = length-replicate chain_length default_slab;
                      slabs = λ i less. absurd (omega arith);
                    }))
                  λ (chain, pool'') c. (
                    c.items,
                    c.blocks,
                    record {
                      ready = refl;
                      measured = c.measured;
                      chain_ok = λ i less. (c.slabs i (omega (arith, less, c.measured))).0;
                      sizes = λ i less. (c.slabs i less).1;
                      pages = c.inv;
                    },
                    refl,
                  ))
          ]
