-- ===== src/Memory/Mallocator/Free.antt =====
-- `Mallocator::deallocate` of kernel/memory/mallocator.cpp.
use bolgenos_ng.Base.{
  ℕ, zero, suc, ◌+◌, ◌*◌, ◌≤◌, ◌<◌, ◌≡◌, ◌≢◌, refl, sym, Bool, true, false, ◌&&◌, List, ◌∷◌, ◌++◌,
  arith, leb, ltb, ◌==◌, if◌then◌else◌, length, set, length-set, get_or-set_self, get_or-set_ne,
  ℕ_discrete,
}
use bolgenos_ng.Memory.Machine.{ok, ◌>>=◌, Returns, Returns-bind}
use bolgenos_ng.Memory.Buddy.{Pblk}
use bolgenos_ng.Memory.PageAllocator
use bolgenos_ng.Memory.PageAllocator.{PageAllocator}
use bolgenos_ng.Memory.PageAllocator.Deallocate.{Freed, deallocate-Freed}
use bolgenos_ng.Memory.Slab
use bolgenos_ng.Memory.Slab.{SlabAllocator, is_free, owns}
use bolgenos_ng.Memory.Slab.Chunks.{SlabInv, address, address-low, owns_lem, slab_deallocate_lem}
use bolgenos_ng.Memory.Mallocator.{Mallocator, default_slab, slab_at, release, deallocate}
use bolgenos_ng.Memory.Mallocator.Serve.{ChainInv, MallocInv}

-- The addresses of the elements of a slab.
abbrev pub within : SlabAllocator → ℕ → Bool
within s memory = leb s.memory memory && ltb memory (s.memory + s.nelems * s.elem_size)

-- The loop passes the slabs that do not own the memory, and then asks the page allocator.
release-pages :
    (m : Mallocator) (memory left idx : ℕ)
    → ChainInv m.chain
    → idx + left ≡ length m.chain
    → ((i : ℕ) → idx ≤ i → i < length m.chain → within (slab_at m.chain i) memory ≡ false)
    → release left idx m memory ≡ (
        PageAllocator.deallocate m.fallback memory >>= λ fallback.
        ok (record m { fallback = fallback }))
unfolding release
release-pages m memory zero idx inv end foreign = refl
release-pages m memory (suc left) idx inv end foreign =
    rw
      (
        owns_lem (slab_at m.chain idx) memory (inv idx (omega arith)),
        foreign idx (omega arith) (omega arith),
      )
      (release-pages m memory left (idx + 1) inv (omega arith) (λ i low. foreign i (omega arith)))

-- The loop stops at the first slab that owns the memory.
release-slab :
    (m : Mallocator) (memory left idx k : ℕ)
    → ChainInv m.chain
    → idx + left ≡ length m.chain
    → idx ≤ k
    → k < length m.chain
    → ((i : ℕ) → i < k → within (slab_at m.chain i) memory ≡ false)
    → within (slab_at m.chain k) memory ≡ true
    → release left idx m memory ≡ (
        Slab.deallocate (slab_at m.chain k) memory >>= λ slab.
        ok (record m { chain = set m.chain k slab }))
unfolding release
release-slab m memory zero idx k inv end low high foreign own = absurd (omega arith)
release-slab m memory (suc left) idx k inv end low high foreign own = elim (ℕ_discrete idx k) [
  | yes e ↦ rw e (rw (owns_lem (slab_at m.chain k) memory (inv k high), own) refl)
  | no ne ↦
      rw (owns_lem (slab_at m.chain idx) memory (inv idx (omega arith)), foreign idx (omega arith))
        (release-slab m memory left (idx + 1) k inv (omega arith) (omega arith) high foreign own)
]

-- What freeing an address within an element of a slab of the chain does.
pub record Released (m : Mallocator) (k chunk : ℕ) (m' : Mallocator) : Type 0 where
  pub slab : SlabInv (slab_at m'.chain k)
  pub is_used :
      (j : ℕ)
      → is_free (slab_at m'.chain k) j
        ≡ (if chunk == j then true else is_free (slab_at m.chain k) j)
  pub others : (i : ℕ) → i ≢ k → slab_at m'.chain i ≡ slab_at m.chain i
  pub rest : (m'.fallback ≡ m.fallback) × (length m'.chain ≡ length m.chain)

-- On a mallocator that keeps its invariant, freeing an address within an element of a slab, which
-- no earlier slab owns, returns and frees this element; the other elements, slabs and pages stay as
-- they are.
pub malloc_free-Released :
    (m : Mallocator) (items : ℕ → List ℕ) (blocks : List Pblk) (k chunk inner : ℕ)
    → MallocInv m items blocks
    → k < m.chain_length
    → chunk < (slab_at m.chain k).nelems
    → inner < (slab_at m.chain k).elem_size
    → ((i : ℕ)
        → i < k
        → within (slab_at m.chain i) (address (slab_at m.chain k) chunk + inner) ≡ false)
    → Returns (Released m k chunk) (deallocate m (address (slab_at m.chain k) chunk + inner))
unfolding deallocate
malloc_free-Released m items blocks k chunk inner inv inside less small foreign =
    let slab = slab_at m.chain k in
    let there : k < length m.chain = omega (arith, inside, inv.measured) in
    let is = inv.chain_ok k there in
    let own : within slab (address slab chunk + inner) ≡ true =
      ground (arith, address-low slab chunk is less) in
    simp inv.ready (
      rw
        (release-slab m (address slab chunk + inner) m.chain_length 0 k inv.chain_ok
          (omega (arith, inv.measured)) (omega arith) there foreign own)
        (Returns-bind
          (λ s'.
            SlabInv s' × ((j : ℕ) → is_free s' j ≡ (if chunk == j then true else is_free slab j)))
          _ (Slab.deallocate slab (address slab chunk + inner)) _
          (slab_deallocate_lem slab chunk inner is less small)
          λ s' post. record {
            slab = rw (get_or-set_self m.chain k s' default_slab there) post.0;
            is_used = λ j. rw (get_or-set_self m.chain k s' default_slab there) (post.1 j);
            others = λ i ne. get_or-set_ne m.chain k i s' default_slab (λ e. ne (sym e));
            rest = (refl, length-set m.chain k s');
          }))

-- On a mallocator that keeps its invariant, freeing the address of a block of pages in use, which
-- no slab owns, returns, gives exactly its pages back and leaves the slabs as they are.
pub malloc_free-Freed :
    (m : Mallocator) (items : ℕ → List ℕ) (pre : List Pblk) (b : Pblk) (suf : List Pblk)
    (inv : MallocInv m items (pre ++ b ∷ suf))
    → ((i : ℕ) → i < m.chain_length → within (slab_at m.chain i) b.ptr ≡ false)
    → Returns
        (λ m'. (m'.chain ≡ m.chain) × Freed m.fallback items pre b suf inv.pages m'.fallback)
        (deallocate m b.ptr)
unfolding deallocate
malloc_free-Freed m items pre b suf inv foreign = simp inv.ready (
    rw
      (release-pages m b.ptr m.chain_length 0 inv.chain_ok (omega (arith, inv.measured))
        (λ i low high. foreign i (omega (arith, high, inv.measured))))
      (Returns-bind (Freed m.fallback items pre b suf inv.pages) _
        (PageAllocator.deallocate m.fallback b.ptr) _
        (deallocate-Freed m.fallback items pre b suf inv.pages) λ fallback post. (refl, post)))
