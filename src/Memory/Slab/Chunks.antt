-- ===== src/Memory/Slab/Chunks.antt =====
-- The elements of a slab of kernel/memory/slab.cpp: `allocate`, `owns` and `deallocate`.
use bolgenos_ng.Base.{
  ℕ, zero, suc, ◌+◌, ◌-◌, ◌*◌, ◌/◌, ◌≤◌, ◌<◌, ◌≡◌, ◌≢◌, refl, ap, ◌∙◌, ◌⊎◌, inl, inr, Bool, true,
  false, ◌&&◌, leb, ltb, ◌==◌, if◌then◌else◌, length, arith, Bool-cases, ℕ_discrete,
}
use native.Mathlib.Nat.{mul-le-mul_right, mod-eq_of_lt, div-eq_of_lt-le}
use bolgenos_ng.Utils.MemUtils.{word}
use bolgenos_ng.Utils.BitArray.{IsBytes, set_value-IsBytes, get-set_value, length-set_value}
use bolgenos_ng.Memory.Machine.{ok, Returns}
use bolgenos_ng.Memory.Slab.{
  SlabAllocator, is_free, set_free, allocate_from, allocate, owns, deallocate,
}

-- A slab in use: its elements lie in memory below the end of the address space, and the bit map has
-- a bit for each.
pub record SlabInv (s : SlabAllocator) : Type 0 where
  pub some_memory : s.memory ≢ 0
  pub some_size : 1 ≤ s.elem_size
  pub below : s.memory + s.nelems * s.elem_size < word
  pub bytes : IsBytes s.allocation_map.bytes
  pub room : s.nelems ≤ 8 * length s.allocation_map.bytes

abbrev pub address : SlabAllocator → (chunk : ℕ) → ℕ
address s chunk = s.memory + chunk * s.elem_size

pub set_free-SlabInv : (s : SlabAllocator) (i : ℕ) (v : Bool) → SlabInv s → SlabInv (set_free s i v)
unfolding set_free
set_free-SlabInv s i v inv = record {
  some_memory = inv.some_memory;
  some_size = inv.some_size;
  below = inv.below;
  bytes = set_value-IsBytes s.allocation_map i v inv.bytes;
  room = omega (arith, inv.room, length-set_value s.allocation_map i v);
}

pub is_free-set_free :
    (s : SlabAllocator) (i j : ℕ) (v : Bool)
    → SlabInv s
    → i < s.nelems
    → is_free (set_free s i v) j ≡ (if i == j then v else is_free s j)
unfolding is_free set_free
is_free-set_free s i j v inv less =
    get-set_value s.allocation_map i j v inv.bytes (omega (arith, inv.room))

-- An element ends within the slab.
pub address-low :
    (s : SlabAllocator) (chunk : ℕ)
    → SlabInv s
    → chunk < s.nelems
    → address s chunk + s.elem_size ≤ s.memory + s.nelems * s.elem_size
address-low s chunk inv less =
    let next : chunk + 1 ≤ s.nelems = omega arith in
    grind (arith, mul-le-mul_right s.elem_size next)

address-word :
    (s : SlabAllocator) (chunk : ℕ) → SlabInv s → chunk < s.nelems → address s chunk < word
address-word s chunk inv less = omega (arith, address-low s chunk inv less, inv.below)

-- What `allocate` does: the first free element is handed out and is no longer free, or none is free
-- and nothing changes.
pub record Handed (s : SlabAllocator) (r : SlabAllocator × ℕ) : Type 0 where
  pub slab : SlabInv r.0
  pub outcome :
      ((r ≡ (s, 0)) × ((j : ℕ) → j < s.nelems → is_free s j ≡ false))
      ⊎ ((chunk : ℕ) × (r.1 ≡ address s chunk)
          × (chunk < s.nelems)
          × (is_free s chunk ≡ true)
          × ((j : ℕ) → j < chunk → is_free s j ≡ false)
          × ((j : ℕ) → is_free r.0 j ≡ (if chunk == j then false else is_free s j)))

allocate_from-Handed :
    (s : SlabAllocator) (left chunk : ℕ)
    → SlabInv s
    → chunk + left ≡ s.nelems
    → ((j : ℕ) → j < chunk → is_free s j ≡ false)
    → Handed s (allocate_from left chunk s)
unfolding allocate_from
allocate_from-Handed s zero chunk inv end busy = record {
  slab = inv;
  outcome = inl (refl, λ j less. busy j (omega arith));
}
allocate_from-Handed s (suc left) chunk inv end busy = elim (Bool-cases (is_free s chunk)) [
  | inl e ↦ rw e (record {
    slab = set_free-SlabInv s chunk false inv;
    outcome = inr (
      chunk,
      mod-eq_of_lt (address-word s chunk inv (omega arith)),
      omega arith,
      e,
      busy,
      λ j. is_free-set_free s chunk j false inv (omega arith),
    );
  })
  | inr e ↦ rw e (
      allocate_from-Handed s left (chunk + 1) inv (omega arith) (λ j less.
        elim (ℕ_discrete j chunk) [ yes f ↦ ap (is_free s) f ∙ e | no nf ↦ busy j (omega arith) ]))
]

-- On a slab in use, `allocate` returns null and changes nothing where no element is free; elsewhere
-- it returns the address of the first free element, which is then the only one whose state has
-- changed.
pub slab_allocate-Handed : (s : SlabAllocator) → SlabInv s → Handed s (allocate s)
unfolding allocate
slab_allocate-Handed s inv =
    allocate_from-Handed s s.nelems 0 inv (omega arith) (λ j less. elim less [ ])

-- On a slab in use, `owns` returns without a panic and is true exactly for the addresses from its
-- first element to the end of its last one.
pub owns_lem :
    (s : SlabAllocator) (memory : ℕ)
    → SlabInv s
    → owns s memory ≡ ok (leb s.memory memory && ltb memory (s.memory + s.nelems * s.elem_size))
unfolding owns
owns_lem s memory inv =
    let t : (s.memory == 0) ≡ false = ground (arith, inv.some_memory) in
    rw (t, mod-eq_of_lt inv.below) refl

chunk_of :
    (s : SlabAllocator) (chunk inner : ℕ)
    → SlabInv s
    → inner < s.elem_size
    → (address s chunk + inner - s.memory) / s.elem_size ≡ chunk
chunk_of s chunk inner inv less = div-eq_of_lt-le s.elem_size (omega arith) (grind arith)

-- On a slab in use, `deallocate` of an address within an element returns, frees this element and
-- leaves the others as they are.
pub slab_deallocate_lem :
    (s : SlabAllocator) (chunk inner : ℕ)
    → SlabInv s
    → chunk < s.nelems
    → inner < s.elem_size
    → Returns
        (λ s'. SlabInv s' × ((j : ℕ) → is_free s' j ≡ (if chunk == j then true else is_free s j)))
        (deallocate s (address s chunk + inner))
unfolding deallocate
slab_deallocate_lem s chunk inner inv less within =
    let t : (address s chunk + inner == 0) ≡ false = ground (arith, inv.some_memory) in
    let u : (leb s.memory (address s chunk + inner)
          && ltb (address s chunk + inner) (s.memory + s.nelems * s.elem_size))
        ≡ true =
      ground (arith, address-low s chunk inv less) in
    rw (t, owns_lem s (address s chunk + inner) inv, u, chunk_of s chunk inner inv within)
      (set_free-SlabInv s chunk true inv, λ j. is_free-set_free s chunk j true inv less)
