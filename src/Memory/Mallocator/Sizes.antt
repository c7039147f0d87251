-- ===== src/Memory/Mallocator/Sizes.antt =====
-- The choice of a slab by `Mallocator::allocate` of kernel/memory/mallocator.cpp.
use bolgenos_ng.Base.{ℕ, ◌+◌, ◌≤◌, ◌<◌, ◌≡◌, refl, arith}
use bolgenos_ng.Utils.MemUtils.{word, align_up, IsCeiling, align_up-IsCeiling, align_up-wrap}
use bolgenos_ng.Memory.Mallocator.{chain_unit_size, first_slab}

-- From the first slab that `allocate` tries on, an element of each slab of the chain is at least as
-- large as what is asked for, where this is at most 2 ^ 32 - 16.
pub first_slab-fits :
    (chain_length bytes idx : ℕ)
    → bytes + 16 ≤ word
    → first_slab chain_length bytes ≤ idx
    → idx < chain_length
    → bytes ≤ chain_unit_size idx
unfolding first_slab chain_unit_size
first_slab-fits chain_length bytes idx room from below =
    let c : IsCeiling 16 bytes (align_up 16 bytes) =
      align_up-IsCeiling 4 28 bytes refl (omega arith) room in
    ground (arith, c.above, c.multiple)

pub first_slab-le : (chain_length bytes : ℕ) → first_slab chain_length bytes ≤ chain_length
unfolding first_slab
first_slab-le chain_length bytes = ground arith

-- A size above 2 ^ 32 - 16 and below 2 ^ 32 is taken for a small one: the first slab tried is the
-- one of 8 bytes, where the chain has a slab.
pub first_slab-wrap :
    (chain_length bytes : ℕ)
    → 1 ≤ chain_length
    → bytes < word
    → word < bytes + 16
    → first_slab chain_length bytes ≡ 0
unfolding first_slab
first_slab-wrap chain_length bytes some small large =
    let wraps : align_up 16 bytes ≡ 0 =
      align_up-wrap 4 28 bytes refl small large (λ e. ground arith) in
    ground (arith, wraps)
