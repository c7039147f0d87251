-- ===== src/X86/Decode.antt =====
-- What the processor reads in a descriptor, by the layout that its manual gives.
use bolgenos_ng.Base.{
  ◌-◌, ℕ, ◌+◌, ◌*◌, ◌/◌, ◌%◌, ◌^◌, ◌<◌, ◌≡◌, refl, Bool, true, false, arith, ◌==◌, if◌then◌else◌,
}
use bolgenos_ng.Base.Bits.{bit_and_mask, all_below}
use bolgenos_ng.Utils.MemUtils.{shiftmask}
use bolgenos_ng.X86.Descriptors.{
  memory_segment, segment_bits, task_segment, task_bits, kernel_code_selector, segment_selector,
  gate, gate_bits,
}

shiftmask_lem :
    (k value offset : ℕ) → shiftmask value offset (2 ^ k - 1) ≡ value / 2 ^ offset % 2 ^ k
unfolding shiftmask
shiftmask_lem k value offset = bit_and_mask k (value / 2 ^ offset)

-- A segment descriptor of 64 bits: the base, the limit, the type with the system flag, the privilege
-- level, the flags.
abbrev pub base_of : ℕ → ℕ
base_of d = d / 2 ^ 16 % 2 ^ 24 + 2 ^ 24 * (d / 2 ^ 56 % 2 ^ 8)

abbrev pub limit_of : ℕ → ℕ
limit_of d = d % 2 ^ 16 + 2 ^ 16 * (d / 2 ^ 48 % 2 ^ 4)

abbrev pub type_of : ℕ → ℕ
type_of d = d / 2 ^ 40 % 2 ^ 5

abbrev pub dpl_of : ℕ → ℕ
dpl_of d = d / 2 ^ 45 % 2 ^ 2

abbrev pub present_of : ℕ → ℕ
present_of d = d / 2 ^ 47 % 2

abbrev pub flags_of : ℕ → ℕ
flags_of d = d / 2 ^ 52 % 2 ^ 4

-- The bits of a memory segment's descriptor fit into 64, and what the processor reads from them is
-- the base, the limit, the type, the ring, the presence and the flags that the descriptor was made
-- of, where these fit their fields.
pub segment_bits-memory_segment :
    (base limit tag ssf dpl present lng db granularity : ℕ)
    → (base < 2 ^ 32) × (limit < 2 ^ 20)
    → (tag < 16) × (ssf < 2) × (dpl < 4) × (present < 2)
    → (lng < 2) × (db < 2) × (granularity < 2)
    → let d = segment_bits (memory_segment base limit tag ssf dpl present lng db granularity) in
      (d < 2 ^ 64)
      × (base_of d ≡ base)
      × (limit_of d ≡ limit)
      × (type_of d ≡ tag + 16 * ssf)
      × (dpl_of d ≡ dpl)
      × (present_of d ≡ present)
      × (flags_of d ≡ 2 * lng + 4 * db + 8 * granularity)
unfolding segment_bits memory_segment
segment_bits-memory_segment base limit tag ssf dpl present lng db granularity wide fields flags =
    rw
      (
        shiftmask_lem 16 limit 0,
        shiftmask_lem 16 base 0,
        shiftmask_lem 8 base 16,
        shiftmask_lem 4 limit 16,
        shiftmask_lem 8 base 24,
      )
      (omega arith)

-- The processor reads from the bits of a descriptor what it was made of.
pub task_bits-task_segment :
    (base limit : ℕ) (busy : Bool) (dpl present granularity : ℕ)
    → (base < 2 ^ 32) × (limit < 2 ^ 20)
    → (dpl < 4) × (present < 2) × (granularity < 2)
    → let d = task_bits (task_segment base limit busy dpl present granularity) in
      (d < 2 ^ 64)
      × (base_of d ≡ base)
      × (limit_of d ≡ limit)
      × (type_of d ≡ (if busy then 11 else 9))
      × (dpl_of d ≡ dpl)
      × (present_of d ≡ present)
      × (flags_of d ≡ 8 * granularity)
unfolding task_bits task_segment
task_bits-task_segment base limit true dpl present granularity wide fields =
    rw
      (
        shiftmask_lem 16 limit 0,
        shiftmask_lem 16 base 0,
        shiftmask_lem 8 base 16,
        shiftmask_lem 4 limit 16,
        shiftmask_lem 8 base 24,
      )
      (omega arith)
task_bits-task_segment base limit false dpl present granularity wide fields =
    rw
      (
        shiftmask_lem 16 limit 0,
        shiftmask_lem 16 base 0,
        shiftmask_lem 8 base 16,
        shiftmask_lem 4 limit 16,
        shiftmask_lem 8 base 24,
      )
      (omega arith)

-- The processor reads from the bits of a gate what it was made of.
pub gate_bits-gate :
    (func kind : ℕ)
    → func < 2 ^ 32
    → kind < 8
    → let d = gate_bits (gate func kind) in
      (d < 2 ^ 64)
      × (d % 2 ^ 16 + 2 ^ 16 * (d / 2 ^ 48) ≡ func)
      × (d / 2 ^ 16 % 2 ^ 16 ≡ 8)
      × (type_of d ≡ kind + 8)
      × (dpl_of d ≡ 0)
      × (present_of d ≡ 1)
unfolding gate_bits gate kernel_code_selector segment_selector
gate_bits-gate func kind wide small =
    rw (shiftmask_lem 16 func 0, shiftmask_lem 16 func 16) (omega arith)

selector_table :
    all_below 4
      (λ i. all_below 2 (λ t. all_below 4 (λ r. segment_selector i t r == 8 * i + 4 * t + r)))
    ≡ true
unfolding all_below segment_selector
selector_table = refl
