-- ===== src/Tests/Descriptors.antt =====
-- The kernel's code segment.
use bolgenos_ng.Base.{◌+◌, ◌*◌, ◌^◌, ◌<◌, ◌≡◌, arith}
use bolgenos_ng.X86.Descriptors.{memory_segment, segment_bits}
use bolgenos_ng.X86.Decode.{
  base_of, limit_of, type_of, dpl_of, present_of, flags_of, segment_bits-memory_segment,
}

segment_bits-memory_segment_example :
    let d = segment_bits (memory_segment 0 0xfffff 10 1 0 1 0 1 1) in
    (d < 2 ^ 64)
    × (base_of d ≡ 0)
    × (limit_of d ≡ 0xfffff)
    × (type_of d ≡ 10 + 16 * 1)
    × (dpl_of d ≡ 0)
    × (present_of d ≡ 1)
    × (flags_of d ≡ 2 * 0 + 4 * 1 + 8 * 1)
segment_bits-memory_segment_example =
    segment_bits-memory_segment 0 0xfffff 10 1 0 1 0 1 1 (omega arith, omega arith)
      (omega arith, omega arith, omega arith, omega arith) (omega arith, omega arith, omega arith)
