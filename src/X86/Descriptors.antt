-- ===== src/X86/Descriptors.antt =====
-- kernel/x86/include/x86: memory_segment_d.hpp, tssd.hpp, gate.hpp, segment_flags.hpp and gdt.hpp.
-- A descriptor is a record of its bit fields in the order of the source, and `bits` lays them out as
-- a packed structure of i386 does: from the lowest bit on, with no gaps. The enumerations are their
-- values.
use bolgenos_ng.Base.{ℕ, ◌+◌, ◌*◌, ◌^◌, bit_or, Bool, if◌then◌else◌}
use bolgenos_ng.Utils.MemUtils.{shiftmask}

pub record MemorySegmentDescriptor : Type 0 where
  pub limit_00_15 : ℕ
  pub base_00_15 : ℕ
  pub base_16_23 : ℕ
  pub tag : ℕ
  pub system_flag : ℕ
  pub dpl : ℕ
  pub present : ℕ
  pub limit_16_19 : ℕ
  pub avl : ℕ
  pub long_flag : ℕ
  pub db : ℕ
  pub granularity : ℕ
  pub base_24_31 : ℕ

-- The constructor.
unfoldable pub memory_segment :
    (base limit tag ssf dpl present lng db granularity : ℕ) → MemorySegmentDescriptor
memory_segment base limit tag ssf dpl present lng db granularity = record {
  limit_00_15 = shiftmask limit 0 0xffff;
  base_00_15 = shiftmask base 0 0xffff;
  base_16_23 = shiftmask base 16 0xff;
  tag = tag;
  system_flag = ssf;
  dpl = dpl;
  present = present;
  limit_16_19 = shiftmask limit 16 0xf;
  avl = 0;
  long_flag = lng;
  db = db;
  granularity = granularity;
  base_24_31 = shiftmask base 24 0xff;
}

unfoldable pub segment_bits : MemorySegmentDescriptor → ℕ
segment_bits d =
    d.limit_00_15
    + 2 ^ 16 * d.base_00_15
    + 2 ^ 32 * d.base_16_23
    + 2 ^ 40 * d.tag
    + 2 ^ 44 * d.system_flag
    + 2 ^ 45 * d.dpl
    + 2 ^ 47 * d.present
    + 2 ^ 48 * d.limit_16_19
    + 2 ^ 52 * d.avl
    + 2 ^ 53 * d.long_flag
    + 2 ^ 54 * d.db
    + 2 ^ 55 * d.granularity
    + 2 ^ 56 * d.base_24_31

pub record TaskStateSegmentDescriptor : Type 0 where
  pub limit_00_15 : ℕ
  pub base_00_15 : ℕ
  pub base_16_23 : ℕ
  pub type_field : ℕ
  pub const_4_12 : ℕ
  pub dpl : ℕ
  pub present : ℕ
  pub limit_16_19 : ℕ
  pub avl : ℕ
  pub const_4_21 : ℕ
  pub const_4_22 : ℕ
  pub granularity : ℕ
  pub base_24_31 : ℕ

unfoldable pub task_segment :
    (base limit : ℕ) → (busy : Bool) → (dpl present granularity : ℕ) → TaskStateSegmentDescriptor
task_segment base limit busy dpl present granularity = record {
  limit_00_15 = shiftmask limit 0 0xffff;
  base_00_15 = shiftmask base 0 0xffff;
  base_16_23 = shiftmask base 16 0xff;
  type_field = bit_or 9 (if busy then 2 else 0);
  const_4_12 = 0;
  dpl = dpl;
  present = present;
  limit_16_19 = shiftmask limit 16 0xf;
  avl = 0;
  const_4_21 = 0;
  const_4_22 = 0;
  granularity = granularity;
  base_24_31 = shiftmask base 24 0xff;
}

unfoldable pub task_bits : TaskStateSegmentDescriptor → ℕ
task_bits d =
    d.limit_00_15
    + 2 ^ 16 * d.base_00_15
    + 2 ^ 32 * d.base_16_23
    + 2 ^ 40 * d.type_field
    + 2 ^ 44 * d.const_4_12
    + 2 ^ 45 * d.dpl
    + 2 ^ 47 * d.present
    + 2 ^ 48 * d.limit_16_19
    + 2 ^ 52 * d.avl
    + 2 ^ 53 * d.const_4_21
    + 2 ^ 54 * d.const_4_22
    + 2 ^ 55 * d.granularity
    + 2 ^ 56 * d.base_24_31

abbrev pub table_global : ℕ
table_global = 0

abbrev pub ring_kernel : ℕ
ring_kernel = 0

unfoldable pub segment_selector : (segment_idx ti required_privilege_level : ℕ) → ℕ
segment_selector segment_idx ti required_privilege_level =
    bit_or (bit_or (segment_idx * 8) (ti * 4)) required_privilege_level

abbrev pub index_kernel_code : ℕ
index_kernel_code = 1

abbrev pub index_kernel_data : ℕ
index_kernel_data = 2

unfoldable pub kernel_code_selector : ℕ
kernel_code_selector = segment_selector index_kernel_code table_global ring_kernel

unfoldable pub kernel_data_selector : ℕ
kernel_data_selector = segment_selector index_kernel_data table_global ring_kernel

pub record Gate : Type 0 where
  pub offset_00_15 : ℕ
  pub selector : ℕ
  pub gate_kind : ℕ
  pub db : ℕ
  pub dpl : ℕ
  pub present : ℕ
  pub offset_16_31 : ℕ

-- `GateType::interrupt`
abbrev pub interrupt_kind : ℕ
interrupt_kind = 6

unfoldable pub gate : (func kind : ℕ) → Gate
gate func kind = record {
  offset_00_15 = shiftmask func 0 0xffff;
  selector = kernel_code_selector;
  gate_kind = kind;
  db = 1;
  dpl = 0;
  present = 1;
  offset_16_31 = shiftmask func 16 0xffff;
}

unfoldable pub interrupt_gate : (func : ℕ) → Gate
interrupt_gate func = gate func interrupt_kind

-- The bits between the selector and the kind are reserved and 0.
unfoldable pub gate_bits : Gate → ℕ
gate_bits g =
    g.offset_00_15
    + 2 ^ 16 * g.selector
    + 2 ^ 40 * g.gate_kind
    + 2 ^ 43 * g.db
    + 2 ^ 45 * g.dpl
    + 2 ^ 47 * g.present
    + 2 ^ 48 * g.offset_16_31

-- The segments of segments.cpp.
unfoldable pub kernel_code : MemorySegmentDescriptor
kernel_code = memory_segment 0 0xfffff (bit_or 8 2) 1 0 1 0 1 1

unfoldable pub kernel_data : MemorySegmentDescriptor
kernel_data = memory_segment 0 0xfffff (bit_or 0 2) 1 0 1 0 1 1
