-- ===== src/Memory/Setup.antt =====
-- kernel/memory/memory.cpp with kernel/kobj/src/multiboot_info.cpp: the high memory that the boot
-- loader has found, and the allocators that are started on it. The address `kobj::end()`, the size
-- of a slab object and what memory holds before a bit map is placed on it are arguments.
use bolgenos_ng.Base.{ℕ, ◌+◌, ◌*◌, ◌/◌, ◌%◌, bit_and, Bool, not, List, ◌==◌, if◌then◌else◌}
use bolgenos_ng.Utils.MemUtils.{word, align_up, align_down}
use bolgenos_ng.Utils.BitArray.{expected_size}
use bolgenos_ng.Memory.Machine.{Heap, Run, ok, panicked, ◌>>=◌}
use bolgenos_ng.Memory.FreeList.{page_size}
use bolgenos_ng.Memory.Buddy
use bolgenos_ng.Memory.Buddy.{MemoryRegion, region_size}
use bolgenos_ng.Memory.Buddy.Start.{default_allocator}
use bolgenos_ng.Memory.PageAllocator
use bolgenos_ng.Memory.PageAllocator.{PageAllocator}
use bolgenos_ng.Memory.Mallocator
use bolgenos_ng.Memory.Mallocator.{Mallocator}

-- What the kernel reads of `boot_info_t`.
pub record BootInfo : Type 0 where
  pub flags : ℕ
  pub mem_upper : ℕ

unfoldable pub is_meminfo_valid : BootInfo → Bool
is_meminfo_valid info = not (bit_and info.flags 1 == 0)

abbrev pub highmem_start : ℕ
highmem_start = 0x100000

-- The region, whose end is the start and a number of pages.
unfoldable pub high_region : BootInfo → MemoryRegion
high_region info =
    let highmem_bytes = info.mem_upper * 1024 % word in
    record {
      begin = highmem_start;
      end = (highmem_start + align_down page_size highmem_bytes / page_size * page_size) % word;
    }

unfoldable pub detect_memory_regions : BootInfo → Run MemoryRegion
detect_memory_regions info = if is_meminfo_valid info then ok (high_region info) else panicked

abbrev pub chain_memory : ℕ
chain_memory = 1024 * 1024

abbrev pub chains : ℕ
chains = 33

-- `memory` is what lies at the first page behind the kernel.
module _ (heap : Heap) (kobj_end : ℕ) (memory : List ℕ) (slab_bytes : ℕ) (internal : List ℕ)
    (contents : ℕ → List ℕ) (m : Mallocator) where
  unfoldable pub initialize_highmem_allocators : MemoryRegion → Run Mallocator
  initialize_highmem_allocators region = do
    let last_kernel_page = align_up page_size kobj_end
    primary ← Buddy.initialize (default_allocator heap) region
    pool ← PageAllocator.initialize primary last_kernel_page memory
    Mallocator.initialize m pool slab_bytes internal contents chain_memory chains

  unfoldable pub init : BootInfo → Run Mallocator
  init info = do region ← detect_memory_regions info; initialize_highmem_allocators region

-- The pages of the bit map of a region.
abbrev pub region_map_pages : MemoryRegion → ℕ
region_map_pages region = align_up page_size (expected_size (region_size region)) / page_size
