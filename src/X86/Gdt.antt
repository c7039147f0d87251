-- ===== src/X86/Gdt.antt =====
-- kernel/x86/src/gdt.cpp, and load_kernel_segments of cpu.cpp. An entry of the table is its eight
-- bytes as a number. The assembler that loads the registers is left out.
use bolgenos_ng.Base.{
  ℕ, ◌+◌, ◌-◌, ◌*◌, ◌/◌, ◌%◌, ◌^◌, ◌<◌, ◌≡◌, refl, false, List, [], ◌∷◌, ◌++◌, arith, length,
}
use bolgenos_ng.Memory.Machine.{Run, ok, ◌>>=◌, Returns, Returns-bind}
use bolgenos_ng.Utils.FixedSizeVector
use bolgenos_ng.Utils.FixedSizeVector.{FixedSizeVector, Contains, push_back-Contains, at, at_lem}
use bolgenos_ng.Irq.{Interrupts, with_irq_lock}
use bolgenos_ng.Irq.Locking.{IsSynced, with_irq_lock-Returns}
use bolgenos_ng.X86.Descriptors.{
  MemorySegmentDescriptor, memory_segment, segment_bits, TaskStateSegmentDescriptor, task_segment,
  task_bits, kernel_code, kernel_data, kernel_code_selector, kernel_data_selector, segment_selector,
}

abbrev pub gdt_capacity : ℕ
gdt_capacity = 1024

-- `limit` is that of `_gdt_pointer`.
pub record Gdt : Type 0 where
  pub entries : FixedSizeVector ℕ
  pub limit : ℕ

-- `push_back` of the two kinds of descriptors, with the index that it answers.
unfoldable pub push_back : Gdt → (entry : ℕ) → Run (Gdt × ℕ)
push_back g entry = do
  let idx = g.entries.size % 2 ^ 16
  entries ← FixedSizeVector.push_back gdt_capacity g.entries entry
  ok (record g { entries = entries }, idx)

unfoldable pub push_segment : Gdt → MemorySegmentDescriptor → Run (Gdt × ℕ)
push_segment g msd = push_back g (segment_bits msd)

unfoldable pub push_task : Gdt → TaskStateSegmentDescriptor → Run (Gdt × ℕ)
push_task g tssd = push_back g (task_bits tssd)

unfoldable pub reload_table : Gdt → Gdt
reload_table g = record g { limit = (g.entries.size * 8 + 2 ^ 16 - 1) % 2 ^ 16 }

unfoldable pub null_segment : MemorySegmentDescriptor
null_segment = memory_segment 0 0 0 0 0 0 0 0 0

-- `address` is that of the task state segment, which has 104 bytes.
unfoldable pub single_task_descriptor : (address : ℕ) → TaskStateSegmentDescriptor
single_task_descriptor address = task_segment address (104 - 1) false 0 1 0

pub record Processor : Type 0 where
  pub gdt : Gdt
  pub interrupts : Interrupts

abbrev pub interrupts_of : Processor → Interrupts
interrupts_of p = p.interrupts

abbrev pub set_interrupts : Processor → Interrupts → Processor
set_interrupts p i = record p { interrupts = i }

unfoldable pub load_segments : (single_task : ℕ) → Processor → Run (Processor × Unit {0})
load_segments single_task p = do
  (g1, a) ← push_segment p.gdt null_segment
  (g2, b) ← push_segment g1 kernel_code
  (g3, c) ← push_segment g2 kernel_data
  (g4, d) ← push_task g3 (single_task_descriptor single_task)
  ok (record p { gdt = reload_table g4 }, tt)

unfoldable pub load_kernel_segments : (single_task : ℕ) → Processor → Run Processor
load_kernel_segments single_task p = do
  (p', done) ← with_irq_lock interrupts_of set_interrupts (load_segments single_task) p
  ok p'

push_back-Contains' :
    (g : Gdt) (xs : List ℕ) (entry : ℕ)
    → Contains gdt_capacity g.entries xs
    → length xs < gdt_capacity
    → Returns
        (λ r. Contains gdt_capacity r.0.entries (xs ++ entry ∷ []) × (r.1 ≡ length xs))
        (push_back g entry)
unfolding push_back
push_back-Contains' g xs entry c less =
    let size = c.measured in
    let idx : g.entries.size % 2 ^ 16 ≡ length xs = omega arith in
    Returns-bind (λ v. Contains gdt_capacity v (xs ++ entry ∷ []))
      (λ r. Contains gdt_capacity r.0.entries (xs ++ entry ∷ []) × (r.1 ≡ length xs)) _ _
      (push_back-Contains gdt_capacity (omega arith) g.entries xs entry c less) λ v c'. (c', idx)

-- The table that the kernel runs on.
abbrev pub table : (single_task : ℕ) → List ℕ
table single_task =
    segment_bits null_segment
    ∷ segment_bits kernel_code
    ∷ segment_bits kernel_data
    ∷ task_bits (single_task_descriptor single_task)
    ∷ []

-- The selectors that the kernel loads lead to the segments that are meant.
pub record Loaded (single_task : ℕ) (p p' : Processor) : Type 0 where
  pub holds : Contains gdt_capacity p'.gdt.entries (table single_task)
  pub limit : p'.gdt.limit ≡ 31
  pub code_entry :
      at gdt_capacity 0 p'.gdt.entries (kernel_code_selector / 8) ≡ ok (segment_bits kernel_code)
  pub data_entry :
      at gdt_capacity 0 p'.gdt.entries (kernel_data_selector / 8) ≡ ok (segment_bits kernel_data)
  pub task_entry :
      at gdt_capacity 0 p'.gdt.entries (segment_selector 3 0 0 / 8)
      ≡ ok (task_bits (single_task_descriptor single_task))
  pub interrupts : p'.interrupts ≡ p.interrupts

loaded :
    (single_task : ℕ) (p p' : Processor)
    → Contains gdt_capacity p'.gdt.entries (table single_task)
    → p'.interrupts ≡ p.interrupts
    → Loaded single_task p (record p' { gdt = reload_table p'.gdt })
unfolding reload_table kernel_code_selector kernel_data_selector segment_selector
loaded single_task p p' c same =
    let look =
      λ (i : ℕ). at_lem gdt_capacity (omega arith) 0 p'.gdt.entries (table single_task) i c in
    record {
      holds = c;
      limit = rw c.measured refl;
      code_entry = look 1;
      data_entry = look 2;
      task_entry = look 3;
      interrupts = same;
    }

-- Loading the kernel's segments into an empty table of 1024 entries returns, where the interrupt
-- flag and its shadow agree: the table has four entries and its limit is 31, the selectors of the
-- kernel's code, of its data and of the task lead to the descriptors of these, and the interrupts
-- are as they were.
pub load_kernel_segments-Loaded :
    (single_task : ℕ) (p : Processor)
    → Contains gdt_capacity p.gdt.entries []
    → IsSynced p.interrupts
    → Returns (Loaded single_task p) (load_kernel_segments single_task p)
unfolding load_kernel_segments load_segments push_segment push_task
load_kernel_segments-Loaded single_task p c0 synced =
    Returns-bind (λ r. Loaded single_task p r.0) (Loaded single_task p) _ _
      (with_irq_lock-Returns interrupts_of set_interrupts (λ p' u. Loaded single_task p p')
        (load_segments single_task) p synced
        (Returns-bind _ _ (push_back p.gdt (segment_bits null_segment)) _
          (push_back-Contains' p.gdt [] (segment_bits null_segment) c0 (omega arith))
          λ r1 (c1, i1).
            Returns-bind _ _ (push_back r1.0 (segment_bits kernel_code)) _
              (push_back-Contains' r1.0 _ (segment_bits kernel_code) c1 (omega arith))
              λ r2 (c2, i2).
                Returns-bind _ _ (push_back r2.0 (segment_bits kernel_data)) _
                  (push_back-Contains' r2.0 _ (segment_bits kernel_data) c2 (omega arith))
                  λ r3 (c3, i3).
                    Returns-bind _ _
                      (push_back r3.0 (task_bits (single_task_descriptor single_task))) _
                      (push_back-Contains' r3.0 _ (task_bits (single_task_descriptor single_task))
                        c3 (omega arith))
                      λ r4 (c4, i4).
                        (refl, loaded single_task p (record p { gdt = r4.0 }) c4 refl)))
      λ r h. h
