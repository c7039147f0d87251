-- ===== src/Tests/Runtime.antt =====
-- Sleeping for a quarter of a second at ten ticks a second, the start of the timer and of the
-- segments, a dump, and strings in memory.
use bolgenos_ng.Base.{
  ℕ, zero, suc, ◌+◌, ◌<◌, ◌≡◌, refl, true, false, none, some, [], ◌∷◌, inl, arith, leb, ltb, ◌&&◌,
  ◌==◌, if◌then◌else◌, replicate, length-replicate,
}
use bolgenos_ng.Memory.Machine.{ok, fault, Returns}
use bolgenos_ng.Irq.{Interrupts, is_enabled}
use bolgenos_ng.Irq.Dump.{RegistersDump, IntFrameError}
use bolgenos_ng.Utils.Ostream.{Ostream}
use bolgenos_ng.Utils.FixedSizeVector.{Contains}
use bolgenos_ng.Utils.Cstring.{Bytes, CxxString, strncpy, join}
use bolgenos_ng.Utils.Cstring.Copy.{Copied, strncpy-Copied}
use bolgenos_ng.Utils.Cstring.Concat.{join_fault}
use bolgenos_ng.Devices.Time
use bolgenos_ng.Devices.Time.{sleep_ms, sleep_ms_lem}
use bolgenos_ng.Sched.Loop.{unmasked}
use bolgenos_ng.X86.Gdt.{
  Processor, gdt_capacity, load_kernel_segments, Loaded, load_kernel_segments-Loaded,
}

-- The world is the number of jiffies.
abbrev jiffies : ℕ → ℕ
jiffies w = w

abbrev interrupts : ℕ → Interrupts
interrupts w = unmasked

abbrev next_jiffy : ℕ → ℕ
next_jiffy w = w + 1

interrupts_on : is_enabled unmasked ≡ ok true
unfolding is_enabled
interrupts_on = refl

not_yet : (j : ℕ) → j < 3 → jiffies (Time.after jiffies interrupts next_jiffy j 100) < 103
not_yet zero less = omega arith
not_yet (suc zero) less = omega arith
not_yet (suc (suc zero)) less = omega arith
not_yet (suc (suc (suc j))) less = absurd (omega arith)

sleep_ms_lem_example : sleep_ms jiffies interrupts next_jiffy 4 10 250 100 ≡ ok 103
sleep_ms_lem_example =
    sleep_ms_lem jiffies interrupts next_jiffy 10 250 3 4 100 interrupts_on (omega arith)
      (omega arith) (omega arith) not_yet (omega arith)

abbrev registers : RegistersDump
registers = record {
  edi = 1;
  esi = 2;
  ebp = 0x300000;
  esp = 0x2fffe0;
  ebx = 3;
  edx = 4;
  ecx = 5;
  eax = 0xffffffff;
}

abbrev page_fault : IntFrameError
page_fault = record {
  regs = registers;
  error_code = 2;
  exe = record { eip = 0x101234; cs = 8; eflags = 0x202 };
}

abbrev stream : Ostream
stream = record { text = []; format = 1; width = 0; fillch = 32 }

abbrev processor : Processor
processor = record {
  gdt = record { entries = record { elems = replicate 1024 0; size = 0 }; limit = 0 };
  interrupts = record { flag = false; enabled = false };
}

empty_table : Contains gdt_capacity processor.gdt.entries []
empty_table = record {
  rest = replicate 1024 0;
  whole = refl;
  measured = refl;
  room = omega (arith, length-replicate {A = ℕ} 1024 0);
}

load_kernel_segments-Loaded_example :
    Returns (Loaded 0x110000 processor) (load_kernel_segments 0x110000 processor)
load_kernel_segments-Loaded_example =
    load_kernel_segments-Loaded 0x110000 processor empty_table refl

-- Four bytes at 0x10, and "ab" at 0x20.
abbrev bytes : Bytes
bytes a =
    if a == 0x20
    then some 97
    else if a == 0x21
    then some 98
    else if a == 0x22
    then some 0
    else if leb 0x10 a && ltb a 0x14
    then some 7
    else none

strncpy-Copied_example : Returns (Copied bytes 0x10 4 (97 ∷ 98 ∷ [])) (strncpy bytes 0x10 0x20 4)
strncpy-Copied_example =
    strncpy-Copied bytes 0x10 0x20 4 (97 ∷ 98 ∷ [])
      ((7, refl), ((7, refl), ((7, refl), ((7, refl), tt))))
      (omega arith, refl, (omega arith, refl, refl)) (inl (omega arith))

-- Both strings are "ab", and the new buffer has the five bytes from 0x30 on.
abbrev ab : CxxString
ab = record { string = 0x20; size = 2 }

join_fault_example : join bytes (λ a. 0) 0x30 ab ab ≡ fault
join_fault_example = join_fault bytes (λ a. 0) 0x30 ab ab refl
