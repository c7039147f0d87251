-- ===== src/Irq/Dump.antt =====
-- The dumps of kernel/x86/src/irq.cpp and irq.hpp: how the state of the processor at an interrupt is
-- printed. A text is the list of its characters.
pub mod Shown
use bolgenos_ng.Base.{ℕ, ◌^◌, ◌<◌, ◌≡◌, refl, sym, List, [], ◌∷◌, ◌++◌, arith}
use mathlib.Core.List.{append-nil}
use bolgenos_ng.Memory.Machine.{Run, ok, ◌>>=◌, Returns, Returns-bind}
use bolgenos_ng.Utils.Ostream.{Ostream, put, setf, show_string, hex}
use bolgenos_ng.Utils.Ostream.Format.{
  show_char, show_unsigned_int, show_unsigned_short, show_pointer, endl, setw, set_width, setfill,
  set_fill, with_format_guard, Grown, Grown-then, show_string-Grown, show_char-Grown, Appends,
  show_unsigned_int-Appends, show_unsigned_short-Appends, show_pointer-Appends,
  with_format_guard-restores,
}

pub record RegistersDump : Type 0 where
  pub edi : ℕ
  pub esi : ℕ
  pub ebp : ℕ
  pub esp : ℕ
  pub ebx : ℕ
  pub edx : ℕ
  pub ecx : ℕ
  pub eax : ℕ

pub record ExecutionInfoDump : Type 0 where
  pub eip : ℕ
  pub cs : ℕ
  pub eflags : ℕ

pub record IntFrameError : Type 0 where
  pub regs : RegistersDump
  pub error_code : ℕ
  pub exe : ExecutionInfoDump

pub record IntFrameNoerror : Type 0 where
  pub regs : RegistersDump
  pub exe : ExecutionInfoDump

-- " eax = "
abbrev pub eax_text : List ℕ
eax_text = 32 ∷ 101 ∷ 97 ∷ 120 ∷ 32 ∷ 61 ∷ 32 ∷ []

-- " ebx = "
abbrev pub ebx_text : List ℕ
ebx_text = 32 ∷ 101 ∷ 98 ∷ 120 ∷ 32 ∷ 61 ∷ 32 ∷ []

-- " ecx = "
abbrev pub ecx_text : List ℕ
ecx_text = 32 ∷ 101 ∷ 99 ∷ 120 ∷ 32 ∷ 61 ∷ 32 ∷ []

-- " edx = "
abbrev pub edx_text : List ℕ
edx_text = 32 ∷ 101 ∷ 100 ∷ 120 ∷ 32 ∷ 61 ∷ 32 ∷ []

-- " esi = "
abbrev pub esi_text : List ℕ
esi_text = 32 ∷ 101 ∷ 115 ∷ 105 ∷ 32 ∷ 61 ∷ 32 ∷ []

-- " edi = "
abbrev pub edi_text : List ℕ
edi_text = 32 ∷ 101 ∷ 100 ∷ 105 ∷ 32 ∷ 61 ∷ 32 ∷ []

-- " ebp = "
abbrev pub ebp_text : List ℕ
ebp_text = 32 ∷ 101 ∷ 98 ∷ 112 ∷ 32 ∷ 61 ∷ 32 ∷ []

-- " esp = "
abbrev pub esp_text : List ℕ
esp_text = 32 ∷ 101 ∷ 115 ∷ 112 ∷ 32 ∷ 61 ∷ 32 ∷ []

-- "eflg = "
abbrev pub eflags_text : List ℕ
eflags_text = 101 ∷ 102 ∷ 108 ∷ 103 ∷ 32 ∷ 61 ∷ 32 ∷ []

-- "  cs = "
abbrev pub cs_text : List ℕ
cs_text = 32 ∷ 32 ∷ 99 ∷ 115 ∷ 32 ∷ 61 ∷ 32 ∷ []

-- " eip = "
abbrev pub eip_text : List ℕ
eip_text = 32 ∷ 101 ∷ 105 ∷ 112 ∷ 32 ∷ 61 ∷ 32 ∷ []

-- " err = "
abbrev pub err_text : List ℕ
err_text = 32 ∷ 101 ∷ 114 ∷ 114 ∷ 32 ∷ 61 ∷ 32 ∷ []

-- `<< text << setw(8) << value << setw(0)`, by the operator for the value's type.
unfoldable pub show_field :
    (Ostream → ℕ → Run Ostream) → List ℕ → (value : ℕ) → Ostream → Run Ostream
show_field show text value s = do s' ← show (setw (show_string s text) 8) value; ok (setw s' 0)

-- The same and `<< ' '`.
unfoldable pub show_register :
    (Ostream → ℕ → Run Ostream) → List ℕ → (value : ℕ) → Ostream → Run Ostream
show_register show text value s = do s' ← show_field show text value s; ok (show_char s' 32)

-- The first register, which is filled with zeroes.
unfoldable pub show_eax : (value : ℕ) → Ostream → Run Ostream
show_eax value s = do
  s' ← show_unsigned_int (setfill (setw (show_string s eax_text) 8) 48) value
  ok (show_char (setw (setfill s' 32) 0) 32)

unfoldable pub print_registers : RegistersDump → Ostream → Run Ostream
print_registers regs s = do
  s1 ← show_eax regs.eax (setfill (hex (setw s 0)) 32)
  s2 ← show_register show_unsigned_int ebx_text regs.ebx s1
  s3 ← show_register show_unsigned_int ecx_text regs.ecx s2
  s4 ← show_register show_unsigned_int edx_text regs.edx s3
  s5 ← show_register show_unsigned_int esi_text regs.esi (endl s4)
  s6 ← show_register show_unsigned_int edi_text regs.edi s5
  s7 ← show_register show_pointer ebp_text regs.ebp s6
  show_register show_pointer esp_text regs.esp s7

unfoldable pub show_registers : RegistersDump → Ostream → Run Ostream
show_registers regs s = with_format_guard (print_registers regs) s

unfoldable pub print_execution_info : ExecutionInfoDump → Ostream → Run Ostream
print_execution_info exe s = do
  s1 ← show_register show_unsigned_int eflags_text exe.eflags (hex (setw s 0))
  s2 ← show_register show_unsigned_short cs_text exe.cs s1
  show_field show_pointer eip_text exe.eip s2

unfoldable pub show_execution_info : ExecutionInfoDump → Ostream → Run Ostream
show_execution_info exe s = with_format_guard (print_execution_info exe) s

unfoldable pub print_frame_error : IntFrameError → Ostream → Run Ostream
print_frame_error frame s = do
  s1 ← show_unsigned_int (setw (show_string (setw (hex s) 0) err_text) 8) frame.error_code
  s2 ← show_execution_info frame.exe (endl s1)
  show_registers frame.regs (endl s2)

unfoldable pub show_frame_error : IntFrameError → Ostream → Run Ostream
show_frame_error frame s = with_format_guard (print_frame_error frame) s

unfoldable pub print_frame_noerror : IntFrameNoerror → Ostream → Run Ostream
print_frame_noerror frame s = do
  s1 ← show_execution_info frame.exe (hex (setw s 0))
  show_registers frame.regs (endl s1)

unfoldable pub show_frame_noerror : IntFrameNoerror → Ostream → Run Ostream
show_frame_noerror frame s = with_format_guard (print_frame_noerror frame) s
