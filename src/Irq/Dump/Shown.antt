-- ===== src/Irq/Dump/Shown.antt =====
-- What the dumps do to a stream: they add to its text and leave its format.
use bolgenos_ng.Base.{ℕ, ◌^◌, ◌<◌, ◌≡◌, refl, sym, List, [], ◌∷◌}
use mathlib.Core.List.{append-nil}
use bolgenos_ng.Memory.Machine.{Run, Returns, Returns-bind}
use bolgenos_ng.Utils.Ostream.{Ostream, put, setf, show_string, hex}
use bolgenos_ng.Utils.Ostream.Format.{
  show_unsigned_int, show_pointer, endl, setw, set_width, setfill, set_fill, Grown, Grown-then,
  show_string-Grown, show_char-Grown, Appends, show_unsigned_int-Appends, show_pointer-Appends,
  with_format_guard-restores,
}
use bolgenos_ng.Irq.Dump.{
  RegistersDump, ExecutionInfoDump, eax_text, ebx_text, ecx_text, edx_text, esi_text, edi_text,
  ebp_text, esp_text, show_field, show_register, show_eax, print_registers, show_registers,
}

-- The values fit the fields of the structures.
pub record RegistersFit (regs : RegistersDump) : Type 0 where
  pub general :
      (regs.eax < 2 ^ 32) × (regs.ebx < 2 ^ 32) × (regs.ecx < 2 ^ 32) × (regs.edx < 2 ^ 32)
  pub index : (regs.esi < 2 ^ 32) × (regs.edi < 2 ^ 32) × (regs.ebp < 2 ^ 32) × (regs.esp < 2 ^ 32)

pub record ExecutionFits (exe : ExecutionInfoDump) : Type 0 where
  pub words : (exe.eip < 2 ^ 32) × (exe.eflags < 2 ^ 32)
  pub segment : exe.cs < 2 ^ 16

-- `s'` has the text of `s` and some more, and the format of `s`.
abbrev pub Dumped : Ostream → Ostream → Type 0
Dumped s s' = Grown s s' × (s'.format ≡ s.format) × (s'.width ≡ s.width) × (s'.fillch ≡ s.fillch)

module _ (s : Ostream) where
  show_field-Grown :
      (bound : ℕ) (show : Ostream → ℕ → Run Ostream) (text : List ℕ) (value : ℕ) (s1 : Ostream)
      → Appends bound show
      → value < bound
      → Grown s s1
      → Returns (Grown s) (show_field show text value s1)
  unfolding show_field setw set_width
  show_field-Grown bound show text value s1 appends small g =
      Returns-bind (Grown s) (Grown s) (show (setw (show_string s1 text) 8) value) _
        (appends s (setw (show_string s1 text) 8) value small (show_string-Grown s s1 text g))
        λ s2 g2. g2

  show_register-Grown :
      (bound : ℕ) (show : Ostream → ℕ → Run Ostream) (text : List ℕ) (value : ℕ) (s1 : Ostream)
      → Appends bound show
      → value < bound
      → Grown s s1
      → Returns (Grown s) (show_register show text value s1)
  unfolding show_register
  show_register-Grown bound show text value s1 appends small g =
      Returns-bind (Grown s) (Grown s) (show_field show text value s1) _
        (show_field-Grown bound show text value s1 appends small g)
        λ s2 g2. show_char-Grown s s2 32 g2

  show_eax-Grown :
      (value : ℕ) (s1 : Ostream)
      → value < 2 ^ 32
      → Grown s s1
      → Returns (Grown s) (show_eax value s1)
  unfolding show_eax setw set_width setfill set_fill
  show_eax-Grown value s1 small g =
      Returns-bind (Grown s) (Grown s)
        (show_unsigned_int (setfill (setw (show_string s1 eax_text) 8) 48) value) _
        (show_unsigned_int-Appends s (setfill (setw (show_string s1 eax_text) 8) 48) value small
          (show_string-Grown s s1 eax_text g))
        λ s2 g2. show_char-Grown s (setw (setfill s2 32) 0) 32 g2

  hex-Grown : (s1 : Ostream) → Grown s s1 → Grown s (hex s1)
  unfolding hex setf
  hex-Grown s1 g = g

  endl-Grown : (s1 : Ostream) → Grown s s1 → Grown s (endl s1)
  unfolding endl put
  endl-Grown s1 g = Grown-then s s1 (endl s1) (10 ∷ []) refl g

  word_register :
      (text : List ℕ) (value : ℕ) (s1 : Ostream)
      → value < 2 ^ 32
      → Grown s s1
      → Returns (Grown s) (show_register show_unsigned_int text value s1)
  word_register text value s1 =
      show_register-Grown (2 ^ 32) show_unsigned_int text value s1 show_unsigned_int-Appends

  pointer_register :
      (text : List ℕ) (value : ℕ) (s1 : Ostream)
      → value < 2 ^ 32
      → Grown s s1
      → Returns (Grown s) (show_register show_pointer text value s1)
  pointer_register text value s1 =
      show_register-Grown (2 ^ 32) show_pointer text value s1 show_pointer-Appends

  print_registers-Grown :
      (regs : RegistersDump) → RegistersFit regs → Returns (Grown s) (print_registers regs s)
  unfolding print_registers setfill set_fill setw set_width
  print_registers-Grown regs fit =
      let (a, b, c, d) = fit.general in
      let (si, di, bp, sp) = fit.index in
      Returns-bind (Grown s) (Grown s) _ _
        (show_eax-Grown regs.eax (setfill (hex (setw s 0)) 32) a
          (hex-Grown (setw s 0) ([], sym (append-nil s.text))))
        λ s1 g1.
          Returns-bind (Grown s) (Grown s) _ _ (word_register ebx_text regs.ebx s1 b g1) λ s2 g2.
            Returns-bind (Grown s) (Grown s) _ _ (word_register ecx_text regs.ecx s2 c g2) λ s3 g3.
              Returns-bind (Grown s) (Grown s) _ _ (word_register edx_text regs.edx s3 d g3)
                λ s4 g4.
                  Returns-bind (Grown s) (Grown s) _ _
                    (word_register esi_text regs.esi (endl s4) si (endl-Grown s4 g4))
                    λ s5 g5.
                      Returns-bind (Grown s) (Grown s) _ _
                        (word_register edi_text regs.edi s5 di g5)
                        λ s6 g6.
                          Returns-bind (Grown s) (Grown s) _ _
                            (pointer_register ebp_text regs.ebp s6 bp g6)
                            λ s7 g7. pointer_register esp_text regs.esp s7 sp g7

-- Printing the registers adds to the text and leaves the format, where their values fit.
pub show_registers-Dumped :
    (regs : RegistersDump) (s : Ostream)
    → RegistersFit regs
    → Returns (Dumped s) (show_registers regs s)
unfolding show_registers
show_registers-Dumped regs s fit =
    with_format_guard-restores (print_registers regs) s (print_registers-Grown s regs fit)
