-- ===== src/Irq/Pic.antt =====
-- kernel/devices/interrupt_controller/pic_8259.cpp: what the driver writes to the ports of the two
-- controllers, in order.
use bolgenos_ng.Base.{ℕ, ◌+◌, ◌≡◌, refl, Bool, true, false, List, [], ◌∷◌, ltb, if◌then◌else◌}
use bolgenos_ng.Memory.Machine.{Run, ok, panicked, ◌>>=◌}

-- `outb(port, value)`
abbrev pub Writes : Type 0
Writes = List (ℕ × ℕ)

abbrev pub master_comm : ℕ
master_comm = 0x20

abbrev pub master_data : ℕ
master_data = 0x21

abbrev pub slave_comm : ℕ
slave_comm = 0xa0

abbrev pub slave_data : ℕ
slave_data = 0xa1

abbrev pub eoi : ℕ
eoi = 0x20

abbrev pub min_irq_vector : ℕ
min_irq_vector = 0x20

unfoldable pub end_of_interrupt : (vector : ℕ) → Writes
end_of_interrupt vector =
    if ltb (8 + 0x20) vector
    then (slave_comm, eoi) ∷ (master_comm, eoi) ∷ []
    else (master_comm, eoi) ∷ []

-- The argument is `_controller_initialized`, and so is the first part of the answer.
unfoldable pub initialize_controller : Bool → Run (Bool × Writes)
initialize_controller initialized =
    if initialized
    then panicked
    else ok (
      true,
      (master_comm, 0x11)
          ∷ (slave_comm, 0x11)
          ∷ (master_data, 0x20)
          ∷ (slave_data, 0x28)
          ∷ (master_data, 0x4)
          ∷ (slave_data, 0x2)
          ∷ (master_data, 0x1)
          ∷ (slave_data, 0x1)
          ∷ (master_data, 0x00)
          ∷ [],
    )

-- The controllers that have to be told of the end of the interrupt `vector`, which line they are:
-- the master has the vectors 0x20 to 0x27, the slave those from 0x28 to 0x2f and the master's
-- line 2 with them.
abbrev pub acknowledged : (vector : ℕ) → Writes
acknowledged vector =
    if ltb vector 0x28 then (master_comm, eoi) ∷ [] else (slave_comm, eoi) ∷ (master_comm, eoi) ∷ []

-- A second initialization panics.
pub initialize_controller_once :
    (initialized : Bool)
    → (initialize_controller initialized >>= λ r. initialize_controller r.0) ≡ panicked
unfolding initialize_controller
initialize_controller_once true = refl
initialize_controller_once false = refl
