-- ===== src/Irq.antt =====
-- kernel/x86/src/irq.cpp, kernel/threading and kernel/devices/interrupt_controller: the interrupt
-- flag and its shadow `interrupts_enabled`, the locks that disable interrupts, the dispatch of
-- interrupts and the controller PIC 8259.
pub mod Locking
pub mod Manager
pub mod Pic
pub mod Dump
use bolgenos_ng.Base.{same_bool, Bool, true, false, not, ◌&&◌, ◌||◌, if◌then◌else◌}
use bolgenos_ng.Memory.Machine.{Run, ok, panicked, ◌>>=◌}

-- `flag` is the interrupt flag of EFLAGS, `enabled` is `interrupts_enabled`.
pub record Interrupts : Type 0 where
  pub flag : Bool
  pub enabled : Bool

unfoldable pub is_enabled : Interrupts → Run Bool
is_enabled i = if same_bool i.flag i.enabled then ok i.enabled else panicked

-- `store(true)`, then `sti`.
unfoldable pub enable : Interrupts → Interrupts
enable i = record { flag = true; enabled = true }

-- `cli`, then `exchange(false)`, which answers the previous value.
unfoldable pub disable : Interrupts → Interrupts × Bool
disable i = (record { flag = false; enabled = false }, i.enabled)

-- RecursiveIrqLocker.
pub record Locker : Type 0 where
  pub enable_on_unlock : Bool

unfoldable pub lock : Locker → Interrupts → Locker × Interrupts
lock l i = let (i', was) = disable i in (record { enable_on_unlock = was }, i')

unfoldable pub unlock : Locker → Interrupts → Interrupts
unlock l i = if l.enable_on_unlock then enable i else i

-- `with_lock` of the function `f` on a state that holds the interrupt state: the mutex is
-- default-constructed, and the guard unlocks it when `f` has returned.
module _ {S : Type 0} (get : S → Interrupts) (put : S → Interrupts → S) where
  unfoldable pub with_irq_lock : {A : Type 0} → (S → Run (S × A)) → S → Run (S × A)
  with_irq_lock f s = do
    let (l, i) = lock (record { enable_on_unlock = false }) (get s)
    (s', a) ← f (put s i)
    ok (put s' (unlock l (get s')), a)
