-- ===== src/Devices/Ports.antt =====
-- The ports of kernel/x86/include/bolgenos-ng/asm.hpp and the waiting of libkernelcxx/src/time.cpp,
-- as the drivers use them. What stands behind the ports is a parameter: `World` is its state, and
-- reading a port or letting time pass may change it.
use bolgenos_ng.Base.{ℕ}
use bolgenos_ng.Memory.Machine
use bolgenos_ng.Memory.Machine.{Run, ok, panicked, out_of_fuel}

pub record Ports (World : Type 0) : Type 0 where
  pub inb : World → (port : ℕ) → World × ℕ
  pub outb : World → (port value : ℕ) → World
  pub sleep_ms : World → (ms : ℕ) → World

-- A driver's run from a state of the world.
abbrev pub Io : Type 0 → Type 0 → Type 0
Io World A = World → Run (World × A)

infixl 5 ◌>>=◌ ◌>>◌
abbrev pub ◌>>=◌ : {World A B : Type 0} → Io World A → (A → Io World B) → Io World B
◌>>=◌ m f w = Machine.◌>>=◌ (m w) (λ r. f r.1 r.0)

abbrev pub ◌>>◌ : {World B : Type 0} → Io World (Unit {0}) → Io World B → Io World B
m >> k = m >>= λ _. k

abbrev pub pure : {World A : Type 0} → A → Io World A
pure a w = ok (w, a)

abbrev pub panic : {World A : Type 0} → Io World A
panic w = panicked

module _ {World : Type 0} (ports : Ports World) where
  abbrev pub inb : (port : ℕ) → Io World ℕ
  inb port w = ok (ports.inb w port)

  abbrev pub outb : (port value : ℕ) → Io World (Unit {0})
  outb port value w = ok (ports.outb w port value, tt)

  abbrev pub sleep_ms : (ms : ℕ) → Io World (Unit {0})
  sleep_ms ms w = ok (ports.sleep_ms w ms, tt)

abbrev pub exhausted : {World A : Type 0} → Io World A
exhausted w = out_of_fuel

-- A run that does not touch the ports.
abbrev pub lift : {World A : Type 0} → Run A → Io World A
lift m w = Machine.◌>>=◌ m (λ a. ok (w, a))
