-- ===== src/Irq/Manager.antt =====
-- kernel/x86/src/irq.cpp and kernel/x86/include/bolgenos-ng/irq.hpp: InterruptsManager, with a list
-- of handlers for each interrupt vector and one for each exception. A handler is known by its
-- address. What the handlers do is a parameter: `World` is all that they change, and they leave the
-- manager alone. `HANDLED` is true and `NONE` is false.
pub mod Table
pub mod Dispatch
use bolgenos_ng.Base.{ℕ, Bool, true, false, not, List, [], ◌∷◌, ltb, ◌==◌, if◌then◌else◌}
use bolgenos_ng.Memory.Machine.{Run, ok, panicked, ◌>>=◌}
use bolgenos_ng.Utils.ForwardList
use bolgenos_ng.Utils.ForwardList.{Nodes, push_front, begin, empty}
use bolgenos_ng.Irq.Pic.{Writes, end_of_interrupt}

-- `_irq_handlers[vector]` or `_exceptions_handlers[exception]`.
pub data Slot : Type 0 where
  irq : ℕ → Slot
  exception : ℕ → Slot

-- `lists` is where each list lies.
pub record InterruptsManager : Type 0 where
  pub nodes : Nodes ℕ
  pub lists : Slot → ℕ

pub record Handlers (World : Type 0) : Type 0 where
  pub handle_irq : World → (handler vector : ℕ) → World × Bool
  pub handle_exception : World → (handler frame : ℕ) → World

abbrev pub exceptions_max : ℕ
exceptions_max = 0x20

-- `answer` is the address that the allocator answers.
unfoldable pub add_handler : InterruptsManager → Slot → (handler answer : ℕ) → Run InterruptsManager
add_handler m slot handler answer = do
  (nodes, position) ← push_front m.nodes 0 answer (m.lists slot) handler
  if position == 0 then panicked else ok (record m { nodes = nodes })

unfoldable pub is_exception : (vector : ℕ) → Bool
is_exception vector = ltb vector exceptions_max

module _ {World : Type 0} (handlers : Handlers World) where
  unfoldable pub dispatch_exception :
      (fuel : ℕ) → InterruptsManager → World → (number frame : ℕ) → Run (World × Bool)
  dispatch_exception fuel m w number frame = do
    let list = m.lists (exception number)
    none ← empty m.nodes list
    if none then ok (w, false) else do
      first ← begin m.nodes list
      w' ←
          ForwardList.for_each fuel m.nodes
            (λ (w : World) (handler : ℕ). handlers.handle_exception w handler frame) first w
      ok (w', true)

  unfoldable pub dispatch_interrupt :
      (fuel : ℕ) → InterruptsManager → World → (vector : ℕ) → Run (World × Bool)
  dispatch_interrupt fuel m w vector = do
    first ← begin m.nodes (m.lists (irq vector))
    (w', used_handler) ←
        ForwardList.find_if fuel m.nodes
          (λ (w : World) (handler : ℕ). handlers.handle_irq w handler vector) first w
    ok (w', not (used_handler == 0))

  -- What the critical message depends on is the second part of the answer, and what the interrupt
  -- controller is told is the third.
  unfoldable pub handle_irq :
      (fuel : ℕ) → InterruptsManager → World → (vector frame : ℕ) → Run (World × Bool × Writes)
  handle_irq fuel m w vector frame = do
    (w', status) ←
        if is_exception vector
        then dispatch_exception fuel m w vector frame
        else dispatch_interrupt fuel m w vector
    ok (w', status, end_of_interrupt vector)
