-- ===== src/Devices/Pit.antt =====
-- kernel/devices/src/pit.cpp: the programming of the timer chip, and the handler of its interrupt,
-- which counts the jiffies.
use bolgenos_ng.Base.{ℕ, zero, suc, ◌+◌, ◌*◌, ◌/◌, ◌%◌, ◌≡◌, bit_or, [], ◌∷◌, if◌then◌else◌}
use bolgenos_ng.Utils.MemUtils.{word, shiftmask}
use bolgenos_ng.Memory.Machine.{Run, ok, ◌>>=◌}
use bolgenos_ng.Irq.Pic.{Writes, min_irq_vector}
use bolgenos_ng.Irq.Manager.{irq, InterruptsManager, add_handler}
use bolgenos_ng.Irq.Manager.Table.{Items, Holds, with_item}
use bolgenos_ng.Devices.FrequencyDivider.{
  FrequencyDivider, set_frequency, pit_timeout, do_tick, Programmed,
}

abbrev pub pit_frequency : ℕ
pit_frequency = 1193182

abbrev pub max_divider : ℕ
max_divider = 65535

abbrev pub timer_port : ℕ
timer_port = 0x40

abbrev pub cmd_port : ℕ
cmd_port = 0x43

-- `ch0 | latch | m2 | bin`
abbrev pub cmd : ℕ
cmd = bit_or (bit_or (bit_or 0 0) 4) 1

abbrev pub new_divider : FrequencyDivider
new_divider = record { pit = 0; counter = 0; restart = 0 }

-- PitIRQHandler::handle_irq, on the divider and the jiffies.
unfoldable pub handle_irq : FrequencyDivider → (jiffies : ℕ) → FrequencyDivider × ℕ
handle_irq d jiffies =
    let (d', ticked) = do_tick d in (d', if ticked then (jiffies + 1) % word else jiffies)

-- `handler` is the new handler, and `answer` what the allocator answers for the manager's node.
unfoldable pub init :
    (hz : ℕ)
    → InterruptsManager
    → (handler answer : ℕ) → Run (FrequencyDivider × Writes × InterruptsManager)
init hz m handler answer = do
  d ← set_frequency new_divider hz pit_frequency max_divider
  let writes =
      (cmd_port, cmd)
      ∷ (timer_port, shiftmask (pit_timeout d) 0 0xff)
      ∷ (timer_port, shiftmask (pit_timeout d) 8 0xff)
      ∷ []
  m' ← add_handler m (irq (min_irq_vector + 0)) handler answer
  ok (d, writes, m')

-- The jiffies after a number of interrupts.
abbrev pub run_irqs : (n : ℕ) → FrequencyDivider → (jiffies : ℕ) → ℕ
run_irqs zero d jiffies = jiffies
run_irqs (suc n) d jiffies = run_irqs n (handle_irq d jiffies).0 (handle_irq d jiffies).1

-- What the timer's start leaves: the chip has got the divider in two bytes, the manager has the
-- handler, and from then on the jiffies count the periods of the divider.
pub record Counting (hz handler answer : ℕ) (items : Items)
    (r : FrequencyDivider × Writes × InterruptsManager) : Type 0 where
  pub programmed : Programmed hz pit_frequency max_divider r.0
  pub written :
      (low : ℕ) × (high : ℕ) × (r.1 ≡ (cmd_port, cmd) ∷ (timer_port, low) ∷ (timer_port, high) ∷ [])
      × (low + 256 * high ≡ pit_timeout r.0)
  pub holds : Holds r.2 (with_item items (irq min_irq_vector) answer handler)
  pub counts : (n : ℕ) → run_irqs n r.0 0 ≡ n / (r.0.restart + 1) % word
