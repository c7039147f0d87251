-- ===== src/Devices/FrequencyDivider.antt =====
-- kernel/devices/src/frequency_divider.hpp and frequency_divider.cpp: the division of the timer's
-- frequency, first in the chip and then by counting its interrupts. `unsigned long` has 32 bits.
use bolgenos_ng.Base.{
  ℕ, zero, suc, ◌+◌, ◌-◌, ◌*◌, ◌/◌, ◌^◌, ◌≤◌, ◌<◌, ◌≡◌, refl, sym, Bool, true, false, not, arith,
  ltb, Bool-cases, inl, inr, ◌==◌, if◌then◌else◌, ℕ_discrete,
}
use native.Mathlib.Nat.{div-eq_of_lt-le}
use bolgenos_ng.Base.Bits.{bit_and_mask}
use bolgenos_ng.Utils.MemUtils.{shiftmask}
use bolgenos_ng.Memory.Machine.{Run, ok, fault, Returns}

pub record FrequencyDivider : Type 0 where
  pub pit : ℕ
  pub counter : ℕ
  pub restart : ℕ

-- A frequency of 0 is a division by zero.
unfoldable pub set_frequency :
    FrequencyDivider → (hz hw_pit_freq hw_max_divider : ℕ) → Run FrequencyDivider
set_frequency d hz hw_pit_freq hw_max_divider =
    if hz == 0
    then fault
    else let full_div = (if hw_pit_freq / hz == 0 then 1 else hw_pit_freq / hz) in
      if ltb hw_max_divider full_div
      then ok (record { pit = 100; counter = full_div / 100; restart = full_div / 100 })
      else ok (record { pit = shiftmask full_div 0 0xffff; counter = 0; restart = 0 })

unfoldable pub pit_timeout : FrequencyDivider → ℕ
pit_timeout d = d.pit

unfoldable pub do_tick : FrequencyDivider → FrequencyDivider × Bool
do_tick d =
    if not (d.counter == 0)
    then (record d { counter = d.counter - 1 }, false)
    else (record d { counter = d.restart }, true)

unfoldable pub is_low_frequency : FrequencyDivider → Bool
is_low_frequency d = not (d.restart == 0)

-- The divider after a number of hardware ticks, with the software ticks that they made.
unfoldable pub run_ticks : ℕ → FrequencyDivider → ℕ × FrequencyDivider
run_ticks zero d = (0, d)
run_ticks (suc n) d =
    let rest = run_ticks n (do_tick d).0 in (if (do_tick d).1 then rest.0 + 1 else rest.0, rest.1)

-- The counter stays in step with the ticks: `n` hardware ticks and what is left on the counter make
-- up whole periods of `restart + 1` and what was on the counter at first.
pub run_ticks_lem :
    (n : ℕ) (d : FrequencyDivider)
    → d.counter ≤ d.restart
    → ((run_ticks n d).1.counter ≤ d.restart)
      × (n + (run_ticks n d).1.counter ≡ (run_ticks n d).0 * (d.restart + 1) + d.counter)
unfolding run_ticks do_tick
run_ticks_lem zero d low = (low, omega arith)
run_ticks_lem (suc n) d low = elim (ℕ_discrete d.counter 0) [
  | yes e ↦
      let ih = run_ticks_lem n (record d { counter = d.restart }) (omega arith) in
      rw e (ih.0, grind (arith, ih.1))
  | no ne ↦
      let ih = run_ticks_lem n (record d { counter = d.counter - 1 }) (omega arith) in
      let t : (d.counter == 0) ≡ false = ground arith in rw t (ih.0, omega (arith, ih.1))
]

-- From a full counter, any number of hardware ticks makes one software tick for every `restart + 1`
-- of them, rounded down.
pub run_ticks-period :
    (n : ℕ) (d : FrequencyDivider) → d.counter ≡ d.restart → (run_ticks n d).0 ≡ n / (d.restart + 1)
run_ticks-period n d full =
    let (low, steps) = run_ticks_lem n d (omega arith) in
    sym (div-eq_of_lt-le (d.restart + 1) (omega (arith, full)) (grind arith))

-- What a successful setting of the frequency leaves: a value for the chip that is not 0, and a full
-- counter; the software divides as well exactly when the divider passes the chip's greatest one.
pub record Programmed (hz hw_pit_freq hw_max_divider : ℕ) (d : FrequencyDivider) : Type 0 where
  pub runs : (1 ≤ pit_timeout d) × (pit_timeout d < 2 ^ 16)
  pub full : d.counter ≡ d.restart
  pub low : is_low_frequency d ≡ ltb hw_max_divider (hw_pit_freq / hz)

-- The divider of the frequency, at least 1.
abbrev divider : ℕ → ℕ
divider q = if q == 0 then 1 else q

abbrev chosen : (full_div hw_max_divider : ℕ) → FrequencyDivider
chosen full_div hw_max_divider =
    if ltb hw_max_divider full_div
    then record { pit = 100; counter = full_div / 100; restart = full_div / 100 }
    else record { pit = shiftmask full_div 0 0xffff; counter = 0; restart = 0 }

set_frequency-chosen :
    (d : FrequencyDivider) (hz f m : ℕ)
    → 1 ≤ hz
    → set_frequency d hz f m ≡ ok (chosen (divider (f / hz)) m)
unfolding set_frequency
set_frequency-chosen d hz f m some =
    let t : (hz == 0) ≡ false = ground arith in
    elim (Bool-cases (ltb m (divider (f / hz)))) [ inl e ↦ rw (t, e) refl | inr e ↦ rw (t, e) refl ]

shiftmask-low : (q : ℕ) → q < 65536 → shiftmask q 0 0xffff ≡ q
unfolding shiftmask
shiftmask-low q small = omega (arith, bit_and_mask 16 (q / 2 ^ 0))

-- Setting a frequency other than 0 returns, where the greatest divider of the chip is from 100 to
-- 0xffff. The value for the chip is from 1 to 0xffff, the counter is full, and the software divides
-- as well exactly when the divider passes the greatest one.
pub set_frequency-Programmed :
    (d : FrequencyDivider) (hz hw_pit_freq hw_max_divider : ℕ)
    → 1 ≤ hz
    → 100 ≤ hw_max_divider
    → hw_max_divider ≤ 0xffff
    → Returns
        (Programmed hz hw_pit_freq hw_max_divider)
        (set_frequency d hz hw_pit_freq hw_max_divider)
unfolding pit_timeout is_low_frequency
set_frequency-Programmed d hz f m some large small =
    rw (set_frequency-chosen d hz f m some) (elim (Bool-cases (ltb m (divider (f / hz)))) [
      | inl e ↦ rw e (record { runs = (omega arith, omega arith); full = refl; low = ground arith })
      | inr e ↦
          let exact : shiftmask (divider (f / hz)) 0 0xffff ≡ divider (f / hz) =
            shiftmask-low (divider (f / hz)) (ground arith) in
          rw (e, exact)
            (record { runs = (ground arith, ground arith); full = refl; low = ground arith })
    ])
