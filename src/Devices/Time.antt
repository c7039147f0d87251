-- ===== src/Devices/Time.antt =====
-- kernel/libkernelcxx/src/time.cpp: the conversion of milliseconds to timer ticks, and sleeping. HZ
-- is an argument, and so is what the kernel does while a task yields.
use bolgenos_ng.Base.{
  ℕ, zero, suc, ◌+◌, ◌-◌, ◌*◌, ◌/◌, ◌%◌, ◌≤◌, ◌<◌, ◌≡◌, refl, sym, ◌∙◌, ap, ap₂, subst, true, false,
  not, arith, ltb, ◌==◌, if◌then◌else◌, ℕ_discrete,
}
use native.Mathlib.Nat.{div-add-mod}
use bolgenos_ng.Utils.MemUtils.{word}
use bolgenos_ng.Memory.Machine.{Run, ok, panicked, out_of_fuel, ◌>>=◌}
use bolgenos_ng.Irq.{Interrupts, is_enabled}

abbrev pub ms_in_sec : ℕ
ms_in_sec = 1000

unfoldable pub low_part : ℕ → ℕ
low_part val = val % ms_in_sec

unfoldable pub high_part : ℕ → ℕ
high_part val = val / ms_in_sec

unfoldable pub ms_to_ticks : (hz ms : ℕ) → ℕ
ms_to_ticks hz ms =
    let ticks1 = high_part ms * high_part hz * 1000 % word in
    let ticks2 = (ticks1 + high_part ms * low_part hz) % word in
    let ticks3 = (ticks2 + low_part ms * high_part hz) % word in
    let trunkated_part = low_part ms * low_part hz % word in
    let ticks4 = (ticks3 + trunkated_part / 1000) % word in
    if trunkated_part % 1000 == 0 then ticks4 else (ticks4 + 1) % word

-- The state of the world has the jiffies and the interrupts, and `yield` lets the other tasks run.
module _ {World : Type 0} (jiffies : World → ℕ) (interrupts : World → Interrupts)
    (yield_now : World → World) where
  unfoldable pub sleep_from : (fuel : ℕ) → (end_of_sleep : ℕ) → World → Run World
  sleep_from zero end_of_sleep w = out_of_fuel
  sleep_from (suc fuel) end_of_sleep w = elim (ltb (jiffies w) end_of_sleep) [
    | true ↦ sleep_from fuel end_of_sleep (yield_now w)
    | false ↦ ok w
  ]

  unfoldable pub sleep_ : (fuel : ℕ) → (ticks_timeout : ℕ) → World → Run World
  sleep_ fuel ticks_timeout w = do
    on ← is_enabled (interrupts w)
    if not on then panicked else sleep_from fuel ((jiffies w + ticks_timeout) % word) w

  unfoldable pub sleep_ms : (fuel : ℕ) → (hz ms : ℕ) → World → Run World
  sleep_ms fuel hz ms w = sleep_ fuel (ms_to_ticks hz ms) w

-- The least number of ticks that are not shorter.
abbrev pub ticks_of : (hz ms : ℕ) → ℕ
ticks_of hz ms = (ms * hz + 999) / 1000

parts :
    (h l g k : ℕ) → (1000 * h + l) * (1000 * g + k) ≡ 1000 * (h * g * 1000 + h * k + l * g) + l * k
parts h l g k = grind arith

-- The sum that `ms_to_ticks` forms, of the products of the parts.
abbrev sum : (a b c d : ℕ) → ℕ
sum a b c d =
    let ticks3 = ((a % word + b) % word + c) % word in
    let trunkated_part = d % word in
    let ticks4 = (ticks3 + trunkated_part / 1000) % word in
    if trunkated_part % 1000 == 0 then ticks4 else (ticks4 + 1) % word

sum_lem :
    (a b c d : ℕ)
    → d < word
    → (1000 * (a + b + c) + d + 999) / 1000 < word
    → sum a b c d ≡ (1000 * (a + b + c) + d + 999) / 1000
sum_lem a b c d small fits =
    let first : a % word ≡ a = omega arith in
    let second : (a + b) % word ≡ a + b = omega arith in
    let third : (a + b + c) % word ≡ a + b + c = omega arith in
    let fourth : d % word ≡ d = omega arith in
    rw (first, second, third, fourth)
      (elim (ℕ_discrete (d % 1000) 0) [
        | yes e ↦ let t : (d % 1000 == 0) ≡ true = ground arith in rw t (omega arith)
        | no ne ↦ let t : (d % 1000 == 0) ≡ false = ground arith in rw t (omega arith)
      ])

-- The number of ticks is that of the milliseconds, rounded up, where it is below 2 ^ 32.
ms_to_ticks_lem : (hz ms : ℕ) → ticks_of hz ms < word → ms_to_ticks hz ms ≡ ticks_of hz ms
unfolding ms_to_ticks low_part high_part
ms_to_ticks_lem hz ms fits =
    let h = ms / 1000 in
    let l = ms % 1000 in
    let g = hz / 1000 in
    let k = hz % 1000 in
    let split : ms * hz ≡ 1000 * (h * g * 1000 + h * k + l * g) + l * k =
      ap₂ ◌*◌ (sym (div-add-mod ms 1000)) (sym (div-add-mod hz 1000)) ∙ parts h l g k in
    let low : l < 1000 = omega arith in
    let low' : k < 1000 = omega arith in
    let small : l * k < word = grind arith in
    let same : ticks_of hz ms ≡ (1000 * (h * g * 1000 + h * k + l * g) + l * k + 999) / 1000 =
      ap (λ n. (n + 999) / 1000) split in
    sum_lem (h * g * 1000) (h * k) (l * g) (l * k) small (subst (λ n. n < word) same fits)
    ∙ sym same

module _ {World : Type 0} (jiffies : World → ℕ) (interrupts : World → Interrupts)
    (yield_now : World → World) where
  -- The world after some yields.
  abbrev pub after : (rounds : ℕ) → World → World
  after zero w = w
  after (suc rounds) w = after rounds (yield_now w)

  sleep_from_lem :
      (k fuel end : ℕ) (w : World)
      → k < fuel
      → ((j : ℕ) → j < k → jiffies (after j w) < end)
      → end ≤ jiffies (after k w)
      → sleep_from jiffies interrupts yield_now fuel end w ≡ ok (after k w)
  unfolding sleep_from
  sleep_from_lem k zero end w enough before now = absurd (omega arith)
  sleep_from_lem zero (suc fuel) end w enough before now =
      let t : ltb (jiffies w) end ≡ false = ground arith in rw (t, sleep_from) refl
  sleep_from_lem (suc k) (suc fuel) end w enough before now =
      let first = before 0 (omega arith) in
      let t : ltb (jiffies w) end ≡ true = ground arith in
      rw (t, sleep_from)
        (sleep_from_lem k fuel end (yield_now w) (omega arith)
          (λ j less. before (suc j) (omega arith)) now)

  -- Sleeping for some milliseconds, with interrupts on, ends after the first yield by which the
  -- jiffies have advanced by the milliseconds in ticks, rounded up, where there is such a yield,
  -- the fuel is more than the yields, and neither the number of ticks nor the jiffies reach 2 ^ 32.
  pub sleep_ms_lem :
      (hz ms k fuel : ℕ) (w : World)
      → is_enabled (interrupts w) ≡ ok true
      → ticks_of hz ms < word
      → jiffies w + ticks_of hz ms < word
      → k < fuel
      → ((j : ℕ) → j < k → jiffies (after j w) < jiffies w + ticks_of hz ms)
      → jiffies w + ticks_of hz ms ≤ jiffies (after k w)
      → sleep_ms jiffies interrupts yield_now fuel hz ms w ≡ ok (after k w)
  unfolding sleep_ms sleep_
  sleep_ms_lem hz ms k fuel w on small fits enough before now =
      let end : (jiffies w + ticks_of hz ms) % word ≡ jiffies w + ticks_of hz ms = omega arith in
      rw (on, ms_to_ticks_lem hz ms small, end)
        (sleep_from_lem k fuel (jiffies w + ticks_of hz ms) w enough before now)

  -- Near the end of the range of the jiffies, sleeping ends at once.
  pub sleep-wrap :
      (fuel ticks : ℕ) (w : World)
      → is_enabled (interrupts w) ≡ ok true
      → jiffies w < word
      → ticks < word
      → word ≤ jiffies w + ticks
      → sleep_ jiffies interrupts yield_now (suc fuel) ticks w ≡ ok w
  unfolding sleep_ sleep_from
  sleep-wrap fuel ticks w on now short past =
      let end : (jiffies w + ticks) % word ≡ jiffies w + ticks - word = omega arith in
      let t : ltb (jiffies w) (jiffies w + ticks - word) ≡ false = ground arith in
      rw (on, end) (rw (t, sleep_from) refl)
