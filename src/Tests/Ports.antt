-- ===== src/Tests/Ports.antt =====
-- An interrupts' manager without handlers, a port that has a byte after three milliseconds, and
-- drivers of which one finds its device.
use bolgenos_ng.Base.{
  ℕ, zero, suc, ◌+◌, ◌*◌, ◌%◌, ◌<◌, ◌≡◌, ◌≢◌, refl, ap, true, false, none, some, [], ◌∷◌, inl,
  arith, ltb, leb, ◌==◌, if◌then◌else◌,
}
use bolgenos_ng.Memory.Machine.{ok, panicked, ◌>>=◌}
use bolgenos_ng.Utils.ForwardList.{Nodes}
use bolgenos_ng.Irq.Pic.{end_of_interrupt}
use bolgenos_ng.Irq.Manager.{
  Slot, irq, exception, InterruptsManager, Handlers, add_handler, dispatch_interrupt, handle_irq,
}
use bolgenos_ng.Irq.Manager.Table.{Items, Holds}
use bolgenos_ng.Irq.Manager.Dispatch.{
  irq_answer, exception_answer, handle_irq_lem, dispatch_interrupt-add_handler,
}
use bolgenos_ng.Devices.Ports.{Ports}
use bolgenos_ng.Devices.Ps2.Conf.{Conf}
use bolgenos_ng.Devices.Ps2.Controller.{line_1, data_port, status_port, out_buf_status, receive}
use bolgenos_ng.Devices.Ps2.Controller.Waiting.{poll, after, shows, receive_lem}
use bolgenos_ng.Devices.Ps2.Setup.{Controller, Drivers, set_active, probe_line}
use bolgenos_ng.Devices.Ps2.Setup.Active.{found, last_found, probe_line_lem}

-- The lists lie at the multiples of 16, and all are empty.
abbrev heads : Nodes ℕ
heads a = if a % 16 == 0 then some (record { next = 0; value = 0 }) else none

abbrev place : Slot → ℕ
place (irq n) = 16 * (2 * n + 1)
place (exception n) = 16 * (2 * n + 2)

abbrev pub manager : InterruptsManager
manager = record { nodes = heads; lists = place }

abbrev pub no_items : Items
no_items s = []

place_some : (s : Slot) → place s ≢ 0
place_some (irq n) = λ e. omega arith
place_some (exception n) = λ e. omega arith

place_head : (s : Slot) → heads (place s) ≡ some (record { next = 0; value = 0 })
place_head (irq n) = let t : (16 * (2 * n + 1) % 16 == 0) ≡ true = ground arith in rw t refl
place_head (exception n) = let t : (16 * (2 * n + 2) % 16 == 0) ≡ true = ground arith in rw t refl

place_apart : (s t : Slot) → s ≢ t → place s ≢ place t
place_apart (irq n) (irq k) ne = λ e. let same : n ≡ k = omega arith in ne (ap irq same)
place_apart (irq n) (exception k) ne = λ e. omega arith
place_apart (exception n) (irq k) ne = λ e. omega arith
place_apart (exception n) (exception k) ne =
    λ e. let same : n ≡ k = omega arith in ne (ap exception same)

pub manager-Holds : Holds manager no_items
manager-Holds = record {
  linked = λ s. (place_some s, tt, place_head s, tt);
  apart = λ s t ne. ((place_apart s t ne, tt), tt);
}

-- A handler adds the vector, or the frame, to the world.
abbrev adding : Handlers ℕ
adding = record {
  handle_irq = λ w handler vector. (w + vector, true);
  handle_exception = λ w handler frame. w + frame;
}

handle_irq_lem_example : handle_irq adding 1 manager 0 0x21 0x8000 ≡ (
    let answer =
      if ltb 0x21 0x20
      then exception_answer adding no_items 0 0x21 0x8000
      else irq_answer adding no_items 0 0x21 in
    ok (answer.0, answer.1, end_of_interrupt 0x21))
handle_irq_lem_example =
    handle_irq_lem adding 1 manager no_items manager-Holds 0 0x21 0x8000 (omega arith) (omega arith)

dispatch_interrupt-add_handler_example :
    (add_handler manager (irq 0x21) 0x103000 8 >>= λ m'. dispatch_interrupt adding 2 m' 0 0x21) ≡ (
      if 0x21 == 0x21
      then (let (w', handled) = adding.handle_irq 0 0x103000 0x21 in
          if handled then ok (w', true) else dispatch_interrupt adding 2 manager w' 0x21)
      else dispatch_interrupt adding 2 manager 0 0x21)
dispatch_interrupt-add_handler_example =
    dispatch_interrupt-add_handler adding 2 manager no_items manager-Holds 0 0x21 0x21 0x103000 8
      (omega arith) refl (omega arith)

-- The world is the time in milliseconds; from 3 on the status shows that a byte is there.
abbrev slow_byte : Ports ℕ
slow_byte = record {
  inb = λ w port. (w, if port == status_port then (if leb 3 w then 1 else 0) else 0x1c);
  outb = λ w port value. w;
  sleep_ms = λ w ms. w + ms;
}

not_before : (j : ℕ) → j < 3 → shows slow_byte out_buf_status (after slow_byte j 0) ≡ false
not_before zero less = refl
not_before (suc zero) less = refl
not_before (suc (suc zero)) less = refl
not_before (suc (suc (suc j))) less = absurd (omega arith)

receive_lem_example : receive slow_byte 5 0 ≡ (
    let w' = (poll slow_byte (after slow_byte 3 0)).0 in
    if true
    then ok ((slow_byte.inb w' data_port).0, some (slow_byte.inb w' data_port).1)
    else ok (w', none))
receive_lem_example = receive_lem slow_byte 5 3 0 true (omega arith) not_before refl (inl refl)

abbrev one_answers : Drivers ℕ
one_answers = record {
  probe = λ dev line w. ok (w + 1, dev == 7);
  handle_irq = λ dev w. ok (w, true);
}

abbrev two_known : Controller
two_known = record { known_devices = 5 ∷ 7 ∷ []; active_1 = 0; active_2 = 0 }

probe_line_lem_example : probe_line slow_byte one_answers two_known line_1 0 ≡ (
    if ltb 1 (found slow_byte one_answers line_1 (false ∷ true ∷ []))
    then panicked
    else ok (
      2,
      set_active two_known line_1.id
          (last_found slow_byte one_answers line_1 (5 ∷ 7 ∷ []) (false ∷ true ∷ []) 0),
    ))
probe_line_lem_example =
    probe_line_lem slow_byte one_answers line_1 two_known (false ∷ true ∷ []) 0 2
      (1, refl, (2, refl, refl))
