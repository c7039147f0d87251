-- ===== src/Irq/Manager/Dispatch.antt =====
-- How an interrupt reaches its handlers, and an exception its own.
use bolgenos_ng.Base.{
  subst, ℕ, ◌+◌, ◌<◌, ◌≡◌, ◌≢◌, refl, sym, ◌∙◌, ap, Bool, true, false, not, none, [], ◌∷◌, inl, inr,
  arith, ◌==◌, if◌then◌else◌, Bool-cases, length, ℕ_discrete, ltb,
}
use bolgenos_ng.Memory.Machine.{Run, ok, ◌>>=◌, Returns-ok}
use bolgenos_ng.Utils.ForwardList.{begin, for_each}
use bolgenos_ng.Utils.ForwardList.Linked.{Cells, first, values, Linked}
use bolgenos_ng.Utils.ForwardList.Erase.{begin_lem, empty_lem}
use bolgenos_ng.Utils.ForwardList.Visit.{fold, ask, for_each_lem, find_if_lem}
use bolgenos_ng.Irq.Pic.{end_of_interrupt}
use bolgenos_ng.Irq.Manager.{
  Slot, irq, exception, InterruptsManager, Handlers, add_handler, is_exception, dispatch_exception,
  dispatch_interrupt, handle_irq,
}
use bolgenos_ng.Irq.Manager.Table.{
  Items, Holds, with_item, with_item_self, with_item_ne, add_handler-Holds,
}

not-not : (b : Bool) → not (not b) ≡ b
not-not true = refl
not-not false = refl

irq_number : Slot → ℕ
irq_number (irq n) = n
irq_number (exception n) = n

irq_injective : {a b : ℕ} → irq a ≡ irq b → a ≡ b
unfolding irq_number
irq_injective e = ap irq_number e

module _ {World : Type 0} (handlers : Handlers World) where
  -- The handlers of the vector are asked in order, until one has handled the interrupt.
  abbrev pub irq_answer : Items → World → (vector : ℕ) → World × Bool
  irq_answer items w vector =
      ask (λ (w : World) (handler : ℕ). handlers.handle_irq w handler vector) w
        (values (items (irq vector)))

  -- All handlers of the exception run in order.
  abbrev pub exception_answer : Items → World → (number frame : ℕ) → World × Bool
  exception_answer items w number frame = (
    fold (λ (w : World) (handler : ℕ). handlers.handle_exception w handler frame) w
        (values (items (exception number))),
    not (first (items (exception number)) == 0),
  )

  module _ (fuel : ℕ) (m : InterruptsManager) (items : Items) (holds : Holds m items)
      (w : World) where
    pub dispatch_interrupt_lem :
        (vector : ℕ)
        → length (items (irq vector)) < fuel
        → dispatch_interrupt handlers fuel m w vector ≡ ok (irq_answer items w vector)
    unfolding dispatch_interrupt
    dispatch_interrupt_lem vector enough =
        let h = holds.linked (irq vector) in
        let pred = λ (w : World) (handler : ℕ). handlers.handle_irq w handler vector in
        let (q, found, at_end) = find_if_lem pred fuel m.nodes (items (irq vector)) w enough h.3 in
        let yes_no = not-not (irq_answer items w vector).1 in
        rw
          (begin_lem m.nodes (m.lists (irq vector)) 0 (items (irq vector)) h, found, at_end, yes_no)
          refl

    run_all :
        (func : World → ℕ → World) (b : ℕ) (xs : Cells ℕ)
        → length xs < fuel
        → Linked m.nodes ((b, 0) ∷ xs)
        → if◌then◌else◌ {A = Run (World × Bool)}
            (first xs == 0)
            (ok (w, false))
            (do p ← begin m.nodes b; w' ← for_each fuel m.nodes func p w; ok (w', true))
          ≡ ok (fold func w (values xs), not (first xs == 0))
    run_all func b [] enough h = refl
    run_all func b ((a, v) ∷ xs) enough h =
        let some_a : (a == 0) ≡ false = let ne = h.3.0 in ground arith in
        rw (some_a, begin_lem m.nodes b 0 ((a, v) ∷ xs) h)
          (rw (for_each_lem func fuel m.nodes ((a, v) ∷ xs) w enough h.3) refl)

    pub dispatch_exception_lem :
        (number frame : ℕ)
        → length (items (exception number)) < fuel
        → dispatch_exception handlers fuel m w number frame
          ≡ ok (exception_answer items w number frame)
    unfolding dispatch_exception
    dispatch_exception_lem number frame enough =
        let h = holds.linked (exception number) in
        let b = m.lists (exception number) in
        let xs = items (exception number) in
        rw (empty_lem m.nodes b 0 xs h) (
          run_all (λ (w : World) (handler : ℕ). handlers.handle_exception w handler frame) b xs
            enough h)

    -- Handling an interrupt returns, with fuel for more than the handlers of its vector. For a
    -- vector below 0x20 all handlers of the exception run in order, and it counts as handled where
    -- there are any; for another the handlers of the vector are asked in order until one has
    -- handled it. Either way the controller is told of the end of the interrupt.
    pub handle_irq_lem :
        (vector frame : ℕ)
        → length (items (irq vector)) < fuel
        → length (items (exception vector)) < fuel
        → handle_irq handlers fuel m w vector frame ≡ (
            let answer =
              if ltb vector 0x20
              then exception_answer items w vector frame
              else irq_answer items w vector in
            ok (answer.0, answer.1, end_of_interrupt vector))
    unfolding handle_irq is_exception
    handle_irq_lem vector frame enough enough' = elim (Bool-cases (ltb vector 0x20)) [
      | inl low ↦ rw (low, dispatch_exception_lem vector frame enough') refl
      | inr high ↦ rw (high, dispatch_interrupt_lem vector enough) refl
    ]

  newest_first :
      (fuel : ℕ) (m : InterruptsManager) (items : Items)
      → Holds m items
      → (w : World) (vector number handler p : ℕ) (m' : InterruptsManager)
      → Holds m' (with_item items (irq vector) p handler)
      → number ≡ vector
      → length (items (irq number)) + 1 < fuel
      → dispatch_interrupt handlers fuel m' w number ≡ (
          if number == vector
          then (let (w', handled) = handlers.handle_irq w handler number in
              if handled then ok (w', true) else dispatch_interrupt handlers fuel m w' number)
          else dispatch_interrupt handlers fuel m w number)
  newest_first fuel m items holds w vector number handler p m' holds' e enough =
      let new = with_item items (irq vector) p handler in
      let same : new (irq number) ≡ (p, handler) ∷ items (irq number) =
        subst (λ v. with_item items (irq vector) p handler (irq v) ≡ (p, handler) ∷ items (irq v))
          (sym e) (with_item_self items (irq vector) p handler) in
      let t : (number == vector) ≡ true = ground arith in
      let long : length (new (irq number)) < fuel =
        subst (λ xs. length xs < fuel) (sym same) (omega arith) in
      rw (t, dispatch_interrupt_lem fuel m' new holds' w number long, same)
        (elim (Bool-cases (handlers.handle_irq w handler number).1) [
          | inl done ↦ rw done refl
          | inr more ↦
              rw
                (
                  more,
                  dispatch_interrupt_lem fuel m items holds (handlers.handle_irq w handler number).0
                      number (omega arith),
                )
                refl
        ])

  -- After a handler has been added for a vector, an interrupt of that vector reaches it first, and
  -- those before it only if it has not handled the interrupt; interrupts of other vectors are
  -- dispatched as before. The allocator answers a free address that is not null, and the fuel is
  -- more than the handlers of the vector and one.
  pub dispatch_interrupt-add_handler :
      (fuel : ℕ) (m : InterruptsManager) (items : Items)
      → Holds m items
      → (w : World) (vector number handler p : ℕ) → p ≢ 0
      → m.nodes p ≡ none
      → length (items (irq number)) + 1 < fuel
      → (add_handler m (irq vector) handler p >>= λ m'.
          dispatch_interrupt handlers fuel m' w number)
        ≡ (if number == vector
            then (let (w', handled) = handlers.handle_irq w handler number in
                if handled then ok (w', true) else dispatch_interrupt handlers fuel m w' number)
            else dispatch_interrupt handlers fuel m w number)
  dispatch_interrupt-add_handler fuel m items holds w vector number handler p some_p free enough =
      let new = with_item items (irq vector) p handler in
      let (m', made, holds') =
        Returns-ok (λ m'. Holds m' new) (add_handler m (irq vector) handler p)
          (add_handler-Holds m items holds (irq vector) p handler free some_p) in
      rw made (elim (ℕ_discrete number vector) [
        | yes e ↦ newest_first fuel m items holds w vector number handler p m' holds' e enough
        | no ne ↦
            let same : new (irq number) ≡ items (irq number) =
              with_item_ne items (irq vector) p handler (irq number) (λ e. ne (irq_injective e)) in
            let t : (number == vector) ≡ false = ground arith in
            rw (t, dispatch_interrupt_lem fuel m items holds w number (omega arith))
              (dispatch_interrupt_lem fuel m' new holds' w number
                  (subst (λ xs. length xs < fuel) (sym same) (omega arith))
                ∙ ap
                    (λ xs.
                      ok
                        (ask (λ (w : World) (h : ℕ). handlers.handle_irq w h number) w (values xs)))
                    same)
      ])
