-- ===== src/Devices/Ps2/Controller/Waiting.antt =====
-- `wait_for_flag` of controller.cpp against the rounds that it makes.
use bolgenos_ng.Base.{
  ap, ℕ, zero, suc, ◌≤◌, ◌<◌, ◌≡◌, refl, sym, ◌∙◌, subst, bit_and, Bool, true, false, not, none,
  some, arith, ◌⊎◌, inl, inr, ℕ_discrete, ◌==◌, if◌then◌else◌,
}
use bolgenos_ng.Memory.Machine.{ok}
use bolgenos_ng.Devices.Ports.{Ports, Io, ◌>>◌, pure, sleep_ms}
use bolgenos_ng.Devices.Ps2.Controller.{
  status_port, data_port, out_buf_status, status, receive_byte, wait_for_flag, wait_for_input,
  receive, reached,
}

module _ {World : Type 0} (ports : Ports World) where
  abbrev pub poll : World → World × ℕ
  poll w = ports.inb w status_port

  -- The world after some rounds, each a look at the status and a millisecond of sleep.
  abbrev pub after : (rounds : ℕ) → World → World
  after zero w = w
  after (suc rounds) w = after rounds (ports.sleep_ms (poll w).0 1)

  -- The flag that a look at the status shows.
  abbrev pub shows : (flag : ℕ) → World → Bool
  shows flag w = not (bit_and (poll w).1 flag == 0)

  settled : (val seen : Bool) → seen ≡ val → reached val seen ≡ true
  unfolding reached
  settled true seen h = h
  settled false seen h = rw h refl

  unsettled : (val seen : Bool) → seen ≡ not val → reached val seen ≡ false
  unfolding reached
  unsettled true seen h = h
  unsettled false seen h = rw h refl

  -- The two ways out of a round.
  round_ends :
      (flag : ℕ) (val : Bool) (left : ℕ) (w : World)
      → reached val (shows flag w) ≡ true
      → wait_for_flag ports flag val (suc left) w ≡ ok ((poll w).0, shows flag w)
  unfolding wait_for_flag status
  round_ends flag val left w e =
      ap
        (λ (b : Bool).
          elim b as (λ c. Io World Bool) [
            | true ↦ pure (shows flag w)
            | false ↦ do sleep_ms ports 1; wait_for_flag ports flag val left
          ]
            (poll w).0)
        e

  round_goes_on :
      (flag : ℕ) (val : Bool) (left : ℕ) (w : World)
      → reached val (shows flag w) ≡ false
      → wait_for_flag ports flag val (suc left) w
        ≡ wait_for_flag ports flag val left (ports.sleep_ms (poll w).0 1)
  unfolding wait_for_flag status
  round_goes_on flag val left w e =
      ap
        (λ (b : Bool).
          elim b as (λ c. Io World Bool) [
            | true ↦ pure (shows flag w)
            | false ↦ do sleep_ms ports 1; wait_for_flag ports flag val left
          ]
            (poll w).0)
        e

  wait_first :
      (flag : ℕ) (val : Bool) (left k : ℕ) (w : World)
      → k ≤ left
      → ((j : ℕ) → j < k → shows flag (after j w) ≡ not val)
      → shows flag (after k w) ≡ val
      → wait_for_flag ports flag val left w ≡ ok ((poll (after k w)).0, val)
  unfolding wait_for_flag status
  wait_first flag val zero zero w le before now = rw now refl
  wait_first flag val zero (suc k) w le before now = absurd (omega arith)
  wait_first flag val (suc left) zero w le before now =
      round_ends flag val left w (settled val (shows flag w) now) ∙ ap (λ b. ok ((poll w).0, b)) now
  wait_first flag val (suc left) (suc k) w le before now =
      round_goes_on flag val left w (unsettled val (shows flag w) (before 0 (omega arith)))
      ∙ (wait_first flag val left k (ports.sleep_ms (poll w).0 1) (omega arith)
          (λ j less. before (suc j) (omega arith)) now)

  wait_timeout :
      (flag : ℕ) (val : Bool) (left : ℕ) (w : World)
      → ((j : ℕ) → j ≤ left → shows flag (after j w) ≡ not val)
      → wait_for_flag ports flag val left w ≡ ok ((poll (after left w)).0, not val)
  unfolding wait_for_flag status
  wait_timeout flag val zero w never = rw (never 0 (omega arith)) refl
  wait_timeout flag val (suc left) w never =
      round_goes_on flag val left w (unsettled val (shows flag w) (never 0 (omega arith)))
      ∙ (wait_timeout flag val left (ports.sleep_ms (poll w).0 1)
          (λ j le. never (suc j) (omega arith)))

  -- `receive` looks at the status and sleeps a millisecond in turn: where the first look that shows
  -- a byte is one of those within the timeout, it reads the byte after that look; where none of
  -- them shows one, it answers that there is none after the last.
  pub receive_lem :
      (ms k : ℕ) (w : World) (ready : Bool)
      → k ≤ ms
      → ((j : ℕ) → j < k → shows out_buf_status (after j w) ≡ false)
      → shows out_buf_status (after k w) ≡ ready
      → (ready ≡ true) ⊎ (k ≡ ms)
      → receive ports ms w ≡ (
          let w' = (poll (after k w)).0 in
          if ready
          then ok ((ports.inb w' data_port).0, some (ports.inb w' data_port).1)
          else ok (w', none))
  unfolding receive wait_for_input receive_byte
  receive_lem ms k w true le before now last =
      rw (wait_first out_buf_status true ms k w le before now) refl
  receive_lem ms k w false le before now (inl e) = absurd (cc)
  receive_lem ms k w false le before now (inr e) =
      rw
        (
          wait_timeout out_buf_status true ms w λ j j_le. elim (ℕ_discrete j ms) [
            | yes same ↦
                subst (λ i. shows out_buf_status (after i w) ≡ false) (sym (same ∙ sym e)) now
            | no ne ↦ before j (omega arith)
          ],
          sym e,
        )
        refl
