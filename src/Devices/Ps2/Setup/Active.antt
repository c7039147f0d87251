-- ===== src/Devices/Ps2/Setup/Active.antt =====
-- Which driver gets a line, and which interrupts are enabled for it.
use bolgenos_ng.Base.{
  ℕ, ◌+◌, ◌≤◌, ◌<◌, ◌≡◌, refl, ◌∙◌, ap, Bool, true, false, not, ◌&&◌, ◌||◌, List, [], ◌∷◌, ◌++◌,
  inl, inr, arith, ltb, ◌==◌, if◌then◌else◌, length, Bool-cases, ltb→lt, length-append,
}
use bolgenos_ng.Memory.Machine.{ok, panicked}
use bolgenos_ng.Devices.Ports.{Ports}
use bolgenos_ng.Devices.Ps2.Conf.{Conf, Bits, int_first, int_second, is}
use bolgenos_ng.Devices.Ps2.Controller.{LineConfiguration}
use bolgenos_ng.Devices.Ps2.Setup.{
  Controller, max_registered_devices, register_driver, Drivers, set_active, probe_from, probe_line,
}

-- A driver that is registered is known from then on, after those before it, until ten are known.
pub register_driver_lem :
    (c : Controller) (dev : ℕ)
    → length c.known_devices ≤ max_registered_devices
    → (length (register_driver c dev).known_devices ≤ max_registered_devices)
      × ((length c.known_devices < max_registered_devices)
          → (register_driver c dev).known_devices ≡ c.known_devices ++ dev ∷ [])
      × ((length c.known_devices ≡ max_registered_devices) → register_driver c dev ≡ c)
unfolding register_driver
register_driver_lem c dev few = (
  elim (Bool-cases (ltb (length c.known_devices) max_registered_devices)) [
    | inl e ↦ rw e (omega (arith, length-append {0} c.known_devices (dev ∷ []), ltb→lt _ _ e))
    | inr e ↦ rw e few
  ],
  (λ less.
      let t : ltb (length c.known_devices) max_registered_devices ≡ true = ground arith in
      rw t refl),
  (λ full.
      let t : ltb (length c.known_devices) max_registered_devices ≡ false = ground arith in
      rw t refl),
)

module _ {World : Type 0} (ports : Ports World) (drivers : Drivers World)
    (line : LineConfiguration) where
  -- The drivers, asked in order from the world `w`, give the answers and leave the world `w'`.
  abbrev pub Answers : (devices : List ℕ) → World → List Bool → World → Type 0
  Answers [] w [] w' = w ≡ w'
  Answers [] w (b ∷ bs) w' = ⊥
  Answers (d ∷ ds) w [] w' = ⊥
  Answers (d ∷ ds) w (b ∷ bs) w' =
      (w1 : World) × (drivers.probe d line w ≡ ok (w1, b)) × Answers ds w1 bs w'

  abbrev pub found : List Bool → ℕ
  found [] = 0
  found (b ∷ bs) = (if b then 1 else 0) + found bs

  -- The last device whose driver has answered yes.
  abbrev pub last_found : List ℕ → List Bool → ℕ → ℕ
  last_found [] bs dev = dev
  last_found (d ∷ ds) [] dev = dev
  last_found (d ∷ ds) (b ∷ bs) dev = last_found ds bs (if b then d else dev)

  probe_from_lem :
      (ds : List ℕ) (bs : List Bool) (w w' : World) (dev count : ℕ)
      → Answers ds w bs w'
      → probe_from ports drivers ds line dev count w
        ≡ ok (w', (last_found ds bs dev, count + found bs))
  unfolding probe_from
  probe_from_lem [] [] w w' dev count e =
      ap (λ (u : World). ok (u, (dev, count))) e ∙ ap (λ (n : ℕ). ok (w', (dev, n))) (omega arith)
  probe_from_lem [] (b ∷ bs) w w' dev count e = absurd e
  probe_from_lem (d ∷ ds) [] w w' dev count e = absurd e
  probe_from_lem (d ∷ ds) (b ∷ bs) w w' dev count (w1, asked, rest) =
      let n : ℕ = if b then count + 1 else count in
      let next : ℕ = if b then d else dev in
      let sum : n + found bs ≡ count + ((if b then 1 else 0) + found bs) = ground arith in
      rw asked (
        probe_from_lem ds bs w1 w' next n rest
        ∙ ap (λ (k : ℕ). ok (w', (last_found ds bs next, k))) sum)

  -- Where the registered drivers, asked in order, give some answers, probing a line makes the one
  -- that has found its device the active one of the line, or none where none has; more than one
  -- makes the kernel panic.
  pub probe_line_lem :
      (c : Controller) (bs : List Bool) (w w' : World)
      → Answers c.known_devices w bs w'
      → probe_line ports drivers c line w ≡ (
          if ltb 1 (found bs)
          then panicked
          else ok (w', set_active c line.id (last_found c.known_devices bs 0)))
  unfolding probe_line
  probe_line_lem c bs w w' answers =
      let run : probe_from ports drivers c.known_devices line 0 0 w
          ≡ ok (w', (last_found c.known_devices bs 0, found bs)) =
        probe_from_lem c.known_devices bs w w' 0 0 answers
        ∙ ap (λ (k : ℕ). ok (w', (last_found c.known_devices bs 0, k))) (omega arith) in
      rw run (elim (Bool-cases (ltb 1 (found bs))) [ inl e ↦ rw e refl | inr e ↦ rw e refl ])

module _ {World : Type 0} (ports : Ports World) (drivers : Drivers World) where
  abbrev pub wanted : (active_1 active_2 : ℕ) → Bits → Bool
  wanted active_1 active_2 b =
      (is int_first b && not (active_1 == 0)) || (is int_second b && not (active_2 == 0))
