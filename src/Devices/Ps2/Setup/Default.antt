-- ===== src/Devices/Ps2/Setup/Default.antt =====
-- kernel/devices/ps2/src/ps2_keyboard.cpp: the driver of the keyboard, PS2DefaultKeyboard.
use bolgenos_ng.Base.{
  ℕ, ◌≡◌, ◌∙◌, ap, subst, inl, inr, Bool-cases, ==_iff, Bool, true, false, not, Option, none, some,
  List, [], ◌∷◌, ◌==◌, if◌then◌else◌,
}
use bolgenos_ng.Memory.Machine.{ok, bind-ok, ok-injective}
use bolgenos_ng.Devices.Ports.{Ports, Io, ◌>>=◌, ◌>>◌, pure, lift}
use bolgenos_ng.Devices.Ps2.Controller.{
  LineConfiguration, is_ok_code, clean_buffer, receive, receive_byte,
}
use bolgenos_ng.Devices.Ps2.Line
use bolgenos_ng.Devices.Ps2.Keyboard.{Keyboard, handle_byte}

abbrev pub keyboard_ack : ℕ
keyboard_ack = 0xfa

abbrev pub this_dev_id : List ℕ
this_dev_id = 0xab ∷ 0x83 ∷ []

module _ {World : Type 0} (ports : Ports World) where
  -- The loop over the bytes of the device's id, with those that are still to come.
  unfoldable pub accept : Option ℕ → (id : ℕ) → (rest : Io World Bool) → Io World Bool
  accept none id rest = pure false
  accept (some reply) id rest = if reply == id then rest else pure false

  unfoldable pub read_id : (expected : List ℕ) → Io World Bool
  read_id [] = pure true
  read_id (id ∷ expected) = do answer ← receive ports 5; accept answer id (read_id expected)

  unfoldable pub probe : (fuel : ℕ) → LineConfiguration → Io World Bool
  probe fuel line = do
    clean_buffer ports fuel
    ret ← Line.send_ack ports line 0xf5 keyboard_ack
    if not (is_ok_code ret) then pure false else do
      ret' ← Line.send_ack ports line 0xf2 keyboard_ack
      if not (is_ok_code ret') then pure false else do
        passed ← read_id this_dev_id
        if not passed
            then pure false
            else do dropped ← Line.send_ack ports line 0xf4 keyboard_ack; pure true

  -- The handler's status is always `HANDLED`.
  unfoldable pub handle_irq : (fuel : ℕ) → Keyboard → Io World (Keyboard × Bool)
  handle_irq fuel kb = do
    byte ← receive_byte ports
    kb' ← lift (handle_byte fuel kb byte)
    pure (kb', true)

  accepted :
      (answer : Option ℕ) (id : ℕ) (rest : Io World Bool) (w w' : World)
      → accept answer id rest w ≡ ok (w', true)
      → (answer ≡ some id) × (rest w ≡ ok (w', true))
  unfolding accept
  accepted none id rest w w' e =
      let no : false ≡ true = ap (λ (r : World × Bool). r.1) (ok-injective _ _ e) in absurd (cc)
  accepted (some reply) id rest w w' e = elim (Bool-cases (reply == id)) [
    | inl same ↦ (
      ap some ((==_iff reply id).0 same),
      subst (λ b. (if b then rest else pure false) w ≡ ok (w', true)) same e,
    )
    | inr differ ↦
        let e' = subst (λ b. (if b then rest else pure false) w ≡ ok (w', true)) differ e in
        let no : false ≡ true = ap (λ (r : World × Bool). r.1) (ok-injective (w, false) _ e') in
        absurd (cc)
  ]

  read_one :
      (id : ℕ) (expected : List ℕ) (w w' : World)
      → read_id (id ∷ expected) w ≡ ok (w', true)
      → (w1 : World) × (receive ports 5 w ≡ ok (w1, some id))
        × (read_id expected w1 ≡ ok (w', true))
  unfolding read_id
  read_one id expected w w' e =
      let (r, got, e1) =
        bind-ok (receive ports 5 w) (λ (r : World × Option ℕ). accept r.1 id (read_id expected) r.0)
          (w', true) e in
      let (same, rest) = accepted r.1 id (read_id expected) r.0 w' e1 in
      (r.0, got ∙ ap (λ (o : Option ℕ). ok (r.0, o)) same, rest)

  -- A keyboard is found only by both bytes of its number.
  pub read_id-true :
      (w w' : World)
      → read_id this_dev_id w ≡ ok (w', true)
      → (w1 : World) × (receive ports 5 w ≡ ok (w1, some 0xab))
        × (receive ports 5 w1 ≡ ok (w', some 0x83))
  unfolding read_id
  read_id-true w w' e =
      let (w1, got, e1) = read_one 0xab (0x83 ∷ []) w w' e in
      let (w2, got', e2) = read_one 0x83 [] w1 w' e1 in
      let at : w2 ≡ w' = ap (λ (r : World × Bool). r.0) (ok-injective _ _ e2) in
      (w1, got, got' ∙ ap (λ (u : World). ok (u, some 0x83)) at)
