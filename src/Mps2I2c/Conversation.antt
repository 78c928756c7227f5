-- ===== src/Mps2I2c/Conversation.antt =====
-- `mps2_i2c_transfer` and `mps2_i2c_probe` as conversations with the device.
use cortex_m3_embedded_debug.Base.{
  ℕ, zero, suc, ◌*◌, ◌<◌, ◌≡◌, ◌≢◌, refl, ap, ◌∙◌, Bool, true, false, not, ◌||◌, ◌==◌, ◌!=◌, ltb,
  Option, none, some, List, [], ◌∷◌, length, if◌then◌else◌, Rc, ok, ne→==, bit_and, not32, arith,
}
use cortex_m3_embedded_debug.Base.Exec.{Void, Outcome, continue, result, on_error_of, ignored}
use cortex_m3_embedded_debug.I2cLine.{Pins, Mps2I2cBus, generate_stop, i2c_err_nack}
use cortex_m3_embedded_debug.I2cTarget.{Wires, open_drain}
use cortex_m3_embedded_debug.I2cTarget.Slave.{Device, Shift, slave}
use cortex_m3_embedded_debug.I2cTarget.Bytes.{write_result}
use cortex_m3_embedded_debug.Mps2I2c.{
  Mps2I2cMsg, Transfer, allowed, bus_valid, messages_valid, all_messages, mps2_i2c_transfer,
  mps2_i2c_probe, probe_address,
}
use cortex_m3_embedded_debug.Mps2I2c.Talk.{Talk, talk, address_byte}
use cortex_m3_embedded_debug.Mps2I2c.Rest.{
  Rest, idle, at_rest, on_lines, concluded, rest_of_all, AllFilled,
}
use cortex_m3_embedded_debug.Mps2I2c.Refine.{all-at, start-at, stop-at, send-at}

-- the messages pass the checks before a transfer
pub record IsRequest (bus : Mps2I2cBus) (ms : List Mps2I2cMsg) (target_addr : ℕ) : Type 0 where
  pub usable_bus : bus_valid bus ≡ true
  pub some_message : length ms ≢ 0
  pub some_address : target_addr ≢ 0x7f
  pub usable_messages : messages_valid none ms ≡ true

filled :
    (len flags : ℕ) (b : Bool)
    → (not b || ((len == 0) || (bit_and flags (not32 allowed) != 0))) ≡ false
    → 0 < len
filled zero flags true h = absurd (ground arith)
filled (suc n) flags true h = omega arith
filled n flags false h = absurd (ground arith)

checked : (g rest : Bool) → (if g then false else rest) ≡ true → (g ≡ false) × (rest ≡ true)
checked true rest h = absurd (ground arith)
checked false rest h = (refl, h)

messages_valid-AllFilled :
    (before : Option ℕ) (ms : List Mps2I2cMsg) → messages_valid before ms ≡ true → AllFilled ms
unfolding messages_valid
messages_valid-AllFilled before [] h = tt
messages_valid-AllFilled none (m ∷ ms) h =
    let (good, rest) = checked _ _ h in
    (filled m.len m.flags m.has_buf good, messages_valid-AllFilled (some m.flags) ms rest)
messages_valid-AllFilled (some f) (m ∷ ms) h =
    let (good, joined) = checked _ _ h in
    let (together, rest) = checked _ _ joined in
    (filled m.len m.flags m.has_buf good, messages_valid-AllFilled (some m.flags) ms rest)

module _ (P : Pins) (bus : Mps2I2cBus) where
  transfer_accepted :
      (ms : List Mps2I2cMsg) (target_addr : ℕ) (x : Transfer P.W)
      → IsRequest bus ms target_addr
      → mps2_i2c_transfer P bus (some ms) target_addr x
        ≡ result (all_messages P bus target_addr ms 0 false x)
  unfolding mps2_i2c_transfer
  transfer_accepted ms target_addr x r =
      rw
        (
          r.usable_bus,
          ne→== (length ms) 0 r.some_message,
          ne→== target_addr 0x7f r.some_address,
          r.usable_messages,
        )
        refl

module _ (V : Device) (bus : Mps2I2cBus) (quick : (e : V.E) → V.holds e < bus.timeout_cycles)
    (bytes : (e : V.E) → V.offer e < 256) where
  open V use {E, address, stopped}

  abbrev pub pins : Pins
  pins = open_drain (slave V)

  -- The result of a conversation on the lines: they are free after an error, and else as said.
  abbrev pub finished : Rest → Outcome Void × Talk E → Rc × Transfer (Wires (Shift V))
  finished r o = result (concluded V r idle o)

  -- mps2_i2c_transfer on open-drain lines, with a device that deals in bytes behind the shift register
  -- of a target and holds SCL for less than the timeout. From lines at rest, a transfer that passes
  -- the checks has the result of the conversation with the device: the same status, the same bytes
  -- in the buffers and the same device. The lines are free after an error and after a last message
  -- with the STOP flag.
  pub transfer_refines :
      (ms : List Mps2I2cMsg) (target_addr : ℕ) (r : Rest) (x : Talk E)
      → IsRequest bus ms target_addr
      → mps2_i2c_transfer pins bus (some ms) target_addr (on_lines V r x)
        ≡ finished (rest_of_all V r ms) (talk V target_addr ms 0 x)
  transfer_refines ms target_addr r x req =
      transfer_accepted pins bus ms target_addr (on_lines V r x) req
      ∙ ap result (
          all-at V bus quick bytes target_addr ms 0 false r x
            (messages_valid-AllFilled none ms req.usable_messages))

  -- the answer of the device to its address, and then the STOP
  abbrev pub probed : Bool × E → Rc × Wires (Shift V)
  probed (true, e) = (ok, at_rest V idle (stopped e))
  probed (false, e) = (i2c_err_nack, at_rest V idle (stopped e))

  -- mps2_i2c_probe on the same lines calls the device by its address for writing and frees the
  -- lines; the status is the answer of the device.
  pub probe_answers :
      (target_addr : ℕ) (r : Rest) (e : E)
      → bus_valid bus ≡ true
      → target_addr < 128
      → mps2_i2c_probe pins bus target_addr (at_rest V r e) ≡ probed (address (target_addr * 2) e)
  unfolding mps2_i2c_probe probe_address
  probe_answers target_addr r e valid h =
      let byte : address_byte V target_addr false ≡ target_addr * 2 = omega arith in
      let small : ltb 0x7f target_addr ≡ false = ground arith in
      rw (valid, small, start-at V bus quick bytes r e)
        (ap
            (λ o. result (
              continue (on_error_of o (ignored (generate_stop pins bus)))
                (λ _. generate_stop pins bus)))
            (send-at V bus quick bytes target_addr false e)
          ∙ ended (address (address_byte V target_addr false) e)
          ∙ ap (λ (b : ℕ). probed (address b e)) byte)
    where
      ended :
          (a : Bool × E)
          → result (
              continue
                (on_error_of (write_result V bus quick false a) (ignored (generate_stop pins bus)))
                (λ _. generate_stop pins bus))
            ≡ probed a
      ended (true, e') = rw (stop-at V bus quick bytes false e') refl
      ended (false, e') = rw (stop-at V bus quick bytes true e') refl
