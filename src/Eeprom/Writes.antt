-- ===== src/Eeprom/Writes.antt =====
-- `eeprom_write` with a chip on the lines.
use cortex_m3_embedded_debug.Base.{
  ℕ, zero, suc, ◌+◌, ◌*◌, ◌≤◌, ◌<◌, ◌≡◌, ◌≢◌, ◌⊎◌, refl, ap, sym, ◌∙◌, subst, true, some, List, [],
  ◌∷◌, length, get_or, u8, u32, Rc, ok, ne→==, arith,
}
use cortex_m3_embedded_debug.Base.Exec.{Void, Outcome, value, returned}
use cortex_m3_embedded_debug.I2cLine.{Pins, Mps2I2cBus}
use cortex_m3_embedded_debug.I2cTarget.{Wires}
use cortex_m3_embedded_debug.I2cTarget.Slave.{Device, Shift}
use cortex_m3_embedded_debug.Mps2I2c.{bus_valid, messages_valid, mps2_i2c_transfer}
use cortex_m3_embedded_debug.Mps2I2c.Talk.{Talk, talk}
use cortex_m3_embedded_debug.Mps2I2c.Rest.{idle, at_rest, on_lines}
use cortex_m3_embedded_debug.Mps2I2c.Conversation.{IsRequest, pins, finished, transfer_refines}
use cortex_m3_embedded_debug.Eeprom.{
  EepromDevice, build_memory_address, eeprom_write, write_page, wrote, err_transfer, err_not_ready,
  max_payload_size, eeprom_wait_ready,
}
use cortex_m3_embedded_debug.Eeprom.Wait.{after_probes, ready, never, wait_ready_ends}
use cortex_m3_embedded_debug.Eeprom.Cycle.{WriteCycle}
use cortex_m3_embedded_debug.Eeprom.Chip.{Chip}
use cortex_m3_embedded_debug.Eeprom.Range.{
  IsWrite, IsFitting, IsFitting-IsWrite, validate_range-Addressed,
}
use cortex_m3_embedded_debug.Eeprom.Guards.{write_accepted}
use cortex_m3_embedded_debug.Eeprom.Buffer.{
  Addressed-width, build_memory_address_lem, Says, sent_buffer, sent_buffer-Says, programmed-at,
  programmed-outside,
}
use cortex_m3_embedded_debug.Eeprom.Sent.{write_message, called_cells, Took, Sent, talk-Sent}

module _ (V : Device) (bus : Mps2I2cBus) (quick : (e : V.E) → V.holds e < bus.timeout_cycles)
    (bytes : (e : V.E) → V.offer e < 256) (valid : bus_valid bus ≡ true) (device : EepromDevice)
    (small : device.target_addr < 127)
    (C : Chip V device.target_addr device.address_width device.page_size)
    (K : WriteCycle V device.target_addr device.address_width device.page_size C) where
  open V use {E}
  open C use {cells, got}

  abbrev lines : Pins
  lines = pins V bus quick bytes

  -- outside of the `len` cells from `at` on nothing has changed
  abbrev pub Untouched : ℕ → ℕ → E → E → Type 0
  Untouched at len e e' = (a : ℕ) → (a < at) ⊎ (at + len ≤ a) → cells e' a ≡ cells e a

  -- the payload stands in the cells from `at` on
  abbrev pub Stored : ℕ → List ℕ → ℕ → E → Type 0
  Stored at payload len e' = (i : ℕ) → i < len → cells e' (at + i) ≡ u8 (get_or payload i 0)

  -- What a write ends with. The lines are free.
  pub data Written (at : ℕ) (payload : List ℕ) (len : ℕ) (e : E) (out : Rc × Wires (Shift V))
      : Type 0 where
    stored :
        (e' : E)
        → out ≡ (ok, at_rest V idle e')
        → K.awake e' ≡ true
        → ((i : ℕ) → i < len → K.memory e' (at + i) ≡ u8 (get_or payload i 0))
        → ((a : ℕ) → (a < at) ⊎ (at + len ≤ a) → K.memory e' a ≡ cells e a)
        → Written at payload len e out
    unready :
        (e' : E)
        → out ≡ (err_not_ready, at_rest V idle e')
        → Stored at payload len e'
        → Untouched at len e e'
        → Written at payload len e out
    failed :
        (e' : E)
        → out ≡ (err_transfer, at_rest V idle e')
        → Untouched at len e e'
        → Written at payload len e out

  -- The next probe comes behind those before.
  after_probes-suc :
      (t : device.target_addr < 128) (n : ℕ) (e : E)
      → after_probes V bus quick bytes valid device.target_addr t (suc n) e
        ≡ V.stopped
            (V.address
              (device.target_addr * 2)
              (after_probes V bus quick bytes valid device.target_addr t n e)).1
  unfolding after_probes
  after_probes-suc t zero e = refl
  after_probes-suc t (suc n) e =
      after_probes-suc t n (V.stopped (V.address (device.target_addr * 2) e).1)

  after_probes_cells :
      (t : device.target_addr < 128) (n : ℕ) (e : E)
      → cells (after_probes V bus quick bytes valid device.target_addr t n e) ≡ cells e
  unfolding after_probes
  after_probes_cells t zero e = refl
  after_probes_cells t (suc n) e =
      after_probes_cells t n (V.stopped (V.address (device.target_addr * 2) e).1)
      ∙ called_cells V device.target_addr device.address_width device.page_size C
          (device.target_addr * 2) e

  module _ (at : ℕ) (payload : List ℕ) (len : ℕ) (stack : List ℕ) (fits : IsFitting device at len)
      (room : 2 + len ≤ length stack) (short : len ≤ max_payload_size)
      (polls : device.ready_poll_limit ≢ 0) where
    here : IsWrite device at len
    here = IsFitting-IsWrite device at len fits

    abbrev buf : List ℕ
    buf = sent_buffer device at payload len stack

    says : Says device.address_width at payload len buf
    says =
        sent_buffer-Says device at payload len stack
          (validate_range-Addressed device at len here.in_range) room

    abbrev total : ℕ
    total = device.address_width + len

    Took-Untouched :
        (k : ℕ) (e e' : E)
        → k ≤ total
        → Took V device.target_addr device.address_width device.page_size C k buf e e'
        → Untouched at len e e'
    Took-Untouched k e e' le same a out =
        ap (λ (c : ℕ → ℕ). c a) same
        ∙ programmed-outside device.address_width at payload len buf says device.page_size
            here.in_page (cells e) k a le out

    Took-Stored :
        (e e' : E)
        → Took V device.target_addr device.address_width device.page_size C total buf e e'
        → Stored at payload len e'
    Took-Stored e e' same i lt =
        ap (λ (c : ℕ → ℕ). c (at + i)) same
        ∙ programmed-at device.address_width at payload len buf says device.page_size here.in_page
            (cells e) i lt

    -- the wait behind a write that is in the cells
    waited-Written :
        (e e' : E)
        → Stored at payload len e'
        → Untouched at len e e'
        → Written at payload len e (eeprom_wait_ready lines bus (some device) (at_rest V idle e'))
    waited-Written e e' put kept =
        elim (wait_ready_ends V bus quick bytes valid device.target_addr below device e'
          here.some_bus refl polls) [
            | ready k lt ack before same ↦ then_stored (suc k) same (
                ap (λ (d : E). K.awake d) (after_probes-suc below k e')
                ∙ K.probe_awake (after_probes V bus quick bytes valid device.target_addr below k e')
                    ack)
            | never before same ↦
                let kept_cells = after_probes_cells below device.ready_poll_limit e' in
                unready _ same (λ i lt. ap (λ (c : ℕ → ℕ). c (at + i)) kept_cells ∙ put i lt)
                  (λ a out. ap (λ (c : ℕ → ℕ). c a) kept_cells ∙ kept a out)
          ]
      where
        below : device.target_addr < 128
        below = omega arith

        then_stored :
            (n : ℕ)
            → eeprom_wait_ready lines bus (some device) (at_rest V idle e') ≡ (
              ok,
              at_rest V idle (after_probes V bus quick bytes valid device.target_addr below n e'),
            )
            → K.awake (after_probes V bus quick bytes valid device.target_addr below n e') ≡ true
            → Written at payload len e
                (eeprom_wait_ready lines bus (some device) (at_rest V idle e'))
        then_stored n same up =
            let last = after_probes V bus quick bytes valid device.target_addr below n e' in
            let now = K.settled last up ∙ after_probes_cells below n e' in
            stored last same up (λ i lt. ap (λ (c : ℕ → ℕ). c (at + i)) now ∙ put i lt)
              (λ a out. ap (λ (c : ℕ → ℕ). c a) now ∙ kept a out)

    Sent-Written :
        (e : E) (o : Outcome Void × Talk E)
        → Sent V device.target_addr device.address_width device.page_size C total buf e o
        → Written at payload len e (wrote lines bus device (finished V bus quick bytes idle o))
    unfolding wrote
    Sent-Written e (value v, y) same =
        waited-Written e y.dev (Took-Stored e y.dev same)
          (Took-Untouched total e y.dev (omega arith) same)
    Sent-Written e (returned rc, y) (bad, (k, (le, same))) =
        rw bad (failed y.dev refl (Took-Untouched k e y.dev le same))

    width_lem : (device.address_width ≤ 2) × (0 < device.address_width)
    width_lem = Addressed-width device at (validate_range-Addressed device at len here.in_range)

    address_bytes : (build_memory_address device at stack).1 ≡ device.address_width
    address_bytes =
        build_memory_address_lem device at stack
          (validate_range-Addressed device at len here.in_range)

    request : IsRequest bus (write_message total ∷ []) device.target_addr
    unfolding messages_valid
    request = record {
      usable_bus = valid;
      some_message = λ same. absurd (omega arith);
      some_address = λ same. absurd (omega arith);
      usable_messages =
          let filled : total ≢ 0 = λ none. absurd (omega (arith, width_lem)) in
          rw (ne→== total 0 filled) refl;
    }

    -- eeprom_write of at most 32 bytes that lie in the chip and in one page, with a usable bus and
    -- device and at least one poll, into a tx_buffer with room for them and the address, from free
    -- lines with a chip that meets the documents: the lines are free again. After EEPROM_OK the write
    -- cycle is over, the memory holds the payload in its cells and what the chip had in every other
    -- one. The other statuses are EEPROM_ERR_NOT_READY, where the chip has taken the payload for its
    -- cells and nothing for any other, and EEPROM_ERR_TRANSFER, where it has taken nothing for a cell
    -- outside of those of the payload.
    pub write_lem :
        (e : E)
        → Written at payload len e
            (eeprom_write lines bus (some device) at (some payload) len stack (at_rest V idle e))
    unfolding write_page
    write_lem e =
        let start : Talk E = record { dev = e; bufs = buf ∷ [] } in
        let size : u32 ((build_memory_address device at stack).1 + len) ≡ total =
          omega (arith, address_bytes, width_lem) in
        subst (λ o. Written at payload len e o)
          (sym (
            write_accepted lines bus device at payload len stack (at_rest V idle e) here
            ∙ ap
                (λ (n : ℕ). wrote lines bus device (
                  mps2_i2c_transfer lines bus (some (write_message n ∷ [])) device.target_addr
                    (on_lines V idle start)))
                size
            ∙ ap (λ o. wrote lines bus device o)
                (transfer_refines V bus quick bytes (write_message total ∷ []) device.target_addr
                  idle start request)))
          (Sent-Written e (talk V device.target_addr (write_message total ∷ []) 0 start)
            (talk-Sent V device.target_addr device.address_width device.page_size C total buf e))
