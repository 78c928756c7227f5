-- ===== src/Eeprom/Reads.antt =====
-- `eeprom_read` with a chip on the lines.
use cortex_m3_embedded_debug.Base.{
  ℕ, ◌+◌, ◌≤◌, ◌<◌, ◌≡◌, ◌≢◌, refl, ap, sym, ◌∙◌, subst, true, some, List, [], ◌∷◌, length, get_or,
  u8, Rc, ok, is_ok, ne→==, arith,
}
use cortex_m3_embedded_debug.Base.Exec.{Void, Outcome, value, returned}
use cortex_m3_embedded_debug.I2cLine.{Pins, Mps2I2cBus}
use cortex_m3_embedded_debug.I2cTarget.{Wires}
use cortex_m3_embedded_debug.I2cTarget.Slave.{Device, Shift}
use cortex_m3_embedded_debug.Mps2I2c.{bus_valid, messages_valid, mps2_i2c_transfer}
use cortex_m3_embedded_debug.Mps2I2c.Talk.{Talk, talk}
use cortex_m3_embedded_debug.Mps2I2c.Rest.{idle, at_rest}
use cortex_m3_embedded_debug.Mps2I2c.Conversation.{IsRequest, pins, finished, transfer_refines}
use cortex_m3_embedded_debug.Eeprom.{
  EepromDevice, build_memory_address, append_data, validate_range, eeprom_read, read_done,
  err_transfer,
}
use cortex_m3_embedded_debug.Eeprom.Cycle.{WriteCycle, Succeeds, talk-Succeeds}
use cortex_m3_embedded_debug.Eeprom.Chip.{Chip, pointer}
use cortex_m3_embedded_debug.Eeprom.Got.{bytes_from}
use cortex_m3_embedded_debug.Eeprom.Range.{validate_range-Addressed}
use cortex_m3_embedded_debug.Eeprom.Buffer.{
  Says, Addressed-width, build_memory_address_lem, sent_buffer-Says,
}
use cortex_m3_embedded_debug.Eeprom.Fetched.{
  with_cells, with_cells-at, read_messages, Fetched, talk-Fetched,
}

-- a read that passes the checks
pub record IsRead (device : EepromDevice) (at len : ℕ) : Type 0 where
  pub some_bus : device.has_bus ≡ true
  pub some_bytes : len ≢ 0
  pub in_range : is_ok (validate_range device at len) ≡ true

module _ (V : Device) (bus : Mps2I2cBus) (quick : (e : V.E) → V.holds e < bus.timeout_cycles)
    (bytes : (e : V.E) → V.offer e < 256) (valid : bus_valid bus ≡ true) (device : EepromDevice)
    (small : device.target_addr < 127)
    (C : Chip V device.target_addr device.address_width device.page_size) where
  open V use {E}
  open C use {cells}

  abbrev lines : Pins
  lines = pins V bus quick bytes

  abbrev pub Answer : Type 0
  Answer = Rc × List ℕ × Wires (Shift V)

  -- What a read ends with. The lines are free, and no cell has changed.
  pub data Fetch (at : ℕ) (payload : List ℕ) (len : ℕ) (e : E) (out : Answer) : Type 0 where
    fetched :
        (buf : List ℕ) (e' : E)
        → out ≡ (ok, buf, at_rest V idle e')
        → ((i : ℕ) → i < len → get_or buf i 0 ≡ u8 (cells e (at + i)))
        → cells e' ≡ cells e
        → Fetch at payload len e out
    failed :
        (e' : E)
        → out ≡ (err_transfer, payload, at_rest V idle e')
        → cells e' ≡ cells e
        → Fetch at payload len e out

  module _ (at : ℕ) (payload : List ℕ) (len : ℕ) (stack : List ℕ) (here : IsRead device at len)
      (address_room : 2 ≤ length stack) (room : len ≤ length payload) where
    abbrev abuf : List ℕ
    abuf = (build_memory_address device at stack).0

    below : device.target_addr < 128
    below = omega arith

    pointed : pointer device.address_width (bytes_from device.address_width 0 abuf) ≡ at
    unfolding append_data
    pointed =
        let says : Says device.address_width at [] 0 abuf =
          sent_buffer-Says device at [] 0 stack
            (validate_range-Addressed device at len here.in_range) (omega arith) in
        says.pointed device.address_width (omega arith)

    answered :
        (e : E) (o : Outcome Void × Talk E)
        → Fetched V device.target_addr device.address_width device.page_size C below e abuf payload
            at len pointed o
        → Fetch at payload len e (read_done lines bus (finished V bus quick bytes idle o))
    unfolding read_done
    answered e (value v, y) (c, b) =
        fetched (with_cells (cells e) at len 0 payload) y.dev
          (ap (λ (l : List ℕ). (ok, l, at_rest V idle y.dev)) b)
          (λ i lt.
            let start : 0 + i ≡ i = omega arith in
            ap (λ (j : ℕ). get_or (with_cells (cells e) at len 0 payload) j 0) (sym start)
            ∙ with_cells-at (cells e) at len 0 payload i (omega arith) lt)
          c
    answered e (returned rc, y) (bad, (c, b)) =
        failed y.dev (rw bad (ap (λ (l : List ℕ). (err_transfer, l, at_rest V idle y.dev)) b)) c

    request : IsRequest bus (read_messages device.address_width len) device.target_addr
    unfolding messages_valid
    request =
        let (least, most) =
          Addressed-width device at (validate_range-Addressed device at len here.in_range) in
        let some_width : device.address_width ≢ 0 = λ none. absurd (omega (arith, least, most)) in
        record {
          usable_bus = valid;
          some_message = λ same. absurd (omega arith);
          some_address = λ same. absurd (omega arith);
          usable_messages =
              rw (ne→== device.address_width 0 some_width, ne→== len 0 here.some_bytes) refl;
        }

    read_accepted :
        (w : Wires (Shift V))
        → eeprom_read lines bus (some device) at (some payload) len stack w
          ≡ read_done lines bus (
              mps2_i2c_transfer lines bus
                (some (read_messages device.address_width len))
                device.target_addr
                (record { wires = w; bufs = abuf ∷ payload ∷ [] }))
    unfolding eeprom_read build_memory_address
    read_accepted w =
        let width : (build_memory_address device at stack).1 ≡ device.address_width =
          build_memory_address_lem device at stack
            (validate_range-Addressed device at len here.in_range) in
        rw (here.some_bus, ne→== len 0 here.some_bytes, here.in_range)
          (ap
            (λ (n : ℕ). read_done lines bus (
              mps2_i2c_transfer lines bus (some (read_messages n len)) device.target_addr
                (record { wires = w; bufs = abuf ∷ payload ∷ [] })))
            width)

    -- eeprom_read that passes the checks, from free lines with a chip that meets the documents, into
    -- a buffer of at least the length: the lines are free again and no cell has changed. After
    -- EEPROM_OK the buffer holds the bytes of the cells from the address on; the one other status is
    -- EEPROM_ERR_TRANSFER, and then the buffer is as it was.
    pub read_lem :
        (e : E)
        → Fetch at payload len e
            (eeprom_read lines bus (some device) at (some payload) len stack (at_rest V idle e))
    read_lem e =
        let start : Talk E = record { dev = e; bufs = abuf ∷ payload ∷ [] } in
        subst (λ o. Fetch at payload len e o)
          (sym (
            read_accepted (at_rest V idle e)
            ∙ ap (λ o. read_done lines bus o)
                (transfer_refines V bus quick bytes (read_messages device.address_width len)
                  device.target_addr idle start request)))
          (answered e (talk V device.target_addr (read_messages device.address_width len) 0 start) (
            talk-Fetched V device.target_addr device.address_width device.page_size C below e abuf
              payload at len pointed))

    -- A chip that is awake serves the read.
    pub read_succeeds :
        (K : WriteCycle V device.target_addr device.address_width device.page_size C) (e : E)
        → K.awake e ≡ true
        → is_ok
            (eeprom_read lines bus (some device) at (some payload) len stack (at_rest V idle e)).0
          ≡ true
    unfolding read_done
    read_succeeds K e up =
        let start : Talk E = record { dev = e; bufs = abuf ∷ payload ∷ [] } in
        ap (λ o. is_ok o.0)
          (read_accepted (at_rest V idle e)
            ∙ ap (λ o. read_done lines bus o)
                (transfer_refines V bus quick bytes (read_messages device.address_width len)
                  device.target_addr idle start request))
        ∙ good (talk V device.target_addr (read_messages device.address_width len) 0 start) (
            talk-Succeeds V device.target_addr device.address_width device.page_size C K below len
              abuf payload e up)
      where
        good :
            (o : Outcome Void × Talk E)
            → Succeeds V device.target_addr device.address_width device.page_size C K o
            → is_ok (read_done lines bus (finished V bus quick bytes idle o)).0 ≡ true
        good (value v, y) h = refl
        good (returned rc, y) h = absurd h
