-- ===== src/Eeprom/RoundTrip.antt =====
-- A write with a read of the same cells behind it.
use cortex_m3_embedded_debug.Base.{
  ℕ, ◌+◌, ◌≤◌, ◌<◌, ◌≡◌, ◌≢◌, ap, sym, ◌∙◌, subst, true, some, List, length, get_or, u8, Rc, is_ok,
  arith,
}
use cortex_m3_embedded_debug.I2cLine.{Pins, Mps2I2cBus}
use cortex_m3_embedded_debug.I2cTarget.{Wires}
use cortex_m3_embedded_debug.I2cTarget.Slave.{Device, Shift}
use cortex_m3_embedded_debug.Mps2I2c.{bus_valid}
use cortex_m3_embedded_debug.Mps2I2c.Rest.{idle, at_rest}
use cortex_m3_embedded_debug.Mps2I2c.Conversation.{pins}
use cortex_m3_embedded_debug.Eeprom.{EepromDevice, eeprom_write, eeprom_read, max_payload_size}
use cortex_m3_embedded_debug.Eeprom.Chip.{Chip}
use cortex_m3_embedded_debug.Eeprom.Cycle.{WriteCycle}
use cortex_m3_embedded_debug.Eeprom.Range.{IsWrite, IsFitting, IsFitting-IsWrite}
use cortex_m3_embedded_debug.Eeprom.Writes.{Written, stored, unready, failed, write_lem}
use cortex_m3_embedded_debug.Eeprom.Reads
use cortex_m3_embedded_debug.Eeprom.Reads.{IsRead, Fetch, Answer, read_lem, read_succeeds}

module _ (V : Device) (bus : Mps2I2cBus) (quick : (e : V.E) → V.holds e < bus.timeout_cycles)
    (bytes : (e : V.E) → V.offer e < 256) (valid : bus_valid bus ≡ true) (device : EepromDevice)
    (small : device.target_addr < 127)
    (C : Chip V device.target_addr device.address_width device.page_size)
    (K : WriteCycle V device.target_addr device.address_width device.page_size C) (at : ℕ)
    (payload : List ℕ) (len : ℕ) where
  open V use {E}

  abbrev lines : Pins
  lines = pins V bus quick bytes

  abbrev WrittenHere : E → Rc × Wires (Shift V) → Type 0
  WrittenHere e out = Written V bus quick bytes valid device small C K at payload len e out

  -- behind a write that succeeded: free lines, and an awake chip with the payload in its cells
  behind_write :
      (e : E) (out : Rc × Wires (Shift V))
      → WrittenHere e out
      → is_ok out.0 ≡ true
      → (e' : E) × ((out.1 ≡ at_rest V idle e')
          × ((K.awake e' ≡ true)
              × ((i : ℕ) → i < len → C.cells e' (at + i) ≡ u8 (get_or payload i 0))))
  behind_write e out (stored e' same up put kept) h = (
    e',
    (
      ap (λ (o : Rc × Wires (Shift V)). o.1) same,
      (up, λ i lt. ap (λ (c : ℕ → ℕ). c (at + i)) (sym (K.settled e' up)) ∙ put i lt),
    ),
  )
  behind_write e out (unready e' same put kept) h =
      let bad = sym (ap (λ (o : Rc × Wires (Shift V)). is_ok o.0) same) ∙ h in
      absurd (ground (arith, bad))
  behind_write e out (failed e' same kept) h =
      let bad = sym (ap (λ (o : Rc × Wires (Shift V)). is_ok o.0) same) ∙ h in
      absurd (ground (arith, bad))

  what_was_read :
      (e : E) (buffer : List ℕ) (out : Answer V bus quick bytes valid device small C)
      → Fetch V bus quick bytes valid device small C at buffer len e out
      → is_ok out.0 ≡ true
      → (i : ℕ) → i < len
      → get_or out.1 i 0 ≡ u8 (C.cells e (at + i))
  what_was_read e buffer out (Reads.fetched buf e' same read kept) h i lt =
      ap (λ (o : Answer V bus quick bytes valid device small C). get_or o.1 i 0) same ∙ read i lt
  what_was_read e buffer out (Reads.failed e' same kept) h i lt =
      let bad =
        sym (ap (λ (o : Answer V bus quick bytes valid device small C). is_ok o.0) same) ∙ h in
      absurd (ground (arith, bad))

  module _ (stack : List ℕ) (fits : IsFitting device at len) (room : 2 + len ≤ length stack)
      (short : len ≤ max_payload_size) (polls : device.ready_poll_limit ≢ 0)
      (buffer address_stack : List ℕ) (address_room : 2 ≤ length address_stack)
      (read_room : len ≤ length buffer) where
    abbrev pub after_write : E → Rc × Wires (Shift V)
    after_write e =
        eeprom_write lines bus (some device) at (some payload) len stack (at_rest V idle e)

    abbrev pub after_read : Wires (Shift V) → Answer V bus quick bytes valid device small C
    after_read w = eeprom_read lines bus (some device) at (some buffer) len address_stack w

    here : IsWrite device at len
    here = IsFitting-IsWrite device at len fits

    readable : IsRead device at len
    readable = record {
      some_bus = here.some_bus;
      some_bytes = here.some_bytes;
      in_range = here.in_range;
    }

    -- eeprom_write and then eeprom_read of the same cells, of at most 32 bytes that lie in the chip and
    -- in one page, with a usable bus and device and at least one poll, a tx_buffer and a read buffer
    -- with room for them, from free lines with a chip that meets the documents: when the write has
    -- answered EEPROM_OK, the read answers EEPROM_OK too, and the read bytes are the written ones.
    pub write_reads_back :
        (e : E)
        → is_ok (after_write e).0 ≡ true
        → (is_ok (after_read (after_write e).1).0 ≡ true)
          × ((i : ℕ)
              → i < len
              → get_or (after_read (after_write e).1).1 i 0 ≡ u8 (get_or payload i 0))
    write_reads_back e h =
        let (e', (same, (up, put))) =
          behind_write e (after_write e)
            (write_lem V bus quick bytes valid device small C K at payload len stack fits room short
              polls e)
            h in
        let good =
          read_succeeds V bus quick bytes valid device small C at buffer len address_stack readable
            address_room read_room K e' up in
        subst
          (λ (w : Wires (Shift V)).
            (is_ok (after_read w).0 ≡ true)
            × ((i : ℕ) → i < len → get_or (after_read w).1 i 0 ≡ u8 (get_or payload i 0)))
          (sym same)
          (
            good,
            λ i lt.
                what_was_read e' buffer (after_read (at_rest V idle e'))
                  (read_lem V bus quick bytes valid device small C at buffer len address_stack
                    readable address_room read_room e')
                  good i lt
                ∙ ap (λ (v : ℕ). u8 v) (put i lt)
                ∙ twice (get_or payload i 0),
          )
      where
        twice : (v : ℕ) → u8 (u8 v) ≡ u8 v
        twice v = omega arith
