-- ===== src/Eeprom.antt =====
-- labs/lab14_mps2_mmio_i2c/eeprom.c: reads and page writes of a serial EEPROM over I2C.
pub mod Wait
pub mod Chip
pub mod Pages
pub mod Got
pub mod Buffer
pub mod Sent
pub mod Fetched
pub mod Cycle
pub mod Range
pub mod Guards
pub mod Writes
pub mod Reads
pub mod RoundTrip
mod LabChip
mod Tests
use cortex_m3_embedded_debug.Base.{
  ℕ, zero, suc, ◌+◌, ◌-◌, ◌%◌, ◌^◌, Bool, true, false, not, ◌||◌, Option, none, some, List, [], ◌∷◌,
  ◌++◌, length, set, get_or, replicate, ◌==◌, ◌!=◌, ltb, leb, if◌then◌else◌, u8, u32, shr, bit_or,
  Rc, ok, fail, other, is_ok,
}
use cortex_m3_embedded_debug.I2cLine.{Pins, Mps2I2cBus}
use cortex_m3_embedded_debug.Mps2I2c.{
  Mps2I2cMsg, Transfer, msg_write, msg_read, msg_stop, msg_restart, mps2_i2c_transfer,
  mps2_i2c_probe,
}

-- `enum eeprom_status`
abbrev pub eeprom_err_argument : Rc
eeprom_err_argument = fail (other 100)

abbrev pub err_address_width : Rc
err_address_width = fail (other 101)

abbrev pub err_page_boundary : Rc
err_page_boundary = fail (other 102)

abbrev pub err_transfer : Rc
err_transfer = fail (other 103)

abbrev pub err_not_ready : Rc
err_not_ready = fail (other 104)

abbrev pub max_payload_size : ℕ
max_payload_size = 32

-- `EEPROM_ERR_ARGUMENT` as the `size_t` of 32 bits that the page size is compared with
abbrev pub err_argument_as_size : ℕ
err_argument_as_size = 2 ^ 32 - 100

-- `struct eeprom_device`, whose bus is passed beside it; `has_bus` is `bus != NULL`.
pub record EepromDevice : Type 0 where
  pub has_bus : Bool
  pub target_addr : ℕ
  pub address_width : ℕ
  pub page_size : ℕ
  pub ready_poll_limit : ℕ

-- behind the choice of the limit
unfoldable pub range_in : ℕ → ℕ → ℕ → Rc
range_in limit memory_addr length =
    if leb limit memory_addr
    then eeprom_err_argument
    else if ltb (limit - memory_addr) length
    then eeprom_err_argument
    else ok

unfoldable pub validate_range : EepromDevice → ℕ → ℕ → Rc
unfolding range_in
validate_range device memory_addr length =
    if device.address_width == 1
    then range_in 256 memory_addr length
    else if device.address_width == 2
    then range_in 65536 memory_addr length
    else err_address_width

-- `buffer` after the call, and the count that is returned
unfoldable pub build_memory_address : EepromDevice → ℕ → List ℕ → List ℕ × ℕ
build_memory_address device memory_addr buffer =
    if device.address_width == 1
    then (set buffer 0 (u8 memory_addr), 1)
    else (set (set buffer 0 (u8 (shr memory_addr 8))) 1 (u8 memory_addr), 2)

-- `n` rounds of the loop that appends the data, from `index` on; a write behind the end of the
-- buffer is left out
unfoldable pub append_data : ℕ → ℕ → List ℕ → ℕ → List ℕ → List ℕ
append_data zero address_length payload index buffer = buffer
append_data (suc n) address_length payload index buffer =
    append_data n address_length payload (suc index)
      (set buffer (address_length + index) (get_or payload index 0))

-- `result == MPS2_I2C_ERR_NACK`
abbrev pub is_nack : Rc → Bool
is_nack (fail (other n)) = n == 3
is_nack rc = false

module _ (P : Pins) (bus : Mps2I2cBus) where
  open P use {W}

  -- `n` rounds of the loop over the attempts
  unfoldable pub poll_ready : ℕ → ℕ → W → Rc × W
  poll_ready zero target_addr w = (err_not_ready, w)
  poll_ready (suc n) target_addr w =
      let (rc, w') = mps2_i2c_probe P bus target_addr w in
      let rest = poll_ready n target_addr w' in
      if is_ok rc then (ok, w') else if is_nack rc then rest else (err_transfer, w')

  unfoldable pub eeprom_wait_ready : Option EepromDevice → W → Rc × W
  unfolding poll_ready
  eeprom_wait_ready none w = (eeprom_err_argument, w)
  eeprom_wait_ready (some device) w =
      if not device.has_bus || device.ready_poll_limit == 0
      then (eeprom_err_argument, w)
      else poll_ready device.ready_poll_limit device.target_addr w

  -- after the transfer of a write
  unfoldable pub wrote : EepromDevice → Rc × Transfer W → Rc × W
  unfolding eeprom_wait_ready
  wrote device (rc, x) =
      if is_ok rc then eeprom_wait_ready (some device) x.wires else (err_transfer, x.wires)

  -- `tx_buffer` starts with what the stack holds, as the message is sent
  unfoldable pub write_page : EepromDevice → ℕ → List ℕ → ℕ → List ℕ → W → Rc × W
  unfolding wrote
  write_page device memory_addr payload length tx_buffer w =
      let (buffer, address_length) = build_memory_address device memory_addr tx_buffer in
      wrote device (
        mps2_i2c_transfer P bus
          (some (
            record {
              has_buf = true;
              len = u32 (address_length + length);
              flags = bit_or msg_write msg_stop;
            }
            ∷ []))
          device.target_addr
          (record { wires = w; bufs = append_data length address_length payload 0 buffer ∷ [] }))

  -- `payload` is `none` for NULL.
  unfoldable pub eeprom_write : Option EepromDevice → ℕ → Option (List ℕ) → ℕ → List ℕ → W → Rc × W
  unfolding validate_range write_page
  eeprom_write none memory_addr payload length stack w = (eeprom_err_argument, w)
  eeprom_write (some device) memory_addr none length stack w = (eeprom_err_argument, w)
  eeprom_write (some device) memory_addr (some payload) length stack w =
      if not device.has_bus
        || ((length == 0)
            || ((device.page_size == 0)
                || (ltb err_argument_as_size device.page_size || ltb device.page_size length)))
      then (eeprom_err_argument, w)
      else if not (is_ok (validate_range device memory_addr length))
      then (validate_range device memory_addr length, w)
      else if ltb (device.page_size - memory_addr % device.page_size) length
      then (err_page_boundary, w)
      else write_page device memory_addr payload length stack w

  unfoldable pub eeprom_write_byte : Option EepromDevice → ℕ → ℕ → List ℕ → W → Rc × W
  unfolding eeprom_write
  eeprom_write_byte device memory_addr byte stack w =
      eeprom_write device memory_addr (some (byte ∷ [])) 1 stack w

  -- the buffer `data` after the transfer
  unfoldable pub read_done : Rc × Transfer W → Rc × List ℕ × W
  read_done (rc, x) = ((if is_ok rc then ok else err_transfer), get_or x.bufs 1 [], x.wires)

  unfoldable pub eeprom_read :
      Option EepromDevice → ℕ → Option (List ℕ) → ℕ → List ℕ → W → Rc × List ℕ × W
  unfolding validate_range read_done
  eeprom_read none memory_addr none length stack w = (eeprom_err_argument, [], w)
  eeprom_read none memory_addr (some payload) length stack w = (eeprom_err_argument, payload, w)
  eeprom_read (some device) memory_addr none length stack w = (eeprom_err_argument, [], w)
  eeprom_read (some device) memory_addr (some payload) length stack w =
      let (address_buffer, address_length) = build_memory_address device memory_addr stack in
      if not device.has_bus || length == 0
      then (eeprom_err_argument, payload, w)
      else if not (is_ok (validate_range device memory_addr length))
      then (validate_range device memory_addr length, payload, w)
      else read_done (
          mps2_i2c_transfer P bus
            (some (
              record { has_buf = true; len = address_length; flags = msg_write }
              ∷ record {
                has_buf = true;
                len = length;
                flags = bit_or (bit_or msg_read msg_restart) msg_stop;
              }
              ∷ []))
            device.target_addr (record { wires = w; bufs = address_buffer ∷ payload ∷ [] }))

  unfoldable pub eeprom_read_byte :
      Option EepromDevice → ℕ → Option (List ℕ) → List ℕ → W → Rc × List ℕ × W
  unfolding eeprom_read
  eeprom_read_byte device memory_addr byte stack w = eeprom_read device memory_addr byte 1 stack w
