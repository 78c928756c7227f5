-- ===== src/I2cLine.antt =====
-- labs/lab14_mps2_mmio_i2c/mps2_i2c.c: the two lines of an I2C bus, set, cleared and read through
-- registers, and the bits and bytes on them.
use cortex_m3_embedded_debug.Base.{
  ℕ, zero, suc, ◌*◌, Bool, not, ◌==◌, ◌!=◌, if◌then◌else◌, bit_and, bit_or, u8, Rc, fail, other,
}
use cortex_m3_embedded_debug.Base.Exec.{Void, Exec, value, ◌>>=◌, ◌>>◌, pure, leave, act, finally}

-- `enum mps2_i2c_status`
abbrev pub i2c_err_argument : Rc
i2c_err_argument = fail (other 1)

abbrev pub i2c_err_address : Rc
i2c_err_address = fail (other 2)

abbrev pub i2c_err_nack : Rc
i2c_err_nack = fail (other 3)

abbrev pub i2c_err_timeout : Rc
i2c_err_timeout = fail (other 4)

abbrev pub i2c_err_bus_busy : Rc
i2c_err_bus_busy = fail (other 5)

-- The registers: writes to CONTROLS and CONTROLC, a read of CONTROL, and a `__NOP` that lets time
-- pass. `W` is the state of the lines and of all that hangs on them.
pub record Pins : Type 1 where
  pub W : Type 0
  pub sda_mask : ℕ
  pub scl_mask : ℕ
  pub set_lines : ℕ → W → W
  pub clear_lines : ℕ → W → W
  pub control : W → ℕ × W
  pub nop : W → W

-- `struct mps2_i2c_bus`, whose registers are passed beside it; `has_regs` is
-- `bus != NULL && bus->regs != NULL`.
pub record Mps2I2cBus : Type 0 where
  pub has_regs : Bool
  pub delay_cycles : ℕ
  pub timeout_cycles : ℕ

module _ (P : Pins) (bus : Mps2I2cBus) where
  open P use {W, sda_mask, scl_mask, set_lines, clear_lines, control, nop}

  unfoldable pub nops : ℕ → W → W
  nops zero w = w
  nops (suc n) w = nops n (nop w)

  unfoldable pub bit_delay : W → W
  bit_delay w = nops bus.delay_cycles w

  unfoldable pub sda_is_high : Exec W Bool
  sda_is_high w = let (v, w') = control w in (value (bit_and v sda_mask != 0), w')

  unfoldable pub scl_is_high : Exec W Bool
  scl_is_high w = let (v, w') = control w in (value (bit_and v scl_mask != 0), w')

  unfoldable pub sda_release : W → W
  sda_release w = bit_delay (set_lines sda_mask w)

  unfoldable pub scl_release : W → W
  scl_release w = bit_delay (set_lines scl_mask w)

  unfoldable pub sda_drive_low : W → W
  sda_drive_low w = bit_delay (clear_lines sda_mask w)

  unfoldable pub scl_drive_low : W → W
  scl_drive_low w = bit_delay (clear_lines scl_mask w)

  -- `n` rounds of the loop
  unfoldable pub poll_scl : ℕ → Exec W Void
  poll_scl zero = leave i2c_err_timeout
  poll_scl (suc n) = do high ← scl_is_high; if high then act bit_delay else poll_scl n

  unfoldable pub wait_scl_high : Exec W Void
  wait_scl_high = do act scl_release; poll_scl bus.timeout_cycles

  unfoldable pub bus_release : W → W
  bus_release w = scl_release (sda_release w)

  unfoldable pub bus_is_idle : Exec W Bool
  bus_is_idle w =
      let lines = bit_or sda_mask scl_mask in
      let (v, w') = control w in (value (bit_and v lines == lines), w')

  unfoldable pub generate_start : Exec W Void
  generate_start = do
    act sda_release
    wait_scl_high
    high ← sda_is_high
    if high then (act sda_drive_low >> act scl_drive_low) else leave i2c_err_bus_busy

  unfoldable pub generate_restart : Exec W Void
  generate_restart = generate_start

  unfoldable pub generate_stop : Exec W Void
  generate_stop = do
    act scl_drive_low
    act sda_drive_low
    finally wait_scl_high sda_release
    idle ← bus_is_idle
    if idle then pure tt else leave i2c_err_bus_busy

  unfoldable pub write_bit : Bool → Exec W Void
  write_bit bit_value = do
    act (if bit_value then sda_release else sda_drive_low)
    wait_scl_high
    act scl_drive_low

  -- The bit is 0 or 1. The callers pass no NULL.
  unfoldable pub read_bit : Exec W ℕ
  read_bit = do
    act sda_release
    wait_scl_high
    high ← sda_is_high
    act scl_drive_low
    pure (if high then 1 else 0)

  unfoldable pub receive_ack : Exec W Void
  receive_ack = do nack ← read_bit; if nack == 0 then pure tt else leave i2c_err_nack

  -- `n` rounds of the loop over the bits
  unfoldable pub write_bits : ℕ → ℕ → Exec W Void
  write_bits zero byte = pure tt
  write_bits (suc n) byte = do write_bit (bit_and byte 0x80 != 0); write_bits n (u8 (byte * 2))

  unfoldable pub write_byte : ℕ → Exec W Void
  write_byte byte = do write_bits 8 byte; receive_ack

  unfoldable pub read_bits : ℕ → ℕ → Exec W ℕ
  read_bits zero received = pure received
  read_bits (suc n) received = do
    input_bit ← read_bit
    read_bits n (u8 (bit_or (received * 2) input_bit))

  unfoldable pub read_byte : Bool → Exec W ℕ
  read_byte send_ack = do received ← read_bits 8 0; write_bit (not send_ack); pure received

  unfoldable pub send_address : ℕ → Bool → Exec W Void
  send_address target_addr is_read =
      write_byte (bit_or (u8 (target_addr * 2)) (if is_read then 1 else 0))
