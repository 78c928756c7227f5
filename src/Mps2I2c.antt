-- ===== src/Mps2I2c.antt =====
-- labs/lab14_mps2_mmio_i2c/mps2_i2c.c: transfers on an I2C bus.
pub mod Talk
pub mod Rest
pub mod Refine
pub mod Guards
pub mod Conversation
use cortex_m3_embedded_debug.Base.{
  ℕ, zero, suc, ◌+◌, Bool, true, false, not, ◌&&◌, ◌||◌, Option, none, some, List, [], ◌∷◌, length,
  set, get_or, ◌==◌, ◌!=◌, ltb, if◌then◌else◌, bit_and, bit_or, not32, u8, Rc, ok,
}
use cortex_m3_embedded_debug.Base.Exec.{
  Void, Exec, Outcome, value, returned, ◌>>=◌, ◌>>◌, pure, leave, act, on_error, ignored, result,
}
use cortex_m3_embedded_debug.I2cLine.{
  Pins, Mps2I2cBus, i2c_err_argument, i2c_err_address, bus_release, bus_is_idle, generate_start,
  generate_restart, generate_stop, write_byte, read_byte, send_address, sda_release, wait_scl_high,
  sda_is_high, scl_drive_low,
}

abbrev pub msg_write : ℕ
msg_write = 0x00

abbrev pub msg_read : ℕ
msg_read = 0x01

abbrev pub msg_stop : ℕ
msg_stop = 0x02

abbrev pub msg_restart : ℕ
msg_restart = 0x04

-- `struct mps2_i2c_msg`, whose buffer stands in a list beside it; `has_buf` is `buf != NULL`.
pub record Mps2I2cMsg : Type 0 where
  pub has_buf : Bool
  pub len : ℕ
  pub flags : ℕ

abbrev pub has_flag : ℕ → ℕ → Bool
has_flag flags mask = bit_and flags mask != 0

abbrev pub allowed : ℕ
allowed = bit_or (bit_or msg_read msg_stop) msg_restart

unfoldable pub bus_valid : Mps2I2cBus → Bool
bus_valid bus = bus.has_regs && (bus.delay_cycles != 0 && bus.timeout_cycles != 0)

-- the loop over the messages before the transfer; `before` has the flags of the one before
unfoldable pub messages_valid : Option ℕ → List Mps2I2cMsg → Bool
messages_valid before [] = true
messages_valid none (m ∷ ms) =
    let rest = messages_valid (some m.flags) ms in
    if not m.has_buf || (m.len == 0 || bit_and m.flags (not32 allowed) != 0) then false else rest
messages_valid (some flags) (m ∷ ms) =
    let rest = messages_valid (some m.flags) ms in
    if not m.has_buf || (m.len == 0 || bit_and m.flags (not32 allowed) != 0)
    then false
    else if not (has_flag flags msg_stop) && not (has_flag m.flags msg_restart)
    then false
    else rest

-- the lines and the buffers of the messages
pub record Transfer (W : Type 0) : Type 0 where
  pub wires : W
  pub bufs : List (List ℕ)

module _ {W : Type 0} where
  abbrev pub on_wires : {A : Type 0} → Exec W A → Exec (Transfer W) A
  on_wires m x = let (out, w) = m x.wires in (out, record x { wires = w })

  -- `messages[index].buf[byte]`
  abbrev pub byte_at : Transfer W → ℕ → ℕ → ℕ
  byte_at x index byte = u8 (get_or (get_or x.bufs index []) byte 0)

  abbrev pub put_byte : ℕ → ℕ → ℕ → Transfer W → Transfer W
  put_byte index byte v x = record x {
    bufs = set x.bufs index (set (get_or x.bufs index []) byte v);
  }

module _ (P : Pins) (bus : Mps2I2cBus) where
  open P use {W}

  -- `generate_stop` with its result ignored
  unfoldable pub stop_anyway : Transfer W → Transfer W
  stop_anyway = ignored (on_wires (generate_stop P bus))

  unfoldable pub io_byte : Bool → ℕ → ℕ → ℕ → Exec (Transfer W) Void
  io_byte true index len byte = do
    v ← on_wires (read_byte P bus (ltb (byte + 1) len))
    act (put_byte index byte v)
  io_byte false index len byte = λ x. on_wires (write_byte P bus (byte_at x index byte)) x

  -- `n` rounds of the loop over the bytes, from `byte` on
  unfoldable pub io_bytes : ℕ → Bool → ℕ → ℕ → ℕ → Exec (Transfer W) Void
  io_bytes zero is_read index len byte = pure tt
  io_bytes (suc n) is_read index len byte = do
    io_byte is_read index len byte
    io_bytes n is_read index len (suc byte)

  -- the address and the bytes of a message
  unfoldable pub message_body : ℕ → ℕ → Mps2I2cMsg → Exec (Transfer W) Void
  message_body target_addr index m = do
    on_wires (send_address P bus target_addr (has_flag m.flags msg_read))
    io_bytes m.len (has_flag m.flags msg_read) index m.len 0

  unfoldable pub message_start : Bool → Exec (Transfer W) Void
  message_start active =
      if active
      then on_error (on_wires (generate_restart P bus)) stop_anyway
      else on_wires (generate_start P bus)

  unfoldable pub one_message : ℕ → ℕ → Bool → Mps2I2cMsg → Exec (Transfer W) Void
  one_message target_addr index active m = do
    message_start active
    on_error (message_body target_addr index m) stop_anyway
    if has_flag m.flags msg_stop then on_wires (generate_stop P bus) else pure tt

  -- the messages from `index` on
  unfoldable pub all_messages : ℕ → List Mps2I2cMsg → ℕ → Bool → Exec (Transfer W) Void
  all_messages target_addr [] index active = pure tt
  all_messages target_addr (m ∷ ms) index active = do
    one_message target_addr index active m
    all_messages target_addr ms (suc index) true

  -- `messages` is `none` for NULL.
  unfoldable pub mps2_i2c_transfer : Option (List Mps2I2cMsg) → ℕ → Transfer W → Rc × Transfer W
  mps2_i2c_transfer none target_addr x = (i2c_err_argument, x)
  mps2_i2c_transfer (some messages) target_addr x =
      if not (bus_valid bus) || length messages == 0
      then (i2c_err_argument, x)
      else if target_addr == 0x7f
      then (i2c_err_address, x)
      else if not (messages_valid none messages)
      then (i2c_err_argument, x)
      else result (all_messages target_addr messages 0 false x)

  -- The stop follows the address whatever its result, which counts first.
  unfoldable pub probe_address : ℕ → Exec W Void
  probe_address target_addr = do
    on_error (send_address P bus target_addr false) (ignored (generate_stop P bus))
    generate_stop P bus

  unfoldable pub mps2_i2c_probe : ℕ → W → Rc × W
  mps2_i2c_probe target_addr w =
      if not (bus_valid bus)
      then (i2c_err_argument, w)
      else if ltb 0x7f target_addr
      then (i2c_err_address, w)
      else result ((generate_start P bus >> probe_address target_addr) w)

  -- `n` rounds of the loop over the pulses
  unfoldable pub clock_out : ℕ → Exec W Void
  clock_out zero = pure tt
  clock_out (suc n) = do
    act (scl_drive_low P bus)
    wait_scl_high P bus
    high ← sda_is_high P bus
    if high then pure tt else clock_out n

  -- behind the first wait
  unfoldable pub recover_held : Exec W Void
  recover_held = do
    high ← sda_is_high P bus
    if high then pure tt else (clock_out 9 >> generate_stop P bus)

  unfoldable pub mps2_i2c_recover_bus : W → Rc × W
  mps2_i2c_recover_bus w =
      if not (bus_valid bus)
      then (i2c_err_argument, w)
      else result ((act (sda_release P bus) >> (wait_scl_high P bus >> recover_held)) w)

  unfoldable pub init_released : Outcome Bool × W → Rc × W
  init_released (value true, w) = (ok, w)
  init_released (value false, w) = mps2_i2c_recover_bus w
  init_released (returned rc, w) = (rc, w)

  unfoldable pub mps2_i2c_init : W → Rc × W
  mps2_i2c_init w =
      if not (bus_valid bus)
      then (i2c_err_argument, w)
      else init_released (bus_is_idle P bus (bus_release P bus w))
