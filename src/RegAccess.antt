-- ===== src/RegAccess.antt =====
-- labs/lab21_i2c_register_update_zephyr/src/reg_access.c: registers of one byte behind I2C, and the
-- update of the bits that a mask names.
pub mod Update
mod Tests
use cortex_m3_embedded_debug.Base.{
  ℕ, Bool, true, false, not, ◌||◌, Option, some, none, List, [], ◌∷◌, ◌==◌, ltb, if◌then◌else◌, u8,
  not8, bit_and, bit_or, get_or, Rc, ok, fail, is_ok, einval, enodev,
}
use cortex_m3_embedded_debug.Zephyr.I2c.{I2c}

-- `struct i2c_client`, whose controller is passed beside it; `has_bus` is `bus != NULL`.
pub record I2cClient : Type 0 where
  pub has_bus : Bool
  pub addr : ℕ

-- the byte that `reg_update_byte` wants in the register
unfoldable pub merged : ℕ → ℕ → ℕ → ℕ
merged old_value mask value = u8 (bit_or (u8 (bit_and old_value (not8 mask))) (bit_and value mask))

module _ (I : I2c) where
  open I use {Bus, is_ready, write_read, write}

  unfoldable pub validate_client : Option I2cClient → Bus → Rc
  validate_client none b = fail einval
  validate_client (some client) b =
      if not client.has_bus || ltb 0x7f client.addr
      then fail einval
      else if not (is_ready b)
      then fail enodev
      else ok

  -- The byte is what goes through `value`, when the transfer has succeeded.
  unfoldable pub reg_read_byte : Option I2cClient → ℕ → Bool → Bus → Rc × Option ℕ × Bus
  unfolding validate_client
  reg_read_byte none reg has_value b = (fail einval, none, b)
  reg_read_byte (some client) reg has_value b =
      let (rc, bytes, b') = write_read b client.addr (reg ∷ []) 1 in
      if not has_value
      then (fail einval, none, b)
      else if not (is_ok (validate_client (some client) b))
      then (validate_client (some client) b, none, b)
      else (rc, (if is_ok rc then some (get_or bytes 0 0) else none), b')

  unfoldable pub reg_write_byte : Option I2cClient → ℕ → ℕ → Bus → Rc × Bus
  unfolding validate_client
  reg_write_byte none reg value b = (fail einval, b)
  reg_write_byte (some client) reg value b =
      if not (is_ok (validate_client (some client) b))
      then (validate_client (some client) b, b)
      else write b (reg ∷ value ∷ []) client.addr

  -- after the read of the register
  unfoldable pub update_read : Option I2cClient → ℕ → ℕ → ℕ → Rc × Option ℕ × Bus → Rc × Bus
  unfolding reg_write_byte
  update_read client reg mask value (rc, none, b) = (rc, b)
  update_read client reg mask value (rc, some old_value, b) =
      if merged old_value mask value == old_value
      then (ok, b)
      else reg_write_byte client reg (merged old_value mask value) b

  unfoldable pub reg_update_byte : Option I2cClient → ℕ → ℕ → ℕ → Bus → Rc × Bus
  unfolding update_read reg_read_byte
  reg_update_byte client reg mask value b =
      update_read client reg mask value (reg_read_byte client reg true b)
