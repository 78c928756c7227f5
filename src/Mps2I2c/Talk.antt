-- ===== src/Mps2I2c/Talk.antt =====
-- What a transfer is to a device that deals in bytes, with no line, bit or clock.
use cortex_m3_embedded_debug.Base.{
  ℕ, zero, suc, ◌+◌, ◌*◌, ◌%◌, Bool, true, false, List, [], ◌∷◌, set, get_or, ltb, if◌then◌else◌,
  u8,
}
use cortex_m3_embedded_debug.Base.Exec.{
  Void, Exec, Outcome, value, returned, ◌>>◌, pure, act, on_error,
}
use cortex_m3_embedded_debug.I2cLine.{i2c_err_nack}
use cortex_m3_embedded_debug.I2cTarget.Slave.{Device}
use cortex_m3_embedded_debug.Mps2I2c.{Mps2I2cMsg, has_flag, msg_read, msg_stop}

-- the device and the buffers of the messages
pub record Talk (E : Type 0) : Type 0 where
  pub dev : E
  pub bufs : List (List ℕ)

module _ (V : Device) where
  open V use {E, address, take, offer, given, stopped}

  abbrev pub bye : Talk E → Talk E
  bye x = record x { dev = stopped x.dev }

  -- the device's answer to a byte
  abbrev pub reply : List (List ℕ) → Bool × E → Outcome Void × Talk E
  reply bufs (true, e) = (value tt, record { dev = e; bufs = bufs })
  reply bufs (false, e) = (returned i2c_err_nack, record { dev = e; bufs = bufs })

  -- the seven bits of the address with the direction below
  abbrev pub address_byte : ℕ → Bool → ℕ
  address_byte target_addr reads = target_addr % 128 * 2 + (if reads then 1 else 0)

  abbrev pub call : ℕ → Bool → Exec (Talk E) Void
  call target_addr reads x = reply x.bufs (address (address_byte target_addr reads) x.dev)

  -- `n` bytes of buffer `index`, from `byte` on, to the device
  unfoldable pub tell : ℕ → ℕ → ℕ → Exec (Talk E) Void
  tell zero index byte = pure tt
  tell (suc n) index byte = do
    (λ x. reply x.bufs (take (u8 (get_or (get_or x.bufs index []) byte 0)) x.dev))
    tell n index (suc byte)

  abbrev pub hear_byte : ℕ → ℕ → Bool → Talk E → Talk E
  hear_byte index byte wanted x = record {
    dev = given wanted x.dev;
    bufs = set x.bufs index (set (get_or x.bufs index []) byte (offer x.dev));
  }

  -- `n` bytes from the device into buffer `index`, from `byte` on; it is told of the last one
  unfoldable pub hear : ℕ → ℕ → ℕ → ℕ → Exec (Talk E) Void
  hear zero index len byte = pure tt
  hear (suc n) index len byte = do
    act (hear_byte index byte (ltb (byte + 1) len))
    hear n index len (suc byte)

  abbrev pub exchange : Bool → ℕ → ℕ → Exec (Talk E) Void
  exchange true index len = hear len index len 0
  exchange false index len = tell len index 0

  unfoldable pub talk_message : ℕ → ℕ → Mps2I2cMsg → Exec (Talk E) Void
  talk_message target_addr index m = do
    call target_addr (has_flag m.flags msg_read)
    exchange (has_flag m.flags msg_read) index m.len

  -- a message with its end: the device is told of a STOP, also where it has refused a byte
  unfoldable pub talk_one : ℕ → ℕ → Mps2I2cMsg → Exec (Talk E) Void
  talk_one target_addr index m = do
    on_error (talk_message target_addr index m) bye
    if has_flag m.flags msg_stop then act bye else pure tt

  -- the messages from `index` on; the first refused byte ends the transfer
  unfoldable pub talk : ℕ → List Mps2I2cMsg → ℕ → Exec (Talk E) Void
  talk target_addr [] index = pure tt
  talk target_addr (m ∷ ms) index = do talk_one target_addr index m; talk target_addr ms (suc index)
