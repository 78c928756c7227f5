-- ===== src/SpiCommand.antt =====
-- labs/lab22_spi_command_read_zephyr/src/spi_command.c: a command byte on SPI and its reply.

pub mod Ready
pub mod Reply
mod Tests
use cortex_m3_embedded_debug.Base.{
  ℕ, Bool, true, false, not, ◌||◌, Option, some, none, List, [], ◌∷◌, ◌==◌, ◌!=◌, ltb,
  if◌then◌else◌, not32, bit_and, bit_or, get_or, Rc, ok, fail, is_ok, einval, enodev, enotsup,
  emsgsize,
}
use cortex_m3_embedded_debug.Zephyr.Spi.{
  SpiFlags, SpiConfig, TxBuf, bytes, zeros, RxBuf, into, discard, Spi,
}

-- `struct spi_client`, whose bus is passed beside it; `has_bus` is `bus != NULL`.
pub record SpiClient : Type 0 where
  pub has_bus : Bool
  pub config : Option SpiConfig

abbrev pub max_reply : ℕ
max_reply = 16

-- `a == b` on `bool`
abbrev pub same : Bool → Bool → Bool
same true b = b
same false b = not b

module _ (Z : SpiFlags) (P : Spi) where
  open P use {Bus, is_ready, gpio_ready, transceive}

  abbrev pub allowed : ℕ
  allowed =
      bit_or (bit_or (bit_or (bit_or Z.word_set_8 Z.mode_cpol) Z.mode_cpha) Z.mode_loop)
        Z.cs_active_high

  -- the checks of the chip select
  unfoldable pub cs_ready : SpiConfig → Bus → Rc
  cs_ready config b =
      if config.cs_is_gpio
      then (if not config.has_port
          then fail einval
          else if not (gpio_ready b)
          then fail enodev
          else if same (bit_and config.dt_flags Z.gpio_active_low != 0)
              (bit_and config.operation Z.cs_active_high != 0)
          then fail einval
          else ok)
      else if bit_and config.operation Z.mode_loop == 0
      then fail enotsup
      else ok

  -- the checks behind those for NULL
  unfoldable pub config_ready : SpiConfig → Bus → Rc
  config_ready config b =
      if config.frequency == 0
      then fail einval
      else if Z.op_mode_get config.operation != Z.op_mode_controller
      then fail enotsup
      else if (Z.word_size_get config.operation != 8)
          || (bit_and config.operation (not32 allowed) != 0)
      then fail enotsup
      else if bit_and config.operation Z.half_duplex != 0
      then fail enotsup
      else if bit_and config.operation Z.frame_format_ti != 0
      then fail enotsup
      else if (bit_and config.operation Z.hold_on_cs != 0)
          || (bit_and config.operation Z.lock_on != 0)
      then fail enotsup
      else if not (is_ready b)
      then fail enodev
      else cs_ready config b

  unfoldable pub spi_client_ready : Option SpiClient → Bus → Rc
  spi_client_ready none b = fail einval
  spi_client_ready (some client) b = elim (client.config) [
    | none ↦ fail einval
    | some config ↦ if not client.has_bus then fail einval else config_ready config b
  ]

  -- the call of spi_transceive
  unfoldable pub transfer : Option SpiClient → ℕ → ℕ → Bus → Rc × Option (List ℕ) × Bus
  transfer none command reply_len b = (fail einval, none, b)
  transfer (some client) command reply_len b = elim (client.config) [
    | none ↦ (fail einval, none, b)
    | some config ↦
        let (rc, received, b') =
          transceive b config (bytes (command ∷ []) ∷ zeros reply_len ∷ [])
            (discard 1 ∷ into reply_len ∷ []) in
        (rc, some (get_or received 0 []), b')
  ]

  -- `has_reply` is `reply != NULL`; the bytes are what is written to `reply`, if it is written to.
  unfoldable pub spi_command_read :
      Option SpiClient → ℕ → Bool → ℕ → Bus → Rc × Option (List ℕ) × Bus
  spi_command_read client command has_reply reply_len b =
      if not has_reply || (reply_len == 0)
      then (fail einval, none, b)
      else if ltb max_reply reply_len
      then (fail emsgsize, none, b)
      else if not (is_ok (spi_client_ready client b))
      then (spi_client_ready client b, none, b)
      else transfer client command reply_len b
