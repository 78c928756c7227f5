-- ===== src/SpiCommand/Tests.antt =====
-- A command read over a device that sends back what it gets.
use cortex_m3_embedded_debug.Base.{
  ◌/◌, ◌%◌, ◌≡◌, ◌⊎◌, refl, true, false, none, some, [], ◌∷◌, ok, fail, is_ok, enotsup, Rc,
}
use cortex_m3_embedded_debug.Zephyr.Spi.{SpiFlags, SpiConfig, Spi, sent, placed}
use cortex_m3_embedded_debug.SpiCommand.{
  cs_ready, config_ready, spi_client_ready, transfer, spi_command_read,
}
use cortex_m3_embedded_debug.SpiCommand.Reply.{IsValid, Transferred, spi_command_read_lem}

abbrev flags : SpiFlags
flags = record {
  word_set_8 = 256;
  mode_cpol = 2;
  mode_cpha = 4;
  mode_loop = 8;
  cs_active_high = 16384;
  half_duplex = 65536;
  frame_format_ti = 32768;
  hold_on_cs = 4096;
  lock_on = 8192;
  op_mode_controller = 0;
  gpio_active_low = 1;
  op_mode_get = λ operation. operation % 2;
  word_size_get = λ operation. operation / 32 % 64;
}

abbrev echo : Spi
echo = record {
  Bus = Unit;
  is_ready = λ b. true;
  gpio_ready = λ b. true;
  transceive = λ b config tx rx. (ok, placed rx (sent tx), b);
  answer = λ b config line. line;
  length-answer = λ b config line. refl;
  transceive_ok = λ b config tx rx success. refl;
}

abbrev looped : SpiConfig
looped = record {
  frequency = 1000000;
  operation = 264;
  cs_is_gpio = false;
  has_port = false;
  dt_flags = 0;
}

replies :
    spi_command_read flags echo
      (some (record { has_bus = true; config = some looped }))
      159
      true
      3
      tt
    ≡ (ok, some (0 ∷ 0 ∷ 0 ∷ []), tt)
unfolding spi_command_read spi_client_ready config_ready cs_ready transfer
replies = refl

-- without a GPIO for the chip select and without the loop
refused :
    spi_command_read flags echo
      (some (record { has_bus = true; config = some (record looped { operation = 256 }) }))
      159
      true
      3
      tt
    ≡ (fail enotsup, none, tt)
unfolding spi_command_read spi_client_ready config_ready cs_ready transfer
refused = refl

spi_command_read_lem_example :
    Transferred flags echo looped true 159 true 3 tt (
      spi_command_read flags echo
        (some (record { has_bus = true; config = some looped }))
        159
        true
        3
        tt)
    ⊎ ((¬ IsValid flags echo looped true 159 true 3 tt)
        × ((rc : Rc) × ((is_ok rc ≡ false)
              × (spi_command_read flags echo
                    (some (record { has_bus = true; config = some looped }))
                    159
                    true
                    3
                    tt
                  ≡ (rc, none, tt)))))
spi_command_read_lem_example = spi_command_read_lem flags echo looped true 159 true 3 tt
