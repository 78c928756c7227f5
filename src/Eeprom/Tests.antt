-- ===== src/Eeprom/Tests.antt =====
-- Runs with the EEPROM of LabChip on the lines.
use cortex_m3_embedded_debug.Base.{
  inl, u8, is_ok, replicate, get_or, Rc, ◌≢◌, ℕ, ◌+◌, ◌<◌, ◌≡◌, refl, true, some, List, [], ◌∷◌,
  Errno, ◌⊎◌, false, ok, fail, other, arith,
}
use cortex_m3_embedded_debug.I2cLine.{
  nops, bit_delay, sda_is_high, scl_is_high, sda_release, scl_release, sda_drive_low, scl_drive_low,
  poll_scl, wait_scl_high, bus_is_idle, generate_start, generate_restart, generate_stop, write_bit,
  read_bit, receive_ack, write_bits, write_byte, read_bits, read_byte, send_address,
}
use cortex_m3_embedded_debug.I2cTarget.Slave.{Shift}
use cortex_m3_embedded_debug.I2cTarget.{Wires}
use cortex_m3_embedded_debug.Mps2I2c.{
  stop_anyway, io_byte, io_bytes, message_body, message_start, one_message, all_messages,
  probe_address, Mps2I2cMsg, mps2_i2c_transfer, mps2_i2c_probe, bus_valid, messages_valid,
}
use cortex_m3_embedded_debug.Mps2I2c.Talk.{Talk, talk, talk_one, talk_message, tell, hear}
use cortex_m3_embedded_debug.Mps2I2c.Rest.{idle, at_rest, on_lines}
use cortex_m3_embedded_debug.Base.Exec.{result}
use cortex_m3_embedded_debug.Mps2I2c.Guards.{IsProper, transfer_guarded}
use cortex_m3_embedded_debug.Mps2I2c.Conversation.{IsRequest, transfer_refines, probe_answers}
use cortex_m3_embedded_debug.Eeprom.{
  build_memory_address, append_data, poll_ready, wrote, write_page, read_done, EepromDevice,
  eeprom_wait_ready, eeprom_write, validate_range, range_in, eeprom_read,
}
use cortex_m3_embedded_debug.Eeprom.Chip.{programmed, store_page}
use cortex_m3_embedded_debug.Eeprom.Range.{IsFitting}
use cortex_m3_embedded_debug.Eeprom.Guards.{Refused, write_guarded}
use cortex_m3_embedded_debug.Eeprom.Reads.{IsRead, Fetch, read_lem}
use cortex_m3_embedded_debug.Eeprom.RoundTrip.{write_reads_back}
use cortex_m3_embedded_debug.Eeprom.Writes.{Written, write_lem}
use cortex_m3_embedded_debug.Eeprom.Wait.{Waited, wait_ready_ends}
use cortex_m3_embedded_debug.Eeprom.LabChip.{
  Memory, chip, lab_chip, lab_cycle, lab_bus, lab_bus_lem, quick, bytes, lines, fresh, ready_chip,
}

abbrev two_messages : List Mps2I2cMsg
two_messages =
    record { has_buf = true; len = 1; flags = 0 }
    ∷ record { has_buf = true; len = 2; flags = 7 }
    ∷ []

two_messages-IsRequest : IsRequest lab_bus two_messages 0x50
unfolding bus_valid messages_valid
two_messages-IsRequest = record {
  usable_bus = refl;
  some_message = λ same. absurd (omega arith);
  some_address = λ same. absurd (omega arith);
  usable_messages = refl;
}

-- The second message neither follows a STOP nor asks for a restart.
abbrev unjoined : List Mps2I2cMsg
unjoined =
    record { has_buf = true; len = 1; flags = 0 }
    ∷ record { has_buf = true; len = 2; flags = 3 }
    ∷ []

abbrev before : Talk Memory
before = record { dev = ready_chip; bufs = (4 ∷ []) ∷ (0 ∷ 0 ∷ []) ∷ [] }

transfer_refines_example :
    mps2_i2c_transfer lines lab_bus (some two_messages) 0x50 (on_lines chip idle before) ≡ (
      ok,
      on_lines chip idle (record {
        dev = record { got = []; cursor = 6; busy = 0; memory = λ a. a + 40 };
        bufs = (4 ∷ []) ∷ (44 ∷ 45 ∷ []) ∷ [];
      }),
    )
unfolding talk talk_one talk_message tell hear programmed store_page
transfer_refines_example =
    transfer_refines chip lab_bus quick bytes two_messages 0x50 idle before two_messages-IsRequest

transfer_guarded_example :
    let out = mps2_i2c_transfer lines lab_bus (some unjoined) 0x50 (on_lines chip idle before) in
    (IsProper lab_bus unjoined 0x50
      × (out
          ≡ result (all_messages lines lab_bus 0x50 unjoined 0 false (on_lines chip idle before))))
    ⊎ ((¬ IsProper lab_bus unjoined 0x50)
        × ((e : Errno) × (out ≡ (fail e, on_lines chip idle before))))
transfer_guarded_example =
    transfer_guarded lines lab_bus unjoined 0x50 (on_lines chip idle before)
      (omega arith, (omega arith, tt))

probe_answers_example : mps2_i2c_probe lines lab_bus 0x50 (at_rest chip idle fresh) ≡ (
  fail (other 3),
  at_rest chip idle (record { got = []; cursor = 7; busy = 1; memory = λ a. 255 }),
)
unfolding programmed store_page
probe_answers_example =
    probe_answers chip lab_bus quick bytes 0x50 idle fresh lab_bus_lem (omega arith)

abbrev lab_eeprom : EepromDevice
lab_eeprom = record {
  has_bus = true;
  target_addr = 0x50;
  address_width = 1;
  page_size = 8;
  ready_poll_limit = 5;
}

abbrev small_address : 0x50 < 128
small_address = omega arith

abbrev small_write : 0x50 < 127
small_write = omega arith

wait_ready_ends_example :
    Waited chip lab_bus quick bytes lab_bus_lem 0x50 small_address 5 fresh
      (eeprom_wait_ready lines lab_bus (some lab_eeprom) (at_rest chip idle fresh))
wait_ready_ends_example =
    wait_ready_ends chip lab_bus quick bytes lab_bus_lem 0x50 small_address lab_eeprom fresh refl
      refl (λ same. absurd (omega arith))

three_bytes-IsFitting : IsFitting lab_eeprom 4 3
three_bytes-IsFitting = record {
  some_bus = refl;
  some_bytes = omega arith;
  some_page = omega arith;
  page_bound = omega arith;
  in_chip = inl (refl, omega arith);
  in_page = omega arith;
}

write_lem_example :
    Written chip lab_bus quick bytes lab_bus_lem lab_eeprom small_write lab_chip lab_cycle 4
      (10 ∷ 20 ∷ 30 ∷ [])
      3
      ready_chip
      (eeprom_write lines lab_bus
        (some lab_eeprom)
        4
        (some (10 ∷ 20 ∷ 30 ∷ []))
        3
        (replicate 34 0)
        (at_rest chip idle ready_chip))
write_lem_example =
    write_lem chip lab_bus quick bytes lab_bus_lem lab_eeprom small_write lab_chip lab_cycle 4
      (10 ∷ 20 ∷ 30 ∷ []) 3 (replicate 34 0) three_bytes-IsFitting (omega arith) (omega arith)
      (λ same. absurd (omega arith)) ready_chip

-- Three bytes from cell 6 on leave a page of 8.
write_guarded_example :
    let out =
      eeprom_write lines lab_bus
        (some lab_eeprom)
        6
        (some (10 ∷ 20 ∷ 30 ∷ []))
        3
        (replicate 34 0)
        (at_rest chip idle ready_chip) in
    (IsFitting lab_eeprom 6 3
      × (out
          ≡ write_page lines lab_bus lab_eeprom 6
              (10 ∷ 20 ∷ 30 ∷ [])
              3
              (replicate 34 0)
              (at_rest chip idle ready_chip)))
    ⊎ ((¬ IsFitting lab_eeprom 6 3) × Refused lines lab_bus (at_rest chip idle ready_chip) out)
write_guarded_example =
    write_guarded lines lab_bus lab_eeprom 6 (10 ∷ 20 ∷ 30 ∷ []) 3 (replicate 34 0)
      (at_rest chip idle ready_chip)

three_bytes-IsRead : IsRead lab_eeprom 4 3
unfolding validate_range range_in
three_bytes-IsRead = record {
  some_bus = refl;
  some_bytes = λ same. absurd (omega arith);
  in_range = refl;
}

read_lem_example :
    Fetch chip lab_bus quick bytes lab_bus_lem lab_eeprom small_write lab_chip 4
      (0 ∷ 0 ∷ 0 ∷ [])
      3
      ready_chip
      (eeprom_read lines lab_bus
        (some lab_eeprom)
        4
        (some (0 ∷ 0 ∷ 0 ∷ []))
        3
        (0 ∷ 0 ∷ [])
        (at_rest chip idle ready_chip))
read_lem_example =
    read_lem chip lab_bus quick bytes lab_bus_lem lab_eeprom small_write lab_chip 4 (0 ∷ 0 ∷ 0 ∷ [])
      3 (0 ∷ 0 ∷ []) three_bytes-IsRead (omega arith) (omega arith) ready_chip

abbrev small_payload : List ℕ
small_payload = 10 ∷ 20 ∷ 30 ∷ []

abbrev some_polls : lab_eeprom.ready_poll_limit ≢ 0
some_polls same = absurd (omega arith)

abbrev lab_write : Rc × Wires (Shift chip)
lab_write =
    eeprom_write lines lab_bus (some lab_eeprom) 4 (some small_payload) 3 (replicate 34 0)
      (at_rest chip idle ready_chip)

abbrev lab_read : Rc × List ℕ × Wires (Shift chip)
lab_read =
    eeprom_read lines lab_bus (some lab_eeprom) 4 (some (0 ∷ 0 ∷ 0 ∷ [])) 3 (0 ∷ 0 ∷ []) lab_write.1

lab_write_lem : is_ok lab_write.0 ≡ true
unfolding range_in validate_range build_memory_address append_data poll_ready eeprom_wait_ready
    wrote write_page eeprom_write read_done eeprom_read bus_valid messages_valid stop_anyway io_byte
    io_bytes message_body message_start one_message all_messages mps2_i2c_transfer probe_address
    mps2_i2c_probe nops bit_delay sda_is_high scl_is_high sda_release scl_release sda_drive_low
    scl_drive_low poll_scl wait_scl_high bus_is_idle generate_start generate_restart generate_stop
    write_bit read_bit receive_ack write_bits write_byte read_bits read_byte send_address programmed
    store_page
lab_write_lem = refl

write_reads_back_example :
    (is_ok lab_read.0 ≡ true)
    × ((i : ℕ) → i < 3 → get_or lab_read.1 i 0 ≡ u8 (get_or small_payload i 0))
write_reads_back_example =
    write_reads_back chip lab_bus quick bytes lab_bus_lem lab_eeprom small_write lab_chip lab_cycle
      4 small_payload 3 (replicate 34 0) three_bytes-IsFitting (omega arith) (omega arith)
      some_polls (0 ∷ 0 ∷ 0 ∷ []) (0 ∷ 0 ∷ []) (omega arith) (omega arith) ready_chip lab_write_lem
