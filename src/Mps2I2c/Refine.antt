-- ===== src/Mps2I2c/Refine.antt =====
-- A transfer on the lines is the conversation with the device behind them.
use cortex_m3_embedded_debug.Base.{
  ℕ, zero, suc, ◌+◌, ◌*◌, ◌%◌, ◌<◌, ◌≡◌, refl, ap, ◌∙◌, Bool, true, false, ◌==◌, List, [], ◌∷◌,
  get_or, ltb, if◌then◌else◌, u8, bit_or, arith,
}
use cortex_m3_embedded_debug.Base.Bits.Mask.{shift_in}
use cortex_m3_embedded_debug.Base.Exec.{
  Void, Outcome, value, returned, continue, pure, act, on_error_of,
}
use cortex_m3_embedded_debug.I2cLine.{
  Pins, Mps2I2cBus, generate_start, generate_restart, generate_stop, write_byte, send_address,
}
use cortex_m3_embedded_debug.I2cTarget.{Wires, up, low, open_drain}
use cortex_m3_embedded_debug.I2cTarget.Bits.{start-up, start-low, stop-low}
use cortex_m3_embedded_debug.I2cTarget.Slave.{Device, Shift, off, getting, giving, slave}
use cortex_m3_embedded_debug.I2cTarget.Bytes.{write_byte-at, read_byte-at, write_result}
use cortex_m3_embedded_debug.Mps2I2c.{
  Mps2I2cMsg, Transfer, has_flag, msg_read, msg_stop, on_wires, stop_anyway, io_byte, io_bytes,
  message_body, message_start, one_message, all_messages,
}
use cortex_m3_embedded_debug.Mps2I2c.Talk.{
  Talk, bye, reply, address_byte, call, tell, hear, hear_byte, exchange, talk_message, talk_one,
  talk,
}
use cortex_m3_embedded_debug.Mps2I2c.Rest.{
  Rest, idle, left, waits, at_rest, on_lines, mid, concluded, rest_behind, rest_of, rest_of_all,
  AllFilled,
}

module _ (V : Device) (bus : Mps2I2cBus) (quick : (e : V.E) → V.holds e < bus.timeout_cycles)
    (bytes : (e : V.E) → V.offer e < 256) where
  open V use {E, offer, stopped, address, take, given}

  abbrev pub pins : Pins
  pins = open_drain (slave V)

  pub start-at :
      (r : Rest) (e : E)
      → generate_start pins bus (at_rest V r e)
        ≡ (value tt, low (slave V) false (getting true 0 0, e))
  start-at idle e = start-up (slave V) bus (λ d. quick d.1) (off, e) refl
  start-at (left s) e = start-low (slave V) bus (λ d. quick d.1) s (off, e) refl
  start-at (waits s) e = start-low (slave V) bus (λ d. quick d.1) s (getting false 0 0, e) refl

  begin-at :
      (active : Bool) (r : Rest) (x : Talk E)
      → message_start pins bus active (on_lines V r x)
        ≡ (value tt, mid V false (getting true 0 0) x)
  unfolding message_start generate_restart
  begin-at true r x = rw (start-at r x.dev) refl
  begin-at false r x = rw (start-at r x.dev) refl

  pub stop-at :
      (reads : Bool) (e : E)
      → generate_stop pins bus (at_rest V (rest_behind V reads) e)
        ≡ (value tt, up (slave V) true (off, stopped e))
  stop-at true e = stop-low (slave V) bus (λ d. quick d.1) true (off, e) refl refl
  stop-at false e = stop-low (slave V) bus (λ d. quick d.1) true (getting false 0 0, e) refl refl

  -- the phase behind the address
  abbrev pub called : Bool → Outcome Void × Talk E → Outcome Void × Transfer (Wires (Shift V))
  called true (value _, x) = (value tt, mid V true (giving 7 (offer x.dev)) x)
  called false (value _, x) = (value tt, on_lines V (waits true) x)
  called reads (returned rc, x) = (returned rc, on_lines V (left true) x)

  abbrev with_bufs :
      List (List ℕ) → Outcome Void × Wires (Shift V) → Outcome Void × Transfer (Wires (Shift V))
  with_bufs bufs (out, w) = (out, record { wires = w; bufs = bufs })

  answered-at :
      (reads : Bool) (bufs : List (List ℕ)) (a : Bool × E)
      → with_bufs bufs (write_result V bus quick reads a) ≡ called reads (reply V bufs a)
  answered-at true bufs (true, e) = refl
  answered-at true bufs (false, e) = refl
  answered-at false bufs (true, e) = refl
  answered-at false bufs (false, e) = refl

  address_bits :
      (target_addr : ℕ) (reads : Bool)
      → bit_or (u8 (target_addr * 2)) (if reads then 1 else 0) ≡ address_byte V target_addr reads
  address_bits target_addr true =
      let top : u8 (target_addr * 2) ≡ target_addr % 128 * 2 = omega arith in
      rw top (shift_in 8 (target_addr % 128) 1 (omega arith) (omega arith))
  address_bits target_addr false =
      let top : u8 (target_addr * 2) ≡ target_addr % 128 * 2 = omega arith in
      rw top (shift_in 8 (target_addr % 128) 0 (omega arith) (omega arith))

  address_direction :
      (target_addr : ℕ) (reads : Bool) → (address_byte V target_addr reads % 2 == 1) ≡ reads
  address_direction target_addr true =
      let odd : (target_addr % 128 * 2 + 1) % 2 ≡ 1 = omega arith in rw odd refl
  address_direction target_addr false =
      let even : (target_addr % 128 * 2 + 0) % 2 ≡ 0 = omega arith in rw even refl

  address-lt : (target_addr : ℕ) (reads : Bool) → address_byte V target_addr reads < 256
  address-lt target_addr true = omega arith
  address-lt target_addr false = omega arith

  -- The device gets its address byte.
  pub send-at :
      (target_addr : ℕ) (reads : Bool) (e : E)
      → send_address pins bus target_addr reads (low (slave V) false (getting true 0 0, e))
        ≡ write_result V bus quick reads (address (address_byte V target_addr reads) e)
  unfolding send_address
  send-at target_addr reads e =
      let byte = address_byte V target_addr reads in
      ap (λ b. write_byte pins bus b (low (slave V) false (getting true 0 0, e)))
        (address_bits target_addr reads)
      ∙ write_byte-at V bus quick true false byte e (address-lt target_addr reads)
      ∙ ap (λ r. write_result V bus quick r (address byte e)) (address_direction target_addr reads)

  call-at :
      (target_addr : ℕ) (reads : Bool) (x : Talk E)
      → on_wires (send_address pins bus target_addr reads) (mid V false (getting true 0 0) x)
        ≡ called reads (call V target_addr reads x)
  call-at target_addr reads x =
      ap (with_bufs x.bufs) (send-at target_addr reads x.dev)
      ∙ answered-at reads x.bufs (address (address_byte V target_addr reads) x.dev)

  tell-at :
      (n index len byte : ℕ) (x : Talk E)
      → io_bytes pins bus n false index len byte (on_lines V (waits true) x)
        ≡ concluded V (waits true) (left true) (tell V n index byte x)
  unfolding io_bytes io_byte tell
  tell-at zero index len byte x = refl
  tell-at (suc n) index len byte x =
      let v = u8 (get_or (get_or x.bufs index []) byte 0) in
      ap (λ o. continue o (λ _. io_bytes pins bus n false index len (suc byte)))
        (ap (with_bufs x.bufs) (write_byte-at V bus quick false true v x.dev (omega arith))
          ∙ answered-at false x.bufs (take v x.dev))
      ∙ further (take v x.dev)
          (λ e. tell-at n index len (suc byte) (record { dev = e; bufs = x.bufs }))
    where
      further :
          (a : Bool × E)
          → ((e : E)
              → io_bytes pins bus n false index len
                  (suc byte)
                  (on_lines V (waits true) (record { dev = e; bufs = x.bufs }))
                ≡ concluded V
                    (waits true)
                    (left true)
                    (tell V n index (suc byte) (record { dev = e; bufs = x.bufs })))
          → continue
              (called false (reply V x.bufs a))
              (λ _. io_bytes pins bus n false index len (suc byte))
            ≡ concluded V
                (waits true)
                (left true)
                (continue (reply V x.bufs a) (λ _. tell V n index (suc byte)))
      further (true, e) rest = rest e
      further (false, e) rest = refl

  hear-at :
      (n index len byte : ℕ) (s : Bool) (x : Talk E)
      → byte + suc n ≡ len
      → io_bytes pins bus (suc n) true index len byte (mid V s (giving 7 (offer x.dev)) x)
        ≡ concluded V (left true) (left true) (hear V (suc n) index len byte x)
  unfolding io_bytes io_byte hear
  hear-at zero index len byte s x h =
      let last : ltb (byte + 1) len ≡ false = ground arith in
      rw (last, read_byte-at V bus quick false s x.dev (bytes x.dev)) refl
  hear-at (suc n) index len byte s x h =
      let more : ltb (byte + 1) len ≡ true = ground arith in
      rw (more, read_byte-at V bus quick true s x.dev (bytes x.dev))
        (hear-at n index len (suc byte) false (hear_byte V index byte true x) (omega arith))

  hear_all :
      (index len : ℕ) (x : Talk E)
      → 0 < len
      → io_bytes pins bus len true index len 0 (mid V true (giving 7 (offer x.dev)) x)
        ≡ concluded V (left true) (left true) (hear V len index len 0 x)
  hear_all index zero x h = absurd (omega arith)
  hear_all index (suc n) x h = hear-at n index (suc n) 0 true x (omega arith)

  -- A message: the address and the bytes.
  body-at :
      (target_addr index : ℕ) (m : Mps2I2cMsg) (x : Talk E)
      → 0 < m.len
      → message_body pins bus target_addr index m (mid V false (getting true 0 0) x)
        ≡ concluded V
            (rest_behind V (has_flag m.flags msg_read))
            (left true)
            (talk_message V target_addr index m x)
  unfolding message_body talk_message
  body-at target_addr index m x h =
      let reads = has_flag m.flags msg_read in
      ap (λ o. continue o (λ _. io_bytes pins bus m.len reads index m.len 0))
        (call-at target_addr reads x)
      ∙ exchanged reads (call V target_addr reads x)
    where
      exchanged :
          (reads : Bool) (o : Outcome Void × Talk E)
          → continue (called reads o) (λ _. io_bytes pins bus m.len reads index m.len 0)
            ≡ concluded V
                (rest_behind V reads)
                (left true)
                (continue o (λ _. exchange V reads index m.len))
      exchanged true (value tt, y) = hear_all index m.len y h
      exchanged false (value tt, y) = tell-at m.len index m.len 0 y
      exchanged true (returned rc, y) = refl
      exchanged false (returned rc, y) = refl

  one-at :
      (target_addr index : ℕ) (active : Bool) (m : Mps2I2cMsg) (r : Rest) (x : Talk E)
      → 0 < m.len
      → one_message pins bus target_addr index active m (on_lines V r x)
        ≡ concluded V (rest_of V m) idle (talk_one V target_addr index m x)
  unfolding one_message stop_anyway talk_one
  one-at target_addr index active m r x h =
      rw (begin-at active r x, body-at target_addr index m x h)
        (stopped_at (has_flag m.flags msg_stop) (has_flag m.flags msg_read)
          (talk_message V target_addr index m x))
    where
      stopped_at :
          (stops reads : Bool) (o : Outcome Void × Talk E)
          → continue
              (on_error_of (concluded V (rest_behind V reads) (left true) o) (stop_anyway pins bus))
              (λ _. if stops then on_wires (generate_stop pins bus) else pure tt)
            ≡ concluded V
                (if stops then idle else rest_behind V reads)
                idle
                (continue (on_error_of o (bye V)) (λ _. if stops then act (bye V) else pure tt))
      stopped_at true reads (value tt, y) = rw (stop-at reads y.dev) refl
      stopped_at false reads (value tt, y) = refl
      stopped_at stops reads (returned rc, y) = rw (stop-at true y.dev) refl

  pub all-at :
      (target_addr : ℕ) (ms : List Mps2I2cMsg) (index : ℕ) (active : Bool) (r : Rest) (x : Talk E)
      → AllFilled ms
      → all_messages pins bus target_addr ms index active (on_lines V r x)
        ≡ concluded V (rest_of_all V r ms) idle (talk V target_addr ms index x)
  unfolding all_messages talk
  all-at target_addr [] index active r x h = refl
  all-at target_addr (m ∷ ms) index active r x h = rw (one-at target_addr index active m r x h.0) (
      further (talk_one V target_addr index m x)
        (λ y. all-at target_addr ms (suc index) true (rest_of V m) y h.1))
    where
      further :
          (o : Outcome Void × Talk E)
          → ((y : Talk E)
              → all_messages pins bus target_addr ms (suc index) true (on_lines V (rest_of V m) y)
                ≡ concluded V
                    (rest_of_all V (rest_of V m) ms)
                    idle
                    (talk V target_addr ms (suc index) y))
          → continue
              (concluded V (rest_of V m) idle o)
              (λ _. all_messages pins bus target_addr ms (suc index) true)
            ≡ concluded V
                (rest_of_all V (rest_of V m) ms)
                idle
                (continue o (λ _. talk V target_addr ms (suc index)))
      further (value tt, y) rest = rest y
      further (returned rc, y) rest = refl
