-- ===== src/I2cTarget/Bits.antt =====
-- The conditions and the bits, as the target sees them.
use cortex_m3_embedded_debug.Base.{
  ℕ, zero, suc, ◌+◌, ◌<◌, ◌≡◌, refl, ap, ◌∙◌, Bool, true, false, ◌&&◌, ◌==◌, ◌!=◌, ◌-◌,
  if◌then◌else◌, bit_and, arith,
}
use cortex_m3_embedded_debug.Base.Exec.{value}
use cortex_m3_embedded_debug.I2cLine.{
  Mps2I2cBus, nops, bit_delay, sda_is_high, scl_is_high, sda_release, scl_release, sda_drive_low,
  scl_drive_low, poll_scl, wait_scl_high, bus_is_idle, generate_start, generate_stop, write_bit,
  read_bit,
}
use cortex_m3_embedded_debug.I2cTarget.{Target, Wires, up, low, rising, open_drain, sda_level}

-- what the register shows

module _ (T : Target) where
  scl_seen_high : (b : Bool) → (bit_and (1 + sda_level T b) 1 != 0) ≡ true
  scl_seen_high true = refl
  scl_seen_high false = refl

  scl_seen_low : (b : Bool) → (bit_and (0 + sda_level T b) 1 != 0) ≡ false
  scl_seen_low true = refl
  scl_seen_low false = refl

  sda_seen : (b : Bool) → (bit_and (1 + sda_level T b) 2 != 0) ≡ b
  sda_seen true = refl
  sda_seen false = refl

  idle_seen : (b : Bool) → (bit_and (1 + sda_level T b) 3 == 3) ≡ b
  idle_seen true = refl
  idle_seen false = refl

module _ (T : Target) (bus : Mps2I2cBus) where
  open T use {D, sda_out, stretch, on_start, on_stop, on_rise, on_fall}

  still : (n : ℕ) (w : Wires D) → nops (open_drain T) bus n w ≡ w
  unfolding nops
  still zero w = refl
  still (suc n) w = still n w

  delay-at : (w : Wires D) → bit_delay (open_drain T) bus w ≡ w
  unfolding bit_delay
  delay-at w = still bus.delay_cycles w

  poll-up :
      (fuel : ℕ) (s : Bool) (d : D)
      → poll_scl (open_drain T) bus (suc fuel) (up T s d) ≡ (value tt, up T s d)
  unfolding poll_scl scl_is_high
  poll-up fuel s d =
      rw (scl_seen_high T (s && sda_out d)) (ap (λ w. (value tt, w)) (delay-at (up T s d)))

  -- SCL is seen high as soon as nothing holds it.
  poll-at :
      (fuel n : ℕ) (s : Bool) (d : D)
      → n < fuel
      → poll_scl (open_drain T) bus fuel (rising T n s d)
        ≡ (value tt, up T s (on_rise (s && sda_out d) d))
  unfolding poll_scl scl_is_high
  poll-at zero n s d h = absurd (omega arith)
  poll-at (suc fuel) zero s d h = poll-up fuel s (on_rise (s && sda_out d) d)
  poll-at (suc fuel) (suc n) s d h =
      rw (scl_seen_low T (s && sda_out d)) (poll-at fuel n s d (omega arith))

module _ (T : Target) (bus : Mps2I2cBus)
    (quick : (d : T.D) → T.stretch d < bus.timeout_cycles) where
  open T use {D, sda_out, stretch, on_start, on_stop, on_rise, on_fall}

  wait-at :
      (s : Bool) (d : D)
      → wait_scl_high (open_drain T) bus (low T s d)
        ≡ (value tt, up T s (on_rise (s && sda_out d) d))
  unfolding wait_scl_high scl_release
  wait-at s d =
      rw (delay-at T bus (rising T (stretch d) s d))
        (poll-at T bus bus.timeout_cycles (stretch d) s d (quick d))

  wait-up : (s : Bool) (d : D) → wait_scl_high (open_drain T) bus (up T s d) ≡ (value tt, up T s d)
  unfolding wait_scl_high scl_release
  wait-up s d =
      let some_time : bus.timeout_cycles ≡ suc (bus.timeout_cycles - 1) = omega (arith, quick d) in
      rw (delay-at T bus (up T s d)) (
        ap (λ (n : ℕ). poll_scl (open_drain T) bus n (up T s d)) some_time
        ∙ poll-up T bus (bus.timeout_cycles - 1) s d)

  sda_is_high-at :
      (s : Bool) (d : D)
      → sda_is_high (open_drain T) bus (up T s d) ≡ (value (s && sda_out d), up T s d)
  unfolding sda_is_high
  sda_is_high-at s d = rw (sda_seen T (s && sda_out d)) refl

  idle-at :
      (s : Bool) (d : D)
      → bus_is_idle (open_drain T) bus (up T s d) ≡ (value (s && sda_out d), up T s d)
  unfolding bus_is_idle
  idle-at s d = rw (idle_seen T (s && sda_out d)) refl

  release-low : (s : Bool) (d : D) → sda_release (open_drain T) bus (low T s d) ≡ low T true d
  unfolding sda_release
  release-low true d = delay-at T bus (low T true d)
  release-low false d = delay-at T bus (low T true d)

  drive-low : (s : Bool) (d : D) → sda_drive_low (open_drain T) bus (low T s d) ≡ low T false d
  unfolding sda_drive_low
  drive-low true d = delay-at T bus (low T false d)
  drive-low false d = delay-at T bus (low T false d)

  clock-low : (s : Bool) (d : D) → scl_drive_low (open_drain T) bus (up T s d) ≡ low T s (on_fall d)
  unfolding scl_drive_low
  clock-low s d = delay-at T bus (low T s (on_fall d))

  clock_still : (s : Bool) (d : D) → scl_drive_low (open_drain T) bus (low T s d) ≡ low T s d
  unfolding scl_drive_low
  clock_still s d = delay-at T bus (low T s d)

  release-up : (d : D) → sda_release (open_drain T) bus (up T true d) ≡ up T true d
  unfolding sda_release
  release-up d = delay-at T bus (up T true d)

  -- SDA falls and rises while SCL is high.
  start_edge :
      (d : D)
      → sda_out d ≡ true
      → sda_drive_low (open_drain T) bus (up T true d) ≡ up T false (on_start d)
  unfolding sda_drive_low
  start_edge d h = rw h (delay-at T bus (up T false (on_start d)))

  stop_edge :
      (d : D)
      → sda_out d ≡ true
      → sda_release (open_drain T) bus (up T false d) ≡ up T true (on_stop d)
  unfolding sda_release
  stop_edge d h = rw h (delay-at T bus (up T true (on_stop d)))

  -- One clock pulse with `b` on SDA.
  pub write_bit-at :
      (b s : Bool) (d : D)
      → write_bit (open_drain T) bus b (low T s d)
        ≡ (value tt, low T b (on_fall (on_rise (b && sda_out d) d)))
  unfolding write_bit
  write_bit-at true s d =
      rw (release-low s d, wait-at true d, clock-low true (on_rise (sda_out d) d)) refl
  write_bit-at false s d =
      rw (drive-low s d, wait-at false d, clock-low false (on_rise false d)) refl

  -- One clock pulse with SDA released.
  pub read_bit-at :
      (s : Bool) (d : D)
      → read_bit (open_drain T) bus (low T s d) ≡ (
        value (if sda_out (on_rise (sda_out d) d) then 1 else 0),
        low T true (on_fall (on_rise (sda_out d) d)),
      )
  unfolding read_bit
  read_bit-at s d =
      let d1 = on_rise (sda_out d) d in
      rw (release-low s d, wait-at true d, sda_is_high-at true d1, clock-low true d1) refl

  -- START on an idle bus
  pub start-up :
      (d : D)
      → sda_out d ≡ true
      → generate_start (open_drain T) bus (up T true d)
        ≡ (value tt, low T false (on_fall (on_start d)))
  unfolding generate_start
  start-up d h =
      rw
        (
          release-up d,
          wait-up true d,
          sda_is_high-at true d,
          h,
          start_edge d h,
          clock-low false (on_start d),
        )
        refl

  -- a repeated START
  pub start-low :
      (s : Bool) (d : D)
      → sda_out (on_rise (sda_out d) d) ≡ true
      → generate_start (open_drain T) bus (low T s d)
        ≡ (value tt, low T false (on_fall (on_start (on_rise (sda_out d) d))))
  unfolding generate_start
  start-low s d h =
      let d1 = on_rise (sda_out d) d in
      rw
        (
          release-low s d,
          wait-at true d,
          sda_is_high-at true d1,
          h,
          start_edge d1 h,
          clock-low false (on_start d1),
        )
        refl

  pub stop-low :
      (s : Bool) (d : D)
      → sda_out (on_rise false d) ≡ true
      → sda_out (on_stop (on_rise false d)) ≡ true
      → generate_stop (open_drain T) bus (low T s d)
        ≡ (value tt, up T true (on_stop (on_rise false d)))
  unfolding generate_stop
  stop-low s d h k =
      let d1 = on_rise false d in
      rw
        (
          clock_still s d,
          drive-low s d,
          wait-at false d,
          stop_edge d1 h,
          idle-at true (on_stop d1),
          k,
        )
        refl
