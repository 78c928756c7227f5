-- ===== src/I2cTarget/Bytes.antt =====
-- The bytes that the master writes and reads are the bytes of the device.
use cortex_m3_embedded_debug.Base.{
  ℕ, zero, suc, ◌+◌, ◌*◌, ◌/◌, ◌%◌, ◌^◌, ◌<◌, ◌≡◌, refl, ap, ◌∙◌, Bool, true, false, eq_or_ne, inl,
  inr, not, ◌&&◌, ◌==◌, ◌!=◌, if◌then◌else◌, bit_and, u8, arith, ==→eq,
}
use cortex_m3_embedded_debug.Base.Bits.{all_below, all_below_sound}
use cortex_m3_embedded_debug.Base.Bits.Mask.{shift_in}
use cortex_m3_embedded_debug.Base.Exec.{Void, Outcome, value, returned}
use cortex_m3_embedded_debug.I2cLine.{
  Mps2I2cBus, i2c_err_nack, write_bits, write_byte, read_bits, read_byte, receive_ack,
}
use cortex_m3_embedded_debug.I2cTarget.{Wires, low, open_drain}
use cortex_m3_embedded_debug.I2cTarget.Bits.{write_bit-at, read_bit-at}
use cortex_m3_embedded_debug.I2cTarget.Slave.{
  Device, Phase, off, getting, acking, giving, listening, Shift, complete, answered, acknowledged,
  resumed, slave_fall, slave,
}

-- what the shift register holds after `n` bits
shifted_in : ℕ → ℕ → ℕ → ℕ
shifted_in zero acc byte = acc
shifted_in (suc n) acc byte =
    shifted_in n (acc * 2 + (if bit_and byte 0x80 != 0 then 1 else 0)) (u8 (byte * 2))

-- the level of SDA after the last of `n` bits
sda_after : ℕ → Bool → ℕ → Bool
sda_after zero s byte = s
sda_after (suc n) s byte = sda_after n (bit_and byte 0x80 != 0) (u8 (byte * 2))

shifted_in-byte : (byte : ℕ) → byte < 256 → shifted_in 8 0 byte ≡ byte
unfolding shifted_in all_below
shifted_in-byte byte h = ==→eq _ _ (all_below_sound 256 (λ b. shifted_in 8 0 b == b) byte refl h)

not-not : (b : Bool) → not (not b) ≡ b
not-not true = refl
not-not false = refl

as_bit : (x : ℕ) → (if x % 2 == 1 then 1 else 0) ≡ x % 2
as_bit x = elim (eq_or_ne (x % 2) 1) [
  | inl e ↦ rw e refl
  | inr ne ↦ let unset : x % 2 ≡ 0 = omega arith in rw unset refl
]

and_true : (b : Bool) → (b && true) ≡ b
and_true true = refl
and_true false = refl

-- what the master gathers from `n` bits
gathered : ℕ → ℕ → ℕ → ℕ
gathered zero acc byte = acc
gathered (suc n) acc byte = gathered n (u8 (acc * 2 + byte / 2 ^ n % 2)) byte

gathered-byte : (byte : ℕ) → byte < 256 → gathered 8 0 byte ≡ byte
unfolding gathered
gathered-byte b h = omega arith

module _ (V : Device) (bus : Mps2I2cBus) (quick : (e : V.E) → V.holds e < bus.timeout_cycles) where
  open V use {E, address, take, offer, given, stopped}

  write_bits-at :
      (n k : ℕ) (first s : Bool) (acc byte : ℕ) (e : E)
      → k + n ≡ 8
      → write_bits
          (open_drain (slave V))
          bus
          n
          byte
          (low (slave V) s (slave_fall V (getting first k acc, e)))
        ≡ (
          value tt,
          low (slave V) (sda_after n s byte) (complete V first (shifted_in n acc byte) e),
        )
  unfolding write_bits sda_after shifted_in
  write_bits-at zero k first s acc byte e h = let full : k ≡ 8 = omega arith in rw full refl
  write_bits-at (suc n) k first s acc byte e h =
      let more : (k == 8) ≡ false = ground arith in
      let bit = bit_and byte 0x80 != 0 in
      rw (more, write_bit-at (slave V) bus (λ d. quick d.1) bit s (getting first k acc, e))
        (rw (and_true bit) (
          write_bits-at n (suc k) first bit (acc * 2 + (if bit then 1 else 0)) (u8 (byte * 2)) e
            (omega arith)))

  -- what `write_byte` ends with
  abbrev pub write_result : Bool → Bool × E → Outcome Void × Wires (Shift V)
  write_result reads (true, e) = (value tt, low (slave V) true (acknowledged V reads e))
  write_result reads (false, e) = (returned i2c_err_nack, low (slave V) true (off, e))

  receive_ack-at :
      (s reads : Bool) (r : Bool × E)
      → receive_ack (open_drain (slave V)) bus (low (slave V) s (answered V reads r))
        ≡ write_result reads r
  unfolding receive_ack
  receive_ack-at s reads (true, e) =
      rw (read_bit-at (slave V) bus (λ d. quick d.1) s (acking reads, e)) refl
  receive_ack-at s reads (false, e) =
      rw (read_bit-at (slave V) bus (λ d. quick d.1) s (off, e)) refl

  abbrev pub written : Bool → ℕ → E → Outcome Void × Wires (Shift V)
  written true byte e = write_result (byte % 2 == 1) (address byte e)
  written false byte e = write_result false (take byte e)

  -- The device gets the byte that is written, and its answer is the status.
  pub write_byte-at :
      (first s : Bool) (byte : ℕ) (e : E)
      → byte < 256
      → write_byte (open_drain (slave V)) bus byte (low (slave V) s (getting first 0 0, e))
        ≡ written first byte e
  unfolding write_byte
  write_byte-at first s byte e h =
      rw (write_bits-at 8 0 first s 0 byte e refl, shifted_in-byte byte h) (after first)
    where
      after :
          (f : Bool)
          → receive_ack
              (open_drain (slave V))
              bus
              (low (slave V) (sda_after 8 s byte) (complete V f byte e))
            ≡ written f byte e
      after true = receive_ack-at (sda_after 8 s byte) (byte % 2 == 1) (address byte e)
      after false = receive_ack-at (sda_after 8 s byte) false (take byte e)

  -- the phase with `n` bits still to come
  bits_left : ℕ → ℕ → Phase
  bits_left zero byte = listening false
  bits_left (suc n) byte = giving n byte

  kept : ℕ → Bool → Bool
  kept zero s = s
  kept (suc n) s = true

  kept-true : (n : ℕ) → kept n true ≡ true
  unfolding kept
  kept-true zero = refl
  kept-true (suc n) = refl

  left-fall : (n byte : ℕ) (e : E) → slave_fall V (giving n byte, e) ≡ (bits_left n byte, e)
  unfolding bits_left
  left-fall zero byte e = refl
  left-fall (suc n) byte e = refl

  read_bits-at :
      (n acc byte : ℕ) (s : Bool) (e : E)
      → acc < 256
      → read_bits (open_drain (slave V)) bus n acc (low (slave V) s (bits_left n byte, e))
        ≡ (value (gathered n acc byte), low (slave V) (kept n s) (listening false, e))
  unfolding read_bits bits_left kept gathered
  read_bits-at zero acc byte s e h = refl
  read_bits-at (suc n) acc byte s e h =
      rw
        (
          read_bit-at (slave V) bus (λ d. quick d.1) s (giving n byte, e),
          as_bit (byte / 2 ^ n),
          shift_in 8 acc (byte / 2 ^ n % 2) h (omega arith),
        )
        (ap
            (λ d.
              read_bits (open_drain (slave V)) bus n (u8 (acc * 2 + byte / 2 ^ n % 2))
                (low (slave V) true d))
            (left-fall n byte e)
          ∙ read_bits-at n (u8 (acc * 2 + byte / 2 ^ n % 2)) byte true e (omega arith)
          ∙ ap
              (λ t. (
                value (gathered n (u8 (acc * 2 + byte / 2 ^ n % 2)) byte),
                low (slave V) t (listening false, e),
              ))
              (kept-true n))

  -- The master gets the byte that the device offers, and the device is told whether a further one
  -- is wanted.
  pub read_byte-at :
      (wanted s : Bool) (e : E)
      → offer e < 256
      → read_byte (open_drain (slave V)) bus wanted (low (slave V) s (giving 7 (offer e), e))
        ≡ (value (offer e), low (slave V) (not wanted) (resumed V wanted (given wanted e)))
  unfolding read_byte bits_left kept
  read_byte-at wanted s e h =
      rw
        (
          read_bits-at 8 0 (offer e) s e (omega arith),
          gathered-byte (offer e) h,
          write_bit-at (slave V) bus (λ d. quick d.1) (not wanted) true (listening false, e),
        )
        (rw (and_true (not wanted), not-not wanted) refl)
