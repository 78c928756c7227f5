-- ===== src/I2cTarget/Slave.antt =====
-- A device that deals in bytes, behind the shift register of an I2C target.
use cortex_m3_embedded_debug.Base.{
  ℕ, zero, suc, ◌+◌, ◌*◌, ◌/◌, ◌%◌, ◌^◌, Bool, true, false, not, ◌==◌, if◌then◌else◌,
}
use cortex_m3_embedded_debug.I2cTarget.{Target}

-- `address` and `take` answer whether the byte is acknowledged. `offer` is the byte that the master
-- reads next, and `given` is told whether the master wants a further one.
pub record Device : Type 1 where
  pub E : Type 0
  pub address : ℕ → E → Bool × E
  pub take : ℕ → E → Bool × E
  pub offer : E → ℕ
  pub given : Bool → E → E
  pub stopped : E → E
  pub holds : E → ℕ

-- The phase of a transfer: not addressed; `n` bits of the first or of a further byte have come, with
-- the value so far; the ninth bit of such a byte, pulled low; bit `n` of a byte is on the line; the
-- ninth bit of that byte, with what the master has answered.
pub data Phase : Type 0 where
  off : Phase
  getting : Bool → ℕ → ℕ → Phase
  acking : Bool → Phase
  giving : ℕ → ℕ → Phase
  listening : Bool → Phase

module _ (V : Device) where
  open V use {E, address, take, offer, given, stopped, holds}

  abbrev pub Shift : Type 0
  Shift = Phase × E

  -- after a byte: its ninth bit, or nothing more where it is refused
  abbrev pub answered : Bool → Bool × E → Shift
  answered reads (true, e) = (acking reads, e)
  answered reads (false, e) = (off, e)

  abbrev pub complete : Bool → ℕ → E → Shift
  complete true byte e = answered (byte % 2 == 1) (address byte e)
  complete false byte e = answered false (take byte e)

  abbrev pub resumed : Bool → E → Shift
  resumed true e = (giving 7 (offer e), e)
  resumed false e = (off, e)

  -- after the ninth bit of a byte that was acknowledged
  abbrev pub acknowledged : Bool → E → Shift
  acknowledged true e = (giving 7 (offer e), e)
  acknowledged false e = (getting false 0 0, e)

  abbrev pub slave_fall : Shift → Shift
  slave_fall (off, e) = (off, e)
  slave_fall (getting first n acc, e) =
      if n == 8 then complete first acc e else (getting first n acc, e)
  slave_fall (acking reads, e) = acknowledged reads e
  slave_fall (giving zero byte, e) = (listening false, e)
  slave_fall (giving (suc n) byte, e) = (giving n byte, e)
  slave_fall (listening wanted, e) = resumed wanted (given wanted e)

  abbrev pub slave_rise : Bool → Shift → Shift
  slave_rise level (off, e) = (off, e)
  slave_rise level (getting first n acc, e) =
      (getting first (suc n) (acc * 2 + (if level then 1 else 0)), e)
  slave_rise level (acking reads, e) = (acking reads, e)
  slave_rise level (giving n byte, e) = (giving n byte, e)
  slave_rise level (listening wanted, e) = (listening (not level), e)

  abbrev pub slave_out : Shift → Bool
  slave_out (off, e) = true
  slave_out (getting first n acc, e) = true
  slave_out (acking reads, e) = false
  slave_out (giving n byte, e) = byte / 2 ^ n % 2 == 1
  slave_out (listening wanted, e) = true

  abbrev pub slave : Target
  slave = record {
    D = Shift;
    sda_out = slave_out;
    stretch = λ d. holds d.1;
    on_start = λ d. (getting true 0 0, d.1);
    on_stop = λ d. (off, stopped d.1);
    on_rise = slave_rise;
    on_fall = slave_fall;
  }
