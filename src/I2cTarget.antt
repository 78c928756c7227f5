-- ===== src/I2cTarget.antt =====
-- What hangs on the lines of an I2C bus: open-drain lines that each side can pull low, and a target
-- that sees the edges of the clock and the START and STOP conditions.
pub mod Bits
pub mod Slave
pub mod Bytes
use cortex_m3_embedded_debug.Base.{
  ℕ, zero, suc, ◌+◌, Bool, true, false, not, ◌&&◌, ◌!=◌, if◌then◌else◌, bit_and,
}
use cortex_m3_embedded_debug.I2cLine.{Pins}

-- `sda_out` is false while the target pulls SDA low; `stretch` is for how many reads of the lines
-- it holds SCL low after the master has released it. `on_rise` gets the level of SDA.
pub record Target : Type 1 where
  pub D : Type 0
  pub sda_out : D → Bool
  pub stretch : D → ℕ
  pub on_start : D → D
  pub on_stop : D → D
  pub on_rise : Bool → D → D
  pub on_fall : D → D

-- `sda` and `scl` say that the master has released the line; SCL is high when nothing is `waiting`.
pub record Wires (D : Type 0) : Type 0 where
  pub sda : Bool
  pub scl : Bool
  pub waiting : ℕ
  pub device : D

module _ (T : Target) where
  open T use {D, sda_out, stretch, on_start, on_stop, on_rise, on_fall}

  -- SCL is high, and SDA is as the target leaves it.
  abbrev pub up : Bool → D → Wires D
  up s d = record { sda = s; scl = true; waiting = 0; device = d }

  -- The master pulls SCL low.
  abbrev pub low : Bool → D → Wires D
  low s d = record { sda = s; scl = false; waiting = 0; device = d }

  -- The master has released SCL, and the target holds it for `n` reads.
  abbrev pub rising : ℕ → Bool → D → Wires D
  rising zero s d = up s (on_rise (s && sda_out d) d)
  rising (suc n) s d = record { sda = s; scl = true; waiting = suc n; device = d }

  -- A condition is seen where the level of SDA changes while SCL is high.
  abbrev pub sda_up : Bool → ℕ → D → D
  sda_up true zero d = if sda_out d then on_stop d else d
  sda_up true (suc n) d = d
  sda_up false n d = d

  abbrev pub sda_down : Bool → ℕ → D → D
  sda_down true zero d = if sda_out d then on_start d else d
  sda_down true (suc n) d = d
  sda_down false n d = d

  abbrev pub release_sda : Wires D → Wires D
  release_sda w =
      if w.sda then w else record w { sda = true; device = sda_up w.scl w.waiting w.device }

  abbrev pub pull_sda : Wires D → Wires D
  pull_sda w =
      if w.sda then record w { sda = false; device = sda_down w.scl w.waiting w.device } else w

  abbrev pub release_scl : Wires D → Wires D
  release_scl w = if w.scl then w else rising (stretch w.device) w.sda w.device

  abbrev pub fallen : ℕ → D → D
  fallen zero d = on_fall d
  fallen (suc n) d = d

  abbrev pub pull_scl : Wires D → Wires D
  pull_scl w = if w.scl then low w.sda (fallen w.waiting w.device) else w

  abbrev pub passed : ℕ → Wires D → Wires D
  passed zero w = w
  passed (suc n) w = rising n w.sda w.device

  abbrev pub scl_level : Bool → ℕ → ℕ
  scl_level true zero = 1
  scl_level true (suc n) = 0
  scl_level false n = 0

  abbrev pub sda_level : Bool → ℕ
  sda_level true = 2
  sda_level false = 0

  -- SCL is bit 0 of the registers and SDA is bit 1.
  abbrev pub open_drain : Pins
  open_drain = record {
    W = Wires D;
    sda_mask = 2;
    scl_mask = 1;
    set_lines = λ mask w.
        let w' = if bit_and mask 1 != 0 then release_scl w else w in
        if bit_and mask 2 != 0 then release_sda w' else w';
    clear_lines = λ mask w.
        let w' = if bit_and mask 1 != 0 then pull_scl w else w in
        if bit_and mask 2 != 0 then pull_sda w' else w';
    control = λ w.
        (scl_level w.scl w.waiting + sda_level (w.sda && sda_out w.device), passed w.waiting w);
    nop = λ w. w;
  }
