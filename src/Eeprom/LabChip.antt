-- ===== src/Eeprom/LabChip.antt =====
-- A small serial EEPROM for the runs: pages of 8 cells, one address byte, address 0x50.
use cortex_m3_embedded_debug.Base.{
  ◌&&◌, ◌*◌, ap, leb, u8, length, get_or, ℕ, ◌+◌, ◌-◌, ◌/◌, ◌<◌, ◌≡◌, refl, Bool, true, false, List,
  [], ◌∷◌, ◌++◌, ◌==◌, if◌then◌else◌, arith,
}
use cortex_m3_embedded_debug.I2cLine.{Pins, Mps2I2cBus}
use cortex_m3_embedded_debug.I2cTarget.Slave.{Device}
use cortex_m3_embedded_debug.Mps2I2c.{bus_valid}
use cortex_m3_embedded_debug.Mps2I2c.Conversation.{pins}
use cortex_m3_embedded_debug.Eeprom.Chip.{Chip, programmed}
use cortex_m3_embedded_debug.Eeprom.Cycle.{WriteCycle}

-- the bytes since the chip was called, where a read goes on, how many calls it refuses, and its cells
pub record Memory : Type 0 where
  pub got : List ℕ
  pub cursor : ℕ
  pub busy : ℕ
  pub memory : ℕ → ℕ

abbrev pub called : ℕ → Memory → Bool × Memory
called byte m = (
  (byte / 2 == 0x50) && (m.busy == 0),
  record {
    got = [];
    cursor = if length m.got == 1 then get_or m.got 0 0 else m.cursor;
    busy = m.busy - 1;
    memory = m.memory;
  },
)

abbrev pub stored_page : Memory → Memory
stored_page m = record m {
  got = [];
  memory = programmed 1 8 m.got m.memory;
  busy = if leb (length m.got) 1 then m.busy else 2;
}

abbrev pub chip : Device
chip = record {
  E = Memory;
  address = called;
  take = λ byte m. (true, record m { got = m.got ++ (byte ∷ []) });
  offer = λ m. u8 (m.memory m.cursor);
  given = λ wanted m. record m { cursor = m.cursor + 1 };
  stopped = stored_page;
  holds = λ m. 2;
}

abbrev pub lab_chip : Chip chip 0x50 1 8
lab_chip = record {
  cells = λ m. m.memory;
  got = λ m. m.got;
  cursor = λ m. m.cursor;
  offer_cell = λ e. refl;
  address_cells = λ a e. refl;
  address_got = λ a e. refl;
  address_cursor = λ e h. rw h refl;
  take_cells = λ v e. refl;
  take_got = λ v e. refl;
  given_cells = λ wanted e. refl;
  given_got = λ wanted e. refl;
  given_cursor = λ wanted e. refl;
  stopped_cells = λ e. refl;
  stopped_got = λ e. refl;
}

-- While it is busy the cells are not settled; here they show zeros.
abbrev pub lab_memory : Memory → ℕ → ℕ
lab_memory m a = if m.busy == 0 then m.memory a else 0

probed :
    (e : Memory)
    → (called (0x50 * 2) e).0 ≡ true
    → ((stored_page (called (0x50 * 2) e).1).busy == 0) ≡ true
probed e h = ground arith

called_ack :
    (reads : Bool) (e : Memory)
    → (e.busy == 0) ≡ true
    → (called (0x50 * 2 + (if reads then 1 else 0)) e).0 ≡ true
called_ack true e h = rw h refl
called_ack false e h = rw h refl

called_up :
    (reads : Bool) (e : Memory)
    → (e.busy == 0) ≡ true
    → ((called (0x50 * 2 + (if reads then 1 else 0)) e).1.busy == 0) ≡ true
called_up reads e h = ground arith

pub lab_cycle : WriteCycle chip 0x50 1 8 lab_chip
lab_cycle = record {
  memory = lab_memory;
  awake = λ m. m.busy == 0;
  settled = λ e h. ap {B = ℕ → ℕ} (λ (b : Bool) (a : ℕ). if b then e.memory a else 0) h;
  probe_awake = λ e h. probed e h;
  call_acknowledged = called_ack;
  call_awake = called_up;
  take_acknowledged = λ v e h room. refl;
  take_awake = λ v e h. h;
}

abbrev pub lab_bus : Mps2I2cBus
lab_bus = record { has_regs = true; delay_cycles = 3; timeout_cycles = 20 }

pub lab_bus_lem : bus_valid lab_bus ≡ true
unfolding bus_valid
lab_bus_lem = refl

abbrev pub quick : (e : Memory) → 2 < 20
quick e = omega arith

abbrev pub bytes : (e : Memory) → u8 (e.memory e.cursor) < 256
bytes e = omega arith

abbrev pub lines : Pins
lines = pins chip lab_bus quick bytes

abbrev pub fresh : Memory
fresh = record { got = []; cursor = 7; busy = 2; memory = λ a. 255 }

abbrev pub ready_chip : Memory
ready_chip = record { got = []; cursor = 7; busy = 0; memory = λ a. a + 40 }
