-- ===== src/RxManager/Machine.antt =====
-- The driver and the manager together, as one machine: which buffer is being filled and how far,
-- whether the second buffer is there, and whether a stop is due. The specification of the handler.
use cortex_m3_embedded_debug.Base.{
  ℕ, ◌+◌, Bool, true, false, not, some, [], ◌∷◌, ◌==◌, ◌!=◌, ltb, if◌then◌else◌, u8, u32, bit_and,
}
use cortex_m3_embedded_debug.Zephyr.RingBuf.{RingBuf}
use cortex_m3_embedded_debug.UartAsync.{
  World, Uart, Regs, RxState, rx_active, rx_stopping, store, int_rx, int_rxor, state_rxor,
  state_rxbf, data_mask,
}
use cortex_m3_embedded_debug.UartAsync.Isr.{error_overrun}
use cortex_m3_embedded_debug.RxManager.{buf_at}
use cortex_m3_embedded_debug.RxManager.Events.{index, Manager, at, reported}
use cortex_m3_embedded_debug.RxManager.Finish.{
  holding, idle, quiet, owning, disabled, rest_reported, stop_noted,
}

-- `on s first stop pos`: `pos` bytes are in the buffer `s`; `first` says that the second buffer is
-- still to be asked for, `stop` that a stop is due.
pub data Phase : Type 0 where
  off : Phase
  on : Bool → Bool → Bool → ℕ → Phase

abbrev pub state_of : Bool → RxState
state_of false = rx_active
state_of true = rx_stopping

-- the fields that the phase does not determine
abbrev pub receiving : Bool → Bool → Uart → Uart
receiving first stop u = record u {
  state = state_of stop;
  initial_request = first;
  request_outstanding = false;
}

module _ (B : RingBuf) where
  open B use {Ring}

  -- Of `uart` only the counters count, and of `manager` all but the owners and `enabled`.
  pub record Machine : Type 0 where
    pub phase : Phase
    pub uart : Uart
    pub regs : Regs
    pub mem : ℕ → ℕ
    pub manager : Manager B

  abbrev pub enabled_with : Bool → Bool → Manager B → Manager B
  enabled_with s next m = owning B s next (record m { enabled = true })

  abbrev pub world : Phase → Uart → Regs → (ℕ → ℕ) → Manager B → World (Manager B)
  world off u g mem m =
      at B (idle u) g mem (record m { driver_owned = false ∷ false ∷ []; enabled = false })
  world (on s first stop pos) u g mem m =
      at B (holding s (not first) pos 0 m.driver_buf (receiving first stop u)) g mem
        (enabled_with s (not first) m)

  abbrev pub world_of : Machine → World (Manager B)
  world_of a = world a.phase a.uart a.regs a.mem a.manager

  abbrev pub requested : Manager B → Manager B
  requested m = record m { request_events = u32 (m.request_events + 1) }

  abbrev pub first_requested : Bool → Manager B → Manager B
  first_requested false m = m
  first_requested true m = requested m

  -- the end of a reception for a reason
  abbrev pub ended : ℕ → Bool → Bool → ℕ → Uart → Regs → (ℕ → ℕ) → Manager B → Machine
  ended reason s next pos u g mem m = record {
    phase = off;
    uart = u;
    regs = quiet g;
    mem = mem;
    manager = disabled B next (rest_reported B s pos mem (stop_noted B reason m));
  }

  -- a full buffer is reported and comes back, and goes to the driver again as the next one
  abbrev pub turned : Bool → (ℕ → ℕ) → Manager B → Manager B
  turned s mem m =
      let m' = reported B s 8 mem m in
      requested (record m' { released_events = u32 (m'.released_events + 1) })

  -- the byte `c` comes in
  abbrev pub byte_in : ℕ → Bool → ℕ → Uart → Regs → (ℕ → ℕ) → Manager B → Machine
  byte_in c s pos u g mem m =
      let mem' = store (some (buf_at m.driver_buf (index s) + pos)) c mem in
      let u' = record u { hardware_bytes = u32 (u.hardware_bytes + 1) } in
      if ltb (pos + 1) 8
      then record {
        phase = on s false false (pos + 1);
        uart = u';
        regs = g;
        mem = mem';
        manager = m;
      }
      else record {
        phase = on (not s) false false 0;
        uart = u';
        regs = g;
        mem = mem';
        manager = turned s mem' m;
      }

  -- what the registers show decides
  abbrev pub served : ℕ → ℕ → Bool → ℕ → Uart → Regs → (ℕ → ℕ) → Manager B → Machine
  served status datum s pos u g mem m =
      if bit_and status state_rxor != 0
      then ended error_overrun s true pos
          (record u { hardware_overruns = u32 (u.hardware_overruns + 1) })
          (record g { intclear = int_rxor }) mem m
      else if bit_and status state_rxbf == 0
      then record { phase = on s false false pos; uart = u; regs = g; mem = mem; manager = m }
      else byte_in (u8 (bit_and datum data_mask)) s pos u g mem m

  abbrev pub handled : ℕ → ℕ → Phase → Uart → Regs → (ℕ → ℕ) → Manager B → Machine
  handled status datum off u g mem m = record {
    phase = off;
    uart = u;
    regs = g;
    mem = mem;
    manager = m;
  }
  handled status datum (on s first true pos) u g mem m = ended 0 s (not first) pos u g mem m
  handled status datum (on s first false pos) u g mem m =
      served status datum s pos u g mem (first_requested first m)

  -- One interrupt.
  unfoldable pub interrupt : ℕ → ℕ → Machine → Machine
  interrupt status datum a =
      handled status datum a.phase (record (a.uart) { irq_entries = u32 (a.uart.irq_entries + 1) })
        (record (a.regs) { intclear = int_rx }) a.mem a.manager
