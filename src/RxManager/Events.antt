-- ===== src/RxManager/Events.antt =====
-- What each event of the driver does to the manager, and to the driver itself.
use cortex_m3_embedded_debug.Base.{
  ℕ, ◌+◌, ◌≤◌, ◌≡◌, refl, Bool, true, false, not, some, none, List, [], ◌∷◌, get_or, set, ltb, u32,
  sub32, arith, fail, eio,
}
use cortex_m3_embedded_debug.Zephyr.Eeprom.{slice}
use cortex_m3_embedded_debug.Zephyr.RingBuf.{RingBuf}
use cortex_m3_embedded_debug.UartAsync.{
  World, Uart, Regs, rx_rdy, rx_buf_released, rx_disabled, rx_stopped, Pointer, rx_buf_rsp,
  rx_active, buffers_overlap,
}
use cortex_m3_embedded_debug.UartAsync.Isr.{emit, request_buffer}
use cortex_m3_embedded_debug.RxManager.{RxManager, rx_manager_event, buffer_index, buf_at}

-- the index of a buffer, and of the other one
abbrev pub index : Bool → ℕ
index false = 0
index true = 1

abbrev pub only : Bool → List Bool
only false = true ∷ false ∷ []
only true = false ∷ true ∷ []

pub buffer_index_lem :
    (base : ℕ) (s : Bool) → buffer_index base (some (buf_at base (index s))) ≡ some (index s)
unfolding buffer_index
buffer_index_lem base false = ground arith
buffer_index_lem base true = ground arith

apart :
    (base : ℕ) (s : Bool)
    → buffers_overlap (buf_at base (index (not s))) 8 (buf_at base (index s)) 8 ≡ false
unfolding buffers_overlap
apart base false = ground arith
apart base true = ground arith

module _ (B : RingBuf) where
  open B use {Ring, put}

  abbrev pub Manager : Type 0
  Manager = RxManager Ring

  -- A world between two events: the callback is set and not running, and nothing has gone wrong.
  abbrev pub at : Uart → Regs → (ℕ → ℕ) → Manager → World Manager
  at u g mem m = record {
    uart = record u { callback = true; in_callback = false };
    regs = g;
    mem = mem;
    client = m;
    fault = false;
  }

  -- the manager after a report of the first `len` bytes of the buffer `s`
  abbrev pub reported : Bool → ℕ → (ℕ → ℕ) → Manager → Manager
  reported s len mem m =
      let r = put m.app_ring (slice mem (buf_at m.driver_buf (index s)) len) in
      record m {
        app_ring = r.1;
        ready_events = u32 (m.ready_events + 1);
        bytes_received = u32 (m.bytes_received + len);
        bytes_buffered = u32 (m.bytes_buffered + r.0);
        dropped_bytes = u32 (m.dropped_bytes + sub32 len r.0);
      }

  abbrev pub released : Bool → Manager → Manager
  released s m = record m {
    driver_owned = set m.driver_owned (index s) false;
    released_events = u32 (m.released_events + 1);
  }

  pub emit_rdy :
      (u : Uart) (g : Regs) (mem : ℕ → ℕ) (m : Manager) (s : Bool) (len : ℕ)
      → get_or m.driver_owned (index s) false ≡ true
      → len ≤ 8
      → emit
          (rx_manager_event B)
          (rx_rdy (some (buf_at m.driver_buf (index s))) 0 len)
          (at u g mem m)
        ≡ at u g mem (reported s len mem m)
  unfolding emit rx_manager_event
  emit_rdy u g mem m s len owned fits =
      let short : ltb 8 len ≡ false = ground arith in
      let start : buf_at m.driver_buf (index s) + 0 ≡ buf_at m.driver_buf (index s) = omega arith in
      rw (buffer_index_lem m.driver_buf s, owned, short, start) refl

  pub emit-released :
      (u : Uart) (g : Regs) (mem : ℕ → ℕ) (m : Manager) (s : Bool)
      → get_or m.driver_owned (index s) false ≡ true
      → emit
          (rx_manager_event B)
          (rx_buf_released (some (buf_at m.driver_buf (index s))))
          (at u g mem m)
        ≡ at u g mem (released s m)
  unfolding emit rx_manager_event
  emit-released u g mem m s owned = rw (buffer_index_lem m.driver_buf s, owned) refl

  -- a driver that waits for a second buffer
  abbrev pub waiting : Bool → Uart → ℕ → Uart
  waiting s u base = record u {
    state = rx_active;
    current_buf = some (buf_at base (index s));
    current_len = 8;
    next_buf = none;
  }

  pub request-at :
      (u : Uart) (g : Regs) (mem : ℕ → ℕ) (m : Manager) (s : Bool)
      → request_buffer
          (rx_manager_event B)
          (at (waiting s u m.driver_buf) g mem (record m { driver_owned = only s }))
        ≡ at
            (record (waiting s u m.driver_buf) {
              next_buf = some (buf_at m.driver_buf (index (not s)));
              next_len = 8;
              request_outstanding = false;
            })
            g
            mem
            (record m {
              driver_owned = true ∷ true ∷ [];
              request_events = u32 (m.request_events + 1);
            })
  unfolding request_buffer emit rx_manager_event rx_buf_rsp
  request-at u g mem m false = rw (apart m.driver_buf false) refl
  request-at u g mem m true = rw (apart m.driver_buf true) refl

  pub emit_disabled :
      (u : Uart) (g : Regs) (mem : ℕ → ℕ) (m : Manager)
      → emit (rx_manager_event B) rx_disabled (at u g mem m)
        ≡ at u g mem (record m { enabled = false; disabled_events = u32 (m.disabled_events + 1) })
  unfolding emit rx_manager_event
  emit_disabled u g mem m = refl

  pub emit_stopped :
      (u : Uart) (g : Regs) (mem : ℕ → ℕ) (m : Manager) (reason : ℕ) (buf : Pointer)
      (offset len : ℕ)
      → emit (rx_manager_event B) (rx_stopped reason buf offset len) (at u g mem m)
        ≡ at u g mem (record m {
          stopped_events = u32 (m.stopped_events + 1);
          last_stop_reason = u32 reason;
          last_error = fail eio;
        })
  unfolding emit rx_manager_event
  emit_stopped u g mem m reason buf offset len = refl
