-- ===== src/RxManager.antt =====
-- labs/lab20_uart_async_rx_manager_zephyr/src/rx_manager.c: two buffers that go to the driver and
-- come back, and the ring into which the received bytes are copied.
pub mod Events
pub mod Finish
pub mod Machine
pub mod Refine
pub mod Account
pub mod Delivery
pub mod System
pub mod Service
pub mod Alive
mod Tests
use cortex_m3_embedded_debug.Base.{
  ℕ, zero, suc, ◌+◌, ◌-◌, ◌*◌, Bool, true, false, not, ◌&&◌, ◌||◌, Option, some, none, List, [],
  ◌∷◌, length, get_or, set, ◌==◌, ltb, leb, if◌then◌else◌, u32, sub32, min, Rc, ok, fail, is_ok,
  einval, enodev, enobufs, eio,
}
use cortex_m3_embedded_debug.Zephyr.Eeprom.{slice}
use cortex_m3_embedded_debug.Zephyr.RingBuf.{RingBuf}
use cortex_m3_embedded_debug.UartAsync.{
  World, UartEvent, rx_rdy, rx_buf_request, rx_buf_released, rx_disabled, rx_stopped, tx_event,
  Pointer, forever, callback_set, rx_enable, rx_buf_rsp,
}

abbrev pub rx_driver_count : ℕ
rx_driver_count = 2

abbrev pub rx_driver_size : ℕ
rx_driver_size = 8

abbrev pub rx_ring_size : ℕ
rx_ring_size = 64

-- `struct rx_manager`; `driver_buf` is the address of the two buffers, which stand one behind the
-- other in the memory of the World. `last_error` is 0 or the code of the last error.
pub record RxManager (R : Type 0) : Type 0 where
  pub driver_buf : ℕ
  pub driver_owned : List Bool
  pub app_ring : R
  pub enabled : Bool
  pub ready_events : ℕ
  pub request_events : ℕ
  pub released_events : ℕ
  pub disabled_events : ℕ
  pub stopped_events : ℕ
  pub bytes_received : ℕ
  pub bytes_buffered : ℕ
  pub bytes_read : ℕ
  pub dropped_bytes : ℕ
  pub last_stop_reason : ℕ
  pub last_error : Rc

abbrev pub buf_at : ℕ → ℕ → ℕ
buf_at base i = base + i * rx_driver_size

-- `buffer_index`, for the buffers from `i` on; `none` is -1.
unfoldable pub index_from : ℕ → ℕ → ℕ → ℕ → Option ℕ
index_from zero i base buf = none
index_from (suc n) i base buf =
    if buf == buf_at base i then some i else index_from n (suc i) base buf

unfoldable pub buffer_index : ℕ → Pointer → Option ℕ
unfolding index_from
buffer_index base none = none
buffer_index base (some buf) = index_from rx_driver_count 0 base buf

-- the first buffer from `i` on that the driver does not own
unfoldable pub available_from : ℕ → ℕ → List Bool → Option ℕ
available_from zero i owned = none
available_from (suc n) i owned =
    if not (get_or owned i false) then some i else available_from n (suc i) owned

-- the memory with both buffers set to 0
abbrev pub cleared : ℕ → (ℕ → ℕ) → ℕ → ℕ
cleared base mem a = if leb base a && ltb a (buf_at base rx_driver_count) then 0 else mem a

module _ (B : RingBuf) where
  open B use {Ring, init, put, get}

  -- the case UART_RX_RDY, for a span that is inside of a buffer of the driver
  unfoldable pub ready : ℕ → ℕ → World (RxManager Ring) → World (RxManager Ring)
  ready start len w =
      let m = w.client in
      let (copied, ring) = put m.app_ring (slice w.mem start len) in
      record w {
        client = record m {
          app_ring = ring;
          ready_events = u32 (m.ready_events + 1);
          bytes_received = u32 (m.bytes_received + len);
          bytes_buffered = u32 (m.bytes_buffered + copied);
          dropped_bytes = u32 (m.dropped_bytes + sub32 len copied);
        };
      }

  abbrev failed : Rc → World (RxManager Ring) → World (RxManager Ring)
  failed rc w = record w { client = record (w.client) { last_error = rc } }

  abbrev owned : ℕ → Bool → World (RxManager Ring) → World (RxManager Ring)
  owned i b w = record w {
    client = record (w.client) { driver_owned = set w.client.driver_owned i b };
  }

  unfoldable pub on_ready :
      Option ℕ → Pointer → ℕ → ℕ → World (RxManager Ring) → World (RxManager Ring)
  unfolding ready
  on_ready none buf offset len w = failed (fail einval) w
  on_ready (some index) buf offset len w =
      if not (get_or w.client.driver_owned index false)
        || ltb rx_driver_size offset
        || ltb (rx_driver_size - offset) len
      then failed (fail einval) w
      else ready (buf_at w.client.driver_buf index + offset) len w

  -- the answer of the driver to the buffer
  unfoldable pub answered : ℕ → Rc × World (RxManager Ring) → World (RxManager Ring)
  answered available (rc, w) = if is_ok rc then w else failed rc (owned available false w)

  unfoldable pub on_request : Option ℕ → World (RxManager Ring) → World (RxManager Ring)
  unfolding answered
  on_request none w = failed (fail enobufs) w
  on_request (some available) w = answered available (
      rx_buf_rsp (some (buf_at w.client.driver_buf available)) rx_driver_size
        (owned available true w))

  unfoldable pub on_released : Option ℕ → World (RxManager Ring) → World (RxManager Ring)
  on_released none w = failed (fail einval) w
  on_released (some index) w =
      if not (get_or w.client.driver_owned index false) then failed (fail einval) w else record w {
        client = record (w.client) {
          driver_owned = set w.client.driver_owned index false;
          released_events = u32 (w.client.released_events + 1);
        };
      }

  -- `rx_manager_event`, which `rx_uart_callback` calls: the driver passes the manager and its own
  -- device, so the tests of these two hold.
  unfoldable pub rx_manager_event : UartEvent → World (RxManager Ring) → World (RxManager Ring)
  unfolding on_ready on_request on_released available_from
  rx_manager_event (rx_rdy buf offset len) w =
      on_ready (buffer_index w.client.driver_buf buf) buf offset len w
  rx_manager_event rx_buf_request w =
      let w' = record w {
        client = record (w.client) { request_events = u32 (w.client.request_events + 1) };
      } in
      on_request (available_from rx_driver_count 0 w.client.driver_owned) w'
  rx_manager_event (rx_buf_released buf) w = on_released (buffer_index w.client.driver_buf buf) w
  rx_manager_event rx_disabled w = record w {
    client = record (w.client) {
      enabled = false;
      disabled_events = u32 (w.client.disabled_events + 1);
    };
  }
  rx_manager_event (rx_stopped reason buf offset len) w = record w {
    client = record (w.client) {
      stopped_events = u32 (w.client.stopped_events + 1);
      last_stop_reason = u32 reason;
      last_error = fail eio;
    };
  }
  rx_manager_event tx_event w = w

  -- The manager after `memset` and `ring_buf_init`; the buffers are where they were.
  abbrev pub blank : ℕ → RxManager Ring
  blank base = record {
    driver_buf = base;
    driver_owned = false ∷ false ∷ [];
    app_ring = init rx_ring_size;
    enabled = false;
    ready_events = 0;
    request_events = 0;
    released_events = 0;
    disabled_events = 0;
    stopped_events = 0;
    bytes_received = 0;
    bytes_buffered = 0;
    bytes_read = 0;
    dropped_bytes = 0;
    last_stop_reason = 0;
    last_error = ok;
  }

  -- what follows `uart_rx_enable`; the last call takes the callback away again
  unfoldable pub enable_answered : Rc × World (RxManager Ring) → Rc × World (RxManager Ring)
  enable_answered (rc, w) =
      let m = record (w.client) {
        driver_owned = set w.client.driver_owned 0 false;
        enabled = false;
        last_error = rc;
      } in
      let (ignored, w') = callback_set false (record w { client = m }) in
      if is_ok rc then (rc, w) else (rc, w')

  -- what follows `uart_callback_set`
  unfoldable pub callback_answered : Rc × World (RxManager Ring) → Rc × World (RxManager Ring)
  unfolding enable_answered
  callback_answered (rc, w) =
      let m = record (w.client) {
        driver_owned = set w.client.driver_owned 0 true;
        enabled = true;
      } in
      if is_ok rc
      then enable_answered (
          rx_enable (some (buf_at w.client.driver_buf 0)) rx_driver_size forever
            (record w { client = m }))
      else (rc, failed rc w)

  -- `rx_manager_init(mgr, dev)`: NULL pointers are `false`, and `is_ready` is `device_is_ready(dev)`.
  unfoldable pub rx_manager_init :
      Bool → Bool → Bool → World (RxManager Ring) → Rc × World (RxManager Ring)
  unfolding callback_answered
  rx_manager_init has_mgr has_dev is_ready w =
      if not has_mgr || not has_dev
      then (fail einval, w)
      else if not is_ready
      then (fail enodev, w)
      else callback_answered (
          callback_set true (record w {
            client = blank w.client.driver_buf;
            mem = cleared w.client.driver_buf w.mem;
          }))

  -- `rx_manager_read(mgr, dst, max_len)`: the bytes are those that go to `dst`.
  unfoldable pub rx_manager_read :
      Bool → Bool → ℕ → World (RxManager Ring) → List ℕ × World (RxManager Ring)
  rx_manager_read has_mgr has_dst max_len w =
      let (bytes, ring) = get w.client.app_ring (min max_len rx_ring_size) in
      let m = record (w.client) {
        app_ring = ring;
        bytes_read = u32 (w.client.bytes_read + length bytes);
      } in
      if not has_mgr || not has_dst || max_len == 0
      then ([], w)
      else (bytes, record w { client = m })
