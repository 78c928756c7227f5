-- ===== src/UartAsync.antt =====
-- labs/lab20_uart_async_rx_manager_zephyr/drivers/uart/uart_cmsdk_async.c: the state of the
-- asynchronous receive driver and the calls of its interface. What the driver calls back is a
-- parameter of the functions that call it; they are in the child Isr.
pub mod Isr
use cortex_m3_embedded_debug.Base.{
  ℕ, zero, suc, ◌+◌, ◌-◌, ◌/◌, ◌<◌, Bool, true, false, not, ◌&&◌, ◌||◌, Option, some, none, List,
  [], ◌∷◌, ◌==◌, ◌!=◌, ltb, leb, if◌then◌else◌, u8, u32, sub32, not32, bit_and, bit_or, Rc, ok,
  fail, is_ok, einval, ebusy, enotsup, eacces, efault, ealready,
}

-- uart_cmsdk_regs.h
abbrev pub data_mask : ℕ
data_mask = 0xff

abbrev pub ctrl_txen : ℕ
ctrl_txen = 1

abbrev pub ctrl_rx : ℕ
ctrl_rx = bit_or 2 8

abbrev pub int_rx : ℕ
int_rx = 2

abbrev pub int_rxor : ℕ
int_rxor = 8

abbrev pub state_txbf : ℕ
state_txbf = 1

abbrev pub state_rxbf : ℕ
state_rxbf = 2

abbrev pub state_rxor : ℕ
state_rxor = 8

abbrev pub bauddiv_min : ℕ
bauddiv_min = 16

abbrev pub bauddiv_mask : ℕ
bauddiv_mask = 0xfffff

-- The registers that the driver writes, with the last value written, and the pending bit of the
-- receive interrupt in the NVIC. What it reads from `state` and `data` is an argument.
pub record Regs : Type 0 where
  pub tx_data : ℕ
  pub ctrl : ℕ
  pub intclear : ℕ
  pub bauddiv : ℕ
  pub pending : Bool

-- `enum lab20_rx_state`
pub data RxState : Type 0 where
  rx_idle rx_active rx_stopping : RxState

abbrev pub is_idle : RxState → Bool
is_idle rx_idle = true
is_idle _ = false

abbrev pub is_active : RxState → Bool
is_active rx_active = true
is_active _ = false

abbrev pub is_stopping : RxState → Bool
is_stopping rx_stopping = true
is_stopping _ = false

-- A pointer to a byte: NULL is `none`.
abbrev pub Pointer : Type 0
Pointer = Option ℕ

-- `struct lab20_uart_data`; `callback` says that the callback is not NULL.
pub record Uart : Type 0 where
  pub callback : Bool
  pub state : RxState
  pub in_callback : Bool
  pub initial_request : Bool
  pub request_outstanding : Bool
  pub current_buf : Pointer
  pub current_len : ℕ
  pub current_pos : ℕ
  pub reported : ℕ
  pub next_buf : Pointer
  pub next_len : ℕ
  pub irq_entries : ℕ
  pub hardware_bytes : ℕ
  pub hardware_overruns : ℕ

-- `struct uart_event`, the events of reception; a stop carries its reason.
pub data UartEvent : Type 0 where
  rx_rdy : Pointer → ℕ → ℕ → UartEvent
  rx_buf_request : UartEvent
  rx_buf_released : Pointer → UartEvent
  rx_disabled : UartEvent
  rx_stopped : ℕ → Pointer → ℕ → ℕ → UartEvent
  tx_event : UartEvent

-- The driver, its registers, the memory, and the object that `user_data` points to. `fault` says
-- that NULL has been called or written through.
pub record World (C : Type 0) : Type 0 where
  pub uart : Uart
  pub regs : Regs
  pub mem : ℕ → ℕ
  pub client : C
  pub fault : Bool

-- `*p = v`
abbrev pub store : Pointer → ℕ → (ℕ → ℕ) → ℕ → ℕ
store none v mem a = mem a
store (some p) v mem a = if a == p then v else mem a

abbrev pub is_null : Pointer → Bool
is_null none = true
is_null (some p) = false

abbrev pub advance : Pointer → ℕ → Pointer
advance none n = none
advance (some p) n = some (p + n)

-- `SYS_FOREVER_US` is -1; of a timeout the code asks only this.
pub data Timeout : Type 0 where
  forever : Timeout
  micros : ℕ → Timeout

abbrev pub is_forever : Timeout → Bool
is_forever forever = true
is_forever (micros n) = false

-- `buffers_overlap`, which the driver calls with two buffers or with NULL as address 0
unfoldable pub buffers_overlap : ℕ → ℕ → ℕ → ℕ → Bool
buffers_overlap x a_len y b_len = if leb x y then ltb (y - x) a_len else ltb (x - y) b_len

abbrev pub address : Pointer → ℕ
address none = 0
address (some p) = p

module _ {C : Type 0} where
  -- `lab20_uart_callback_set`: with a callback or with NULL
  unfoldable pub callback_set : Bool → World C → Rc × World C
  callback_set callback w =
      if not (is_idle w.uart.state) || w.uart.in_callback
      then (fail ebusy, w)
      else (ok, record w { uart = record (w.uart) { callback = callback } })

  -- the buffer is taken, reception is on and the first interrupt is pending
  unfoldable pub enabled : ℕ → ℕ → World C → World C
  enabled buf len w = record w {
    uart = record (w.uart) {
      current_buf = some buf;
      current_len = len;
      current_pos = 0;
      reported = 0;
      next_buf = none;
      next_len = 0;
      request_outstanding = false;
      initial_request = true;
      state = rx_active;
    };
    regs = record (w.regs) { intclear = int_rx; ctrl = bit_or w.regs.ctrl ctrl_rx; pending = true };
  }

  -- `lab20_uart_rx_enable`
  unfoldable pub rx_enable : Pointer → ℕ → Timeout → World C → Rc × World C
  unfolding enabled
  rx_enable none len timeout w = (fail einval, w)
  rx_enable (some buf) len timeout w =
      if len == 0
      then (fail einval, w)
      else if not (is_forever timeout)
      then (fail enotsup, w)
      else if not (is_idle w.uart.state) || not w.uart.callback
      then ((if not (is_idle w.uart.state) then fail ebusy else fail einval), w)
      else (ok, enabled buf len w)

  -- `lab20_uart_rx_buf_rsp`
  unfoldable pub rx_buf_rsp : Pointer → ℕ → World C → Rc × World C
  rx_buf_rsp none len w = (fail einval, w)
  rx_buf_rsp (some buf) len w =
      if len == 0
      then (fail einval, w)
      else if not (is_active w.uart.state)
      then (fail eacces, w)
      else if not (is_null w.uart.next_buf) || not w.uart.request_outstanding
      then (fail ebusy, w)
      else if buffers_overlap buf len (address w.uart.current_buf) w.uart.current_len
      then (fail einval, w)
      else (
        ok,
        record w {
          uart = record (w.uart) {
            next_buf = some buf;
            next_len = len;
            request_outstanding = false;
          };
        },
      )

  -- `lab20_uart_rx_disable`
  unfoldable pub rx_disable : World C → Rc × World C
  rx_disable w =
      if is_idle w.uart.state
      then (fail efault, w)
      else if is_stopping w.uart.state
      then (fail ealready, w)
      else (
        ok,
        record w {
          uart = record (w.uart) { state = rx_stopping };
          regs = record (w.regs) { ctrl = bit_and w.regs.ctrl (not32 ctrl_rx); pending = true };
        },
      )

  -- `lab20_uart_poll_out`: the values that `state` shows, until one has a free transmit buffer; `none`
  -- is a wait that has not ended.
  unfoldable pub poll_out : List ℕ → ℕ → World C → Option (World C)
  poll_out [] c w = none
  poll_out (status ∷ later) c w =
      if bit_and status state_txbf != 0
      then poll_out later c w
      else some (record w { regs = record (w.regs) { tx_data = c } })

  -- `lab20_uart_init`, for a clock and a baud rate
  unfoldable pub uart_init : ℕ → ℕ → World C → Rc × World C
  uart_init clock_hz baudrate w =
      let divisor = clock_hz / baudrate in
      if baudrate == 0
      then (fail einval, w)
      else if ltb divisor bauddiv_min || ltb bauddiv_mask divisor
      then (fail einval, w)
      else (
        ok,
        record w {
          regs = record (w.regs) {
            ctrl = ctrl_txen;
            bauddiv = divisor;
            intclear = bit_or int_rx int_rxor;
            pending = false;
          };
        },
      )
