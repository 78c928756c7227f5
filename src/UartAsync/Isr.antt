-- ===== src/UartAsync/Isr.antt =====
-- uart_cmsdk_async.c: the interrupt handler and the events that it hands to the callback.
use cortex_m3_embedded_debug.Base.{
  ℕ, ◌+◌, true, false, not, ◌&&◌, ◌||◌, none, ◌==◌, ◌!=◌, ltb, if◌then◌else◌, u8, u32, sub32, not32,
  bit_and,
}
use cortex_m3_embedded_debug.UartAsync.{
  World, UartEvent, rx_rdy, rx_buf_request, rx_buf_released, rx_disabled, rx_stopped, Pointer,
  is_null, store, advance, data_mask, ctrl_rx, int_rx, int_rxor, state_rxbf, state_rxor, rx_idle,
  rx_stopping, is_active, is_stopping,
}

-- `UART_ERROR_OVERRUN` of the driver interface
abbrev pub error_overrun : ℕ
error_overrun = 1

module _ {C : Type 0} (callback : UartEvent → World C → World C) where
  -- `data->callback(dev, evt, data->user_data)`
  unfoldable pub call_back : UartEvent → World C → World C
  call_back evt w = if w.uart.callback then callback evt w else record w { fault = true }

  -- `lab20_uart_emit`
  unfoldable pub emit : UartEvent → World C → World C
  unfolding call_back
  emit evt w =
      let w' = call_back evt (record w { uart = record (w.uart) { in_callback = true } }) in
      record w' { uart = record (w'.uart) { in_callback = false } }

  unfoldable pub request_buffer : World C → World C
  request_buffer w =
      emit rx_buf_request (record w { uart = record (w.uart) { request_outstanding = true } })

  unfoldable pub report_current : World C → World C
  report_current w =
      if w.uart.current_pos == w.uart.reported
      then w
      else emit
          (rx_rdy w.uart.current_buf w.uart.reported (sub32 w.uart.current_pos w.uart.reported))
          (record w { uart = record (w.uart) { reported = w.uart.current_pos } })

  unfoldable pub release_buffer : Pointer → World C → World C
  release_buffer buf w = if is_null buf then w else emit (rx_buf_released buf) w

  -- `finish_rx` up to the report of the current buffer
  unfoldable pub stop_rx : ℕ → World C → World C
  stop_rx reason w =
      let w' = record w {
        regs = record (w.regs) { ctrl = bit_and w.regs.ctrl (not32 ctrl_rx); intclear = int_rx };
        uart = record (w.uart) {
          state = rx_stopping;
          initial_request = false;
          request_outstanding = false;
        };
      } in
      if reason == 0
      then w'
      else emit
          (rx_stopped reason w.uart.current_buf w.uart.reported
            (sub32 w.uart.current_pos w.uart.reported))
          w'

  -- `data->current_buf = NULL;` and the lines below it
  unfoldable pub forget_buffers : World C → World C
  forget_buffers w = record w {
    uart = record (w.uart) {
      current_buf = none;
      next_buf = none;
      current_len = 0;
      current_pos = 0;
      reported = 0;
      next_len = 0;
    };
  }

  -- `data->state = LAB20_RX_IDLE;` and the last event
  unfoldable pub end_rx : World C → World C
  end_rx w = emit rx_disabled (record w { uart = record (w.uart) { state = rx_idle } })

  -- `finish_rx` after the report of the current buffer
  unfoldable pub close_rx : World C → World C
  unfolding forget_buffers release_buffer end_rx
  close_rx w =
      end_rx (release_buffer w.uart.next_buf (release_buffer w.uart.current_buf (forget_buffers w)))

  unfoldable pub finish_rx : ℕ → World C → World C
  finish_rx reason w = close_rx (report_current (stop_rx reason w))

  -- `data->current_buf[data->current_pos++] = ...; ++data->hardware_bytes;`
  unfoldable pub take_byte : ℕ → World C → World C
  take_byte datum w = record w {
    mem =
        store (advance w.uart.current_buf w.uart.current_pos) (u8 (bit_and datum data_mask)) w.mem;
    fault = w.fault || is_null w.uart.current_buf;
    uart = record (w.uart) {
      current_pos = u32 (w.uart.current_pos + 1);
      hardware_bytes = u32 (w.uart.hardware_bytes + 1);
    };
  }

  -- the next buffer becomes the current one
  unfoldable pub swap_buffers : World C → World C
  swap_buffers w = record w {
    uart = record (w.uart) {
      current_buf = w.uart.next_buf;
      current_len = w.uart.next_len;
      current_pos = 0;
      reported = 0;
      next_buf = none;
      next_len = 0;
    };
  }

  unfoldable pub request_if_active : World C → World C
  request_if_active w = if is_active w.uart.state then request_buffer w else w

  unfoldable pub finish_if_stopping : World C → World C
  finish_if_stopping w = if is_stopping w.uart.state then finish_rx 0 w else w

  -- the handler after the report of a full buffer
  unfoldable pub pass_buffer : World C → World C
  unfolding swap_buffers release_buffer request_if_active finish_if_stopping
  pass_buffer w =
      if is_stopping w.uart.state || is_null w.uart.next_buf
      then finish_rx 0 w
      else finish_if_stopping
          (request_if_active (release_buffer w.uart.current_buf (swap_buffers w)))

  unfoldable pub buffer_full : World C → World C
  buffer_full w = pass_buffer (report_current w)

  unfoldable pub receive : ℕ → World C → World C
  unfolding take_byte
  receive datum w =
      let w1 = take_byte datum w in
      if ltb w1.uart.current_pos w1.uart.current_len then w1 else buffer_full w1

  -- `status` is what `regs->state` shows.
  unfoldable pub serve_status : ℕ → ℕ → World C → World C
  serve_status status datum w =
      let overrun = record w {
        uart = record (w.uart) { hardware_overruns = u32 (w.uart.hardware_overruns + 1) };
        regs = record (w.regs) { intclear = int_rxor };
      } in
      if bit_and status state_rxor != 0
      then finish_rx error_overrun overrun
      else if bit_and status state_rxbf == 0
      then w
      else receive datum w

  -- the first request of a reception
  unfoldable pub first_request : World C → World C
  first_request w =
      if w.uart.initial_request
      then request_buffer (record w { uart = record (w.uart) { initial_request = false } })
      else w

  -- the handler in the state ACTIVE; the state is tested again only after a first request
  unfoldable pub serve_active : ℕ → ℕ → World C → World C
  serve_active status datum w =
      let w1 = first_request w in
      if w.uart.initial_request && is_stopping w1.uart.state
      then finish_rx 0 w1
      else serve_status status datum w1

  -- `lab20_uart_isr`
  unfoldable pub isr : ℕ → ℕ → World C → World C
  isr status datum w =
      let w1 = record w {
        uart = record (w.uart) { irq_entries = u32 (w.uart.irq_entries + 1) };
        regs = record (w.regs) { intclear = int_rx };
      } in
      if is_stopping w1.uart.state
      then finish_rx 0 w1
      else if not (is_active w1.uart.state)
      then w1
      else serve_active status datum w1
